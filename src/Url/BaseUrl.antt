-- ===== src/Url/BaseUrl.antt =====
-- crates/rqx-core/src/url/base_url.rs, and the client's `merge_url` (crates/rqx-core/src/client.rs).
use rqx.Base.{text, not, Option, none, some, ◌++◌, ends_with, trim_start_matches, if◌then◌else◌}
use rqx.Error.{invalid_url, unsupported_protocol, Result, ok, err}
use rqx.Url.Library.{UrlLibrary, fine, failing}
use rqx.Url.Reference.{UrlReference, absolute, relative, raw_path, display_reference}
use rqx.Url.Marks.{slash}

module _ (L : UrlLibrary) where
  open L use {Url, path_of, set_path, join_url, has_authority}

  unfoldable pub with_trailing_slash : Url → Url
  with_trailing_slash url =
      if not (ends_with slash (path_of url)) then set_path url (path_of url ++ text "/") else url

  -- `BaseUrl::new`
  unfoldable pub new_base : UrlReference L → Result Url
  new_base (absolute base) = ok (with_trailing_slash base)
  new_base (relative reference) = err (
      invalid_url (
        text "invalid base_url \""
        ++ display_reference L (relative reference)
        ++ text "\": relative URL without a base"))

  -- `BaseUrl::join`
  unfoldable pub join_base : Url → UrlReference L → Result Url
  join_base base url = elim (join_url base (trim_start_matches slash (raw_path L url))) [
    | fine joined ↦ ok joined
    | failing e ↦ err (
        invalid_url
          (text "could not join base_url with \"" ++ display_reference L url ++ text "\": " ++ e))
  ]

  -- `merge_url` without an absolute URL of its own
  abbrev pub merge_with : Option Url → UrlReference L → Result Url
  merge_with (some base) url = join_base base url
  merge_with none url =
      err
        (unsupported_protocol (text "Request URL is missing an 'http://' or 'https://' protocol."))

  -- `Client::merge_url`
  unfoldable pub merge_url : Option Url → UrlReference L → Result Url
  merge_url base (absolute url) =
      if has_authority url then ok url else merge_with base (absolute url)
  merge_url base (relative reference) = merge_with base (relative reference)
