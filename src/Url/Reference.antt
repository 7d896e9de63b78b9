-- ===== src/Url/Reference.antt =====
-- crates/rqx-core/src/url/reference.rs: absolute URLs and relative references.
use rqx.Base.{
  ℕ, Text, text, text_eq, nat_eq, ◌==◌, Bool, false, not, ◌&&◌, ◌||◌, Option, none, some, [], ◌∷◌,
  ◌++◌, if◌then◌else◌, is_empty, strip_prefix, trim_start_matches, ends_with, contains_char,
  split_once,
}
use rqx.Error.{RqxCoreError, invalid_url, Result, ok, err}
use rqx.Response.{option_bind, unwrap_or, is_some}
use rqx.Url.Marks.{
  colon, slash, question, hash, trim_text, trim_end_matches, split_reference, marked, composed_text,
}
use rqx.Url.Library.{UrlLibrary, parsed, relative_without_base, rejected, fine, failing}
use rqx.Url.Components.{UrlComponents}

pub data UrlReference (L : UrlLibrary) : Type 0 where
  absolute : UrlLibrary.Url L → UrlReference L
  relative : UrlLibrary.Relative L → UrlReference L

module _ (L : UrlLibrary) where
  open L use {
    Url, Relative, parse_url, join_url, as_str, scheme_of, username_of, password_of, host_of,
    port_of, path_of, query_of, fragment_of, relative_without_base_text, parse_uri, relative_str,
    authority_str, userinfo_of, relative_host, relative_port, relative_path, relative_query,
    relative_fragment, encode_path_text, encode_query_text, encode_fragment_text, percent_decode,
    domain_to_unicode, mask_password, parse_u16, debug,
  }

  unfoldable pub invalid : Text → Text → RqxCoreError
  invalid input error = invalid_url (text "invalid URL " ++ debug input ++ text ": " ++ error)

  unfoldable pub encode_path : Text → Text
  encode_path input =
      let (path, (query, fragment)) = split_reference input in
      encode_path_text path
      ++ (elim query [ none ↦ [] | some s ↦ question ∷ encode_query_text s ])
      ++ (elim fragment [ none ↦ [] | some s ↦ hash ∷ encode_fragment_text s ])

  -- of the two parses of a network-path reference, the one that kept the port
  abbrev kept_port : Url → Url → Url
  kept_port ftp ws = if not (is_some (port_of ftp)) && is_some (port_of ws) then ws else ftp

  abbrev unanchored : Text → Url → Text
  unanchored rest url =
      let s = as_str url in
      let encoded = trim_start_matches colon (trim_text (scheme_of url) s s) in
      if contains_char slash rest || contains_char question rest || contains_char hash rest
      then encoded
      else trim_end_matches slash encoded

  unfoldable pub encode_relative : Text → Text
  encode_relative input = elim (strip_prefix (text "//") input) [
    | none ↦ encode_path input
    | some rest ↦ elim (parse_url (text "ftp:" ++ input)) [
      | parsed ftp ↦ elim (parse_url (text "ws:" ++ input)) [
        | parsed ws ↦ unanchored rest (kept_port ftp ws)
        | relative_without_base ↦ encode_path input
        | rejected e ↦ encode_path input
      ]
      | relative_without_base ↦ encode_path input
      | rejected e ↦ encode_path input
    ]
  ]

  unfoldable pub parse_relative : Text → Result (UrlReference L)
  parse_relative input = elim (parse_uri input) [
    | fine reference ↦ ok (relative reference)
    | failing e ↦ elim (parse_uri (encode_relative input)) [
      | fine reference ↦ ok (relative reference)
      | failing f ↦ err (invalid input f)
    ]
  ]

  -- `UrlReference::parse`
  unfoldable pub parse_reference : Text → Result (UrlReference L)
  parse_reference input = elim (parse_url input) [
    | parsed url ↦ ok (absolute url)
    | relative_without_base ↦ parse_relative input
    | rejected e ↦ err (invalid input e)
  ]

  unfoldable pub is_absolute : UrlReference L → Bool
  is_absolute (absolute url) = is_some (host_of url)
  is_absolute (relative reference) = false

  unfoldable pub scheme : UrlReference L → Text
  scheme (absolute url) = scheme_of url
  scheme (relative reference) = []

  unfoldable pub userinfo : Relative → Text × Text
  userinfo reference = elim (userinfo_of reference) [
    | none ↦ ([], [])
    | some info ↦ unwrap_or (split_once colon info) (info, [])
  ]

  unfoldable pub username : UrlReference L → Text
  username (absolute url) = username_of url
  username (relative reference) = (userinfo reference).0

  unfoldable pub password : UrlReference L → Text
  password (absolute url) = unwrap_or (password_of url) []
  password (relative reference) = (userinfo reference).1

  unfoldable pub encoded_host : UrlReference L → Text
  encoded_host (absolute url) = unwrap_or (host_of url) []
  encoded_host (relative reference) = unwrap_or (relative_host reference) []

  -- `strip_prefix('[')` and `strip_suffix(']')`
  abbrev literal : Text → Option Text
  literal host =
      option_bind (strip_prefix (text "[") host)
        (λ rest. if ends_with b']' rest then some (without_last rest) else none)
    where
      without_last : Text → Text
      without_last [] = []
      without_last (c ∷ []) = []
      without_last (c ∷ d ∷ s) = c ∷ without_last (d ∷ s)

  unfoldable pub host : UrlReference L → Text
  host reference =
      let encoded = encoded_host reference in
      elim (literal encoded) [
        | some inner ↦ inner
        | none ↦ if is_empty encoded then [] else unwrap_or (domain_to_unicode encoded) encoded
      ]

  unfoldable pub port : UrlReference L → Option ℕ
  port (absolute url) = port_of url
  port (relative reference) = option_bind (relative_port reference) parse_u16

  unfoldable pub encoded_path : UrlReference L → Text
  encoded_path (absolute url) = path_of url
  encoded_path (relative reference) = relative_path reference

  unfoldable pub encoded_path_or_root : UrlReference L → Text
  encoded_path_or_root reference =
      let path = encoded_path reference in if is_empty path then text "/" else path

  unfoldable pub path : UrlReference L → Text
  path reference = percent_decode (encoded_path_or_root reference)

  unfoldable pub query : UrlReference L → Text
  query (absolute url) = unwrap_or (query_of url) []
  query (relative reference) = unwrap_or (relative_query reference) []

  unfoldable pub raw_path : UrlReference L → Text
  raw_path reference = encoded_path_or_root reference ++ marked question (query reference)

  unfoldable pub fragment : UrlReference L → Text
  fragment (absolute url) = unwrap_or (fragment_of url) []
  fragment (relative reference) = unwrap_or (relative_fragment reference) []

  -- `Display for UrlReference`, and the `==` on it
  unfoldable pub display_reference : UrlReference L → Text
  display_reference (absolute url) = as_str url
  display_reference (relative reference) = relative_str reference

  unfoldable pub eq_reference : UrlReference L → UrlReference L → Bool
  eq_reference a b = display_reference a == display_reference b

  unfoldable pub masked : UrlReference L → Text
  masked reference =
      unwrap_or (mask_password (display_reference reference)) (display_reference reference)

  abbrev current : Option (UrlReference L) → (UrlReference L → Text) → Text
  current none f = []
  current (some base) f = f base

  unfoldable pub compose : Option (UrlReference L) → UrlComponents → Result (UrlReference L)
  compose base c = parse_reference (
      composed_text (unwrap_or c.scheme (current base scheme))
        (unwrap_or c.username (current base username))
        (unwrap_or c.password (current base password))
        (unwrap_or c.host (current base encoded_host)) (unwrap_or c.port (option_bind base port))
        (unwrap_or c.path (current base encoded_path)) (unwrap_or c.query (current base query))
        (unwrap_or c.fragment (current base fragment)))
