-- ===== src/Url/Joining.antt =====
-- crates/rqx-core/src/url/reference.rs: references joined and copied with other parts.
use rqx.Base.{
  Text, text, text_eq, nat_eq, Bool, true, false, ◌||◌, Option, none, some, List, [], ◌∷◌, ◌++◌,
  if◌then◌else◌, is_empty, strip_prefix, starts_with, trim_start_matches,
}
use rqx.Error.{Result, ok, err, ◌>>=◌}
use rqx.QueryParams.{
  QueryPairs, FormUrlencoded, display, parse, ScalarValue, scalar, set, add, remove, merge,
}
use rqx.Response.{unwrap_or}
use rqx.Url.Marks.{slash, question}
use rqx.Url.Reference.{UrlReference, absolute, relative, invalid, parse_reference, compose, query}
use rqx.Url.Library.{UrlLibrary, parsed, relative_without_base, rejected, fine, failing}
use rqx.Url.Components.{UrlComponentValue, default_components, from_hash_map}

module _ (L : UrlLibrary) where
  open L use {
    Url, Relative, parse_url, join_url, as_str, relative_without_base_text, authority_str,
    relative_str, relative_path, relative_query,
  }

  -- the borrowed base of `join_relative`
  abbrev anchor : Text
  anchor = text "http://rqx.invalid"

  abbrev anchored_base : Relative → Text
  anchored_base reference =
      anchor
      ++ slash ∷ trim_start_matches slash (relative_path reference)
      ++ (elim (relative_query reference) [ none ↦ [] | some s ↦ question ∷ s ])

  -- the joined text, taken back off the borrowed base
  abbrev rebuilt : Relative → Text → Url → Text
  rebuilt reference other joined =
      let tail = unwrap_or (strip_prefix anchor (as_str joined)) (as_str joined) in
      elim (authority_str reference) [
        | some authority ↦ text "//" ++ authority ++ tail
        | none ↦
            if starts_with (slash ∷ []) (relative_path reference) || starts_with (slash ∷ []) other
            then tail
            else trim_start_matches slash tail
      ]

  abbrev is_parsed : Text → Bool
  is_parsed other = elim (parse_url other) [
    | parsed url ↦ true
    | relative_without_base ↦ false
    | rejected e ↦ false
  ]

  unfoldable pub join_relative : Relative → Text → Result (UrlReference L)
  join_relative reference other =
      if is_parsed other || starts_with (text "//") other
      then parse_reference L other
      else elim (parse_url (anchored_base reference)) [
        | parsed anchored ↦ elim (join_url anchored other) [
          | fine joined ↦ parse_reference L (rebuilt reference other joined)
          | failing e ↦ err (invalid L other e)
        ]
        | relative_without_base ↦
            err (invalid L (relative_str reference) relative_without_base_text)
        | rejected e ↦ err (invalid L (relative_str reference) e)
      ]

  unfoldable pub join : UrlReference L → Text → Result (UrlReference L)
  join (absolute url) other =
      if is_empty other then ok (absolute url) else elim (join_url url other) [
        | fine joined ↦ ok (absolute joined)
        | failing e ↦ err (invalid L other e)
      ]
  join (relative reference) other =
      if is_empty other then ok (relative reference) else join_relative reference other

  module _ (form : FormUrlencoded) where
    unfoldable pub params : UrlReference L → QueryPairs
    params reference = parse form (query L reference)

    unfoldable pub with_params : UrlReference L → QueryPairs → Result (UrlReference L)
    with_params reference pairs =
        compose L (some reference) (record default_components { query = some (display form pairs) })

    unfoldable pub copy_with :
        UrlReference L → List (Text × Option UrlComponentValue) → Result (UrlReference L)
    copy_with reference kwargs =
        if is_empty kwargs
        then ok reference
        else (from_hash_map L form kwargs >>= λ components. compose L (some reference) components)

    unfoldable pub copy_remove_param : UrlReference L → Text → Result (UrlReference L)
    copy_remove_param reference key = with_params reference (remove (params reference) key)

    unfoldable pub copy_merge_params : UrlReference L → Option QueryPairs → Result (UrlReference L)
    copy_merge_params reference none = ok reference
    copy_merge_params reference (some other) =
        with_params reference (merge (params reference) other)

    module _ {F : Type 0} (display_float : F → Text) where
      unfoldable pub copy_set_param :
          UrlReference L → Text → Option (ScalarValue F) → Result (UrlReference L)
      copy_set_param reference key value =
          with_params reference (set (params reference) key (scalar display_float value))

      unfoldable pub copy_add_param :
          UrlReference L → Text → Option (ScalarValue F) → Result (UrlReference L)
      copy_add_param reference key value =
          with_params reference (add (params reference) key (scalar display_float value))
