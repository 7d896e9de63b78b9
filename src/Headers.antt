-- ===== src/Headers.antt =====
-- crates/rqx-core/src/headers.rs. `http::HeaderMap` is a parameter (`HeaderLibrary`), with what it
-- documents in `HeaderLaws`.
pub mod Python
pub mod Mapping
pub mod Pairs
use rqx.Base.{
  ℕ, Text, text, text_eq, ◌==◌, ◌++◌, Bool, true, false, not, Option, none, some, List, [], ◌∷◌,
  map, is_empty, if◌then◌else◌, ◌≡◌,
}
use rqx.Error.{Result, ok, err, invalid_argument, missing_key, ◌>>=◌}
use rqx.Exceptions.{PyErr, to_err, core, PyResult, py_ok, py_err, new_err, of_core}
use rqx.Exceptions.Classes
use rqx.PyJson.{PyObject, py_string}
use rqx.QueryParams.Binding.{PyStrings, ◌⟫=◌, Items, type_name}
use rqx.Response.{unwrap_or}
use rqx.Url.Library.{Tried, fine, failing}

pub record HeaderLibrary : Type 1 where
  pub HeaderMap : Type 0
  pub HeaderName : Type 0
  pub HeaderValue : Type 0
  pub empty_map : HeaderMap
  -- `HeaderName::from_str` and `as_str`, `HeaderValue::from_str` and `to_str`
  pub parse_name : Text → Tried HeaderName
  pub name_str : HeaderName → Text
  pub parse_value : Text → Tried HeaderValue
  pub to_str : HeaderValue → Option Text
  -- the values of a name, in order; a text that is no name has none
  pub get_all : HeaderMap → Text → List HeaderValue
  pub contains_key : HeaderMap → Text → Bool
  -- `try_append` and `try_insert`, which fail when the map is full
  pub try_append : HeaderMap → HeaderName → HeaderValue → Tried HeaderMap
  pub try_insert : HeaderMap → HeaderName → HeaderValue → Tried HeaderMap
  pub remove_entry : HeaderMap → Text → Option HeaderValue × HeaderMap
  pub keys_len : HeaderMap → ℕ
  pub map_keys : HeaderMap → List HeaderName
  pub entries : HeaderMap → List (HeaderName × HeaderValue)
  pub map_beq : HeaderMap → HeaderMap → Bool
  -- `{:?}` of a text and of a map
  pub debug : Text → Text
  pub debug_map : HeaderMap → Text

abbrev pub too_many : Text → Text
too_many e = text "too many headers: " ++ e

-- `[&str]::join(", ")`
unfoldable pub join_texts : List Text → Text
join_texts [] = []
join_texts (v ∷ []) = v
join_texts (v ∷ w ∷ vs) = v ++ text ", " ++ join_texts (w ∷ vs)

unfoldable pub joined_or_missing : Text → List Text → Result Text
joined_or_missing key [] = err (missing_key key)
joined_or_missing key (v ∷ vs) = ok (join_texts (v ∷ vs))

module _ (L : HeaderLibrary) where
  open L use {
    HeaderMap, HeaderName, HeaderValue, empty_map, parse_name, name_str, parse_value, to_str,
    get_all, contains_key, try_append, try_insert, remove_entry, keys_len, map_keys, entries,
    map_beq, debug, debug_map,
  }

  -- a text is the header's name
  abbrev pub is_name : HeaderName → Text → Bool
  is_name n key = elim (parse_name key) [ fine m ↦ name_str n == name_str m | failing e ↦ false ]

  abbrev pub names : Tried HeaderName → Text → Bool
  names (fine n) j = is_name n j
  names (failing e) j = false

  -- two texts are one name
  abbrev pub same_name : Text → Text → Bool
  same_name key j = names (parse_name key) j

  pub record HeaderLaws : Type 0 where
    pub get_all_empty : (j : Text) → get_all empty_map j ≡ []
    pub get_all_append :
        (m m' : HeaderMap) (n : HeaderName) (v : HeaderValue) (j : Text)
        → try_append m n v ≡ fine m'
        → get_all m' j ≡ (if is_name n j then get_all m j ++ v ∷ [] else get_all m j)
    pub get_all_insert :
        (m m' : HeaderMap) (n : HeaderName) (v : HeaderValue) (j : Text)
        → try_insert m n v ≡ fine m'
        → get_all m' j ≡ (if is_name n j then v ∷ [] else get_all m j)
    pub removed :
        (m : HeaderMap) (key : Text)
        → (remove_entry m key).0 ≡ elim (get_all m key) [ [] ↦ none | v ∷ vs ↦ some v ]
    pub get_all_remove :
        (m : HeaderMap) (key j : Text)
        → get_all (remove_entry m key).1 j ≡ (if same_name key j then [] else get_all m j)
    pub get_all_same :
        (m : HeaderMap) (key j : Text) → same_name key j ≡ true → get_all m key ≡ get_all m j
    pub contains_values :
        (m : HeaderMap) (key : Text) → contains_key m key ≡ not (is_empty (get_all m key))

  abbrev pub invalid_name : Text → Text → Text
  invalid_name key e = text "invalid header name " ++ debug key ++ text ": " ++ e

  abbrev pub invalid_value : Text → Text → Text
  invalid_value value e = text "invalid header value " ++ debug value ++ text ": " ++ e

  unfoldable pub append_value : HeaderMap → Text → HeaderName → Tried HeaderValue → Result HeaderMap
  append_value m value n (failing e) = err (invalid_argument (invalid_value value e))
  append_value m value n (fine v) = elim (try_append m n v) [
    | failing e ↦ err (invalid_argument (too_many e))
    | fine m' ↦ ok m'
  ]

  -- one turn of the loop of `try_from_pairs`, over the parsed name
  unfoldable pub append_named : HeaderMap → Text → Text → Tried HeaderName → Result HeaderMap
  append_named m key value (failing e) = err (invalid_argument (invalid_name key e))
  append_named m key value (fine n) = append_value m value n (parse_value value)

  -- the loop of `try_from_pairs`
  unfoldable pub append_pairs : HeaderMap → List (Text × Text) → Result HeaderMap
  append_pairs m [] = ok m
  append_pairs m ((key, value) ∷ pairs) =
      append_named m key value (parse_name key) >>= λ m'. append_pairs m' pairs

  unfoldable pub try_from_pairs : List (Text × Text) → Result HeaderMap
  try_from_pairs pairs = append_pairs empty_map pairs

  -- `Headers::new`, over the map's pairs in the order of its iterator
  unfoldable pub new_headers : Option (List (Text × Text)) → Result HeaderMap
  new_headers none = ok empty_map
  new_headers (some pairs) = try_from_pairs pairs

  -- a value as the methods show it
  unfoldable pub shown : HeaderValue → Text
  shown v = unwrap_or (to_str v) []

  unfoldable pub get_joined_values_for_key : HeaderMap → Text → Result Text
  get_joined_values_for_key m key = joined_or_missing key (map shown (get_all m key))

  unfoldable pub set_result : Tried HeaderMap → Result HeaderMap
  set_result (fine m) = ok m
  set_result (failing e) = err (invalid_argument (too_many e))

  unfoldable pub set_value : HeaderMap → HeaderName → Tried HeaderValue → Result HeaderMap
  set_value m n (fine v) = set_result (try_insert m n v)
  set_value m n (failing e) = err (invalid_argument (text "invalid header value " ++ e))

  unfoldable pub set_named : HeaderMap → Text → Tried HeaderName → Result HeaderMap
  set_named m value (fine n) = set_value m n (parse_value value)
  set_named m value (failing e) = err (invalid_argument (text "invalid header name " ++ e))

  unfoldable pub set_item : HeaderMap → Text → Text → Result HeaderMap
  set_item m key value = set_named m value (parse_name key)

  unfoldable pub removed_or_missing :
      Text → Option HeaderValue × HeaderMap → Result (Unit {0}) × HeaderMap
  removed_or_missing key (some v, m) = (ok tt, m)
  removed_or_missing key (none, m) = (err (missing_key key), m)

  unfoldable pub delete_item : HeaderMap → Text → Result (Unit {0}) × HeaderMap
  delete_item m key = removed_or_missing key (remove_entry m key)

  unfoldable pub delete_item_safe : HeaderMap → Text → HeaderMap
  delete_item_safe m key = (remove_entry m key).1

  unfoldable pub header_length : HeaderMap → ℕ
  header_length m = keys_len m

  unfoldable pub header_keys : HeaderMap → List Text
  header_keys m = map name_str (map_keys m)

  unfoldable pub header_values : HeaderMap → List Text
  header_values m = map (λ e. shown e.1) (entries m)

  unfoldable pub header_items : HeaderMap → List (Text × Text)
  header_items m = map (λ e. (name_str e.0, shown e.1)) (entries m)
