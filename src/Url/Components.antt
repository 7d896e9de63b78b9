-- ===== src/Url/Components.antt =====
-- crates/rqx-core/src/url/components.rs: the components that a URL is built from.
use rqx.Base.{
  ℕ, Text, text, text_eq, ◌==◌, display_nat, Option, none, some, List, [], ◌∷◌, ◌++◌, if◌then◌else◌,
}
use rqx.Error.{unknown_keyword, invalid_url, Result, ok, err, ◌>>=◌}
use rqx.QueryParams.{QueryPairs, FormUrlencoded, display}
use rqx.Url.Library.{UrlLibrary}

pub data UrlComponentValue : Type 0 where
  string : Text → UrlComponentValue
  bytes : Text → UrlComponentValue
  int : ℕ → UrlComponentValue
  query_pairs : QueryPairs → UrlComponentValue

pub record UrlComponents : Type 0 where
  pub scheme : Option Text
  pub username : Option Text
  pub password : Option Text
  pub host : Option Text
  pub port : Option (Option ℕ)
  pub path : Option Text
  pub query : Option Text
  pub fragment : Option Text

abbrev pub default_components : UrlComponents
default_components = record {
  scheme = none;
  username = none;
  password = none;
  host = none;
  port = none;
  path = none;
  query = none;
  fragment = none;
}

abbrev pub type_name : UrlComponentValue → Text
type_name (string s) = text "str"
type_name (bytes s) = text "bytes"
type_name (int n) = text "int"
type_name (query_pairs q) = text "QueryPairs"

module _ (L : UrlLibrary) (form : FormUrlencoded) where
  -- `Display for UrlComponentValue`
  unfoldable pub display_value : UrlComponentValue → Text
  display_value (string s) = s
  display_value (bytes s) = UrlLibrary.utf8_lossy L s
  display_value (int n) = display_nat n
  display_value (query_pairs q) = display form q

  unfoldable pub component_field_str : Option UrlComponentValue → Option Text
  component_field_str (some value) = some (display_value value)
  component_field_str none = some []

  unfoldable pub component_field_u16 : Option UrlComponentValue → Result (Option ℕ)
  component_field_u16 none = ok none
  component_field_u16 (some (int n)) = ok (some n)
  component_field_u16 (some value) =
      err (
        invalid_url (text "Component value must be u16 for u16 field, but got " ++ type_name value))

  -- one entry of the map
  unfoldable pub with_component :
      UrlComponents → Text → Option UrlComponentValue → Result UrlComponents
  with_component c key value =
      let field = component_field_str value in
      if key == text "scheme"
      then ok (record c { scheme = field })
      else if key == text "username"
      then ok (record c { username = field })
      else if key == text "password"
      then ok (record c { password = field })
      else if key == text "host"
      then ok (record c { host = field })
      else if key == text "port"
      then (component_field_u16 value >>= λ port. ok (record c { port = some port }))
      else if key == text "path"
      then ok (record c { path = field })
      else if key == text "query"
      then ok (record c { query = field })
      else if key == text "fragment"
      then ok (record c { fragment = field })
      else if key == text "params"
      then ok (record c { query = field })
      else err
          (unknown_keyword (text "'" ++ key ++ text "' is an invalid keyword argument for URL()"))

  -- the entries in the order of the map's iteration
  unfoldable pub with_components :
      UrlComponents → List (Text × Option UrlComponentValue) → Result UrlComponents
  with_components c [] = ok c
  with_components c ((key, value) ∷ rest) =
      with_component c key value >>= λ next. with_components next rest

  unfoldable pub from_hash_map : List (Text × Option UrlComponentValue) → Result UrlComponents
  from_hash_map entries = with_components default_components entries
