-- ===== src/Url/Library.antt =====
-- What crates/rqx-core/src/url takes of the `url`, `iri-string`, `percent-encoding` and `idna` crates.
use rqx.Base.{ℕ, Text, Bool, Option}

-- `Url::parse`; the error of a relative URL is told apart, any other has its text
pub data Parsed (U : Type 0) : Type 0 where
  parsed : U → Parsed U
  relative_without_base : Parsed U
  rejected : Text → Parsed U

-- a value, or the error's text
pub data Tried (A : Type 0) : Type 0 where
  fine : A → Tried A
  failing : Text → Tried A

pub record UrlLibrary : Type 1 where
  -- `url::Url`
  pub Url : Type 0
  pub parse_url : Text → Parsed Url
  pub join_url : Url → Text → Tried Url
  pub as_str : Url → Text
  pub scheme_of : Url → Text
  pub has_authority : Url → Bool
  pub username_of : Url → Text
  pub password_of : Url → Option Text
  pub host_of : Url → Option Text
  pub port_of : Url → Option ℕ
  pub path_of : Url → Text
  pub query_of : Url → Option Text
  pub fragment_of : Url → Option Text
  pub set_path : Url → Text → Url
  pub relative_without_base_text : Text
  -- `UriRelativeString` and its `AuthorityComponents`
  pub Relative : Type 0
  pub parse_uri : Text → Tried Relative
  pub relative_str : Relative → Text
  pub authority_str : Relative → Option Text
  pub userinfo_of : Relative → Option Text
  pub relative_host : Relative → Option Text
  pub relative_port : Relative → Option Text
  pub relative_path : Relative → Text
  pub relative_query : Relative → Option Text
  pub relative_fragment : Relative → Option Text
  -- `PercentEncoded::from_path`, `from_query` and `from_fragment`, and the decoding
  pub encode_path_text : Text → Text
  pub encode_query_text : Text → Text
  pub encode_fragment_text : Text → Text
  pub percent_decode : Text → Text
  pub domain_to_unicode : Text → Option Text
  -- `mask_password` with `[secure]`, of what is a URI reference
  pub mask_password : Text → Option Text
  -- `str::parse` of a `u16`, and `{:?}` of a text
  pub parse_u16 : Text → Option ℕ
  pub debug : Text → Text
  -- `String::from_utf8_lossy`
  pub utf8_lossy : Text → Text
