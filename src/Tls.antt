-- ===== src/Tls.antt =====
-- crates/rqx-core/src/http/tls.rs and proxy.rs, and crates/rqx/src/http/tls.rs: what `verify=`,
-- `cert=` and `proxy=` are turned into. The files and the parsers of `reqwest` are parameters.
use rqx.Base.{
  ℕ, Text, text, text_eq, ◌==◌, ◌++◌, Bool, true, false, Option, none, some, List, [], ◌∷◌,
  if◌then◌else◌,
}
use rqx.Base.Dict.{Dict}
use rqx.Error.{Result, ok, err, tls_config_error, proxy_error, ◌>>=◌}
use rqx.Exceptions.{PyResult, py_ok, py_err, new_err, of_core}
use rqx.Exceptions.Classes
use rqx.PyJson.{PyObject, py_bool, py_string}
use rqx.QueryParams.Binding.{PyStrings, ◌⟫=◌, type_name}
use rqx.Url.Library.{Tried, fine, failing}

pub record TlsLibrary : Type 1 where
  pub Certificate : Type 0
  pub Identity : Type 0
  pub Proxy : Type 0
  -- `std::fs::read`
  pub read_file : Text → Tried (List ℕ)
  -- `Certificate::from_pem` and `Identity::from_pem`
  pub certificate_from_pem : List ℕ → Tried Certificate
  pub identity_from_pem : List ℕ → Tried Identity
  -- `Proxy::http` and `Proxy::https`
  pub http_proxy : Text → Tried Proxy
  pub https_proxy : Text → Tried Proxy

abbrev tls_error : {A : Type 0} → Text → Text → Result A
tls_error what e = err (tls_config_error (what ++ text ": " ++ e))

-- `map_err` to a TLSConfigError
abbrev or_tls_error : {A : Type 0} → Text → Tried A → Result A
or_tls_error what (fine a) = ok a
or_tls_error what (failing e) = tls_error what e

abbrev or_proxy_error : {A : Type 0} → Tried A → Result A
or_proxy_error (fine a) = ok a
or_proxy_error (failing e) = err (proxy_error (text "invalid proxy: " ++ e))

module _ (T : TlsLibrary) where
  open T use {
    Certificate, Identity, Proxy, read_file, certificate_from_pem, identity_from_pem, http_proxy,
    https_proxy,
  }

  pub data VerifyConfig : Type 0 where
    default_roots disable_verification : VerifyConfig
    custom_ca : Certificate → VerifyConfig

  unfoldable pub verify_from_bool : Bool → VerifyConfig
  verify_from_bool true = default_roots
  verify_from_bool false = disable_verification

  -- `VerifyConfig::from_path_str`
  unfoldable pub verify_from_path : Text → Result VerifyConfig
  verify_from_path path = or_tls_error (text "failed to read CA cert") (read_file path) >>= λ bytes.
      (or_tls_error (text "failed to construct CA cert") (certificate_from_pem bytes) >>= λ ca.
      ok (custom_ca ca))

  unfoldable pub identity_from_bytes : List ℕ → Result Identity
  identity_from_bytes bytes =
      or_tls_error (text "failed to construct client cert") (identity_from_pem bytes)

  -- `IdentityParser::from_path_str`
  unfoldable pub identity_from_path : Text → Result Identity
  identity_from_path path =
      or_tls_error (text "failed to read client cert") (read_file path) >>= identity_from_bytes

  -- `IdentityParser::from_tuple`
  unfoldable pub identity_from_pair : Text → Text → Result Identity
  identity_from_pair cert_path key_path =
      or_tls_error (text "failed to read " ++ cert_path) (read_file cert_path) >>= λ bytes.
      (or_tls_error (text "failed to read " ++ key_path) (read_file key_path) >>= λ key_bytes.
      identity_from_bytes (bytes ++ key_bytes))

  unfoldable pub proxy_for : Text → Text → Option (Result Proxy)
  proxy_for scheme url =
      if scheme == text "http"
      then some (or_proxy_error (http_proxy url))
      else if scheme == text "https"
      then some (or_proxy_error (https_proxy url))
      else none

  unfoldable pub add_proxy : Option (Result Proxy) → Result (List Proxy) → Result (List Proxy)
  add_proxy none rest = rest
  add_proxy (some proxy) rest = proxy >>= λ p. (rest >>= λ ps. ok (p ∷ ps))

  -- the loop of `ProxyParser::from_hash_map`, in the order of the map's iterator
  unfoldable pub proxies_of : Dict Text → Result (List Proxy)
  proxies_of [] = ok []
  proxies_of ((scheme, url) ∷ rest) = add_proxy (proxy_for scheme url) (proxies_of rest)

  unfoldable pub from_hash_map : Option (Dict Text) → Result (List Proxy)
  from_hash_map none = ok []
  from_hash_map (some map) = proxies_of map

  -- the `cert=` argument; a tuple with what extracting two strings from it gives
  pub data CertArgument : Type 0 where
    cert_path : Text → CertArgument
    cert_pem : List ℕ → CertArgument
    cert_tuple : PyResult (Text × Text) → CertArgument
    cert_unfit : Text → CertArgument

  module _ {F64 : Type 0} (S : PyStrings F64) where
    unfoldable pub parse_verify_config_from_py : PyObject F64 → PyResult VerifyConfig
    parse_verify_config_from_py (py_bool enabled) = py_ok (verify_from_bool enabled)
    parse_verify_config_from_py (py_string s) =
        PyStrings.to_cow S s ⟫= λ path. of_core (verify_from_path path)
    parse_verify_config_from_py o = py_err (
        new_err Classes.rqx_error
          (text "verify must be bool or str (CA cert path), got " ++ type_name o))

    unfoldable pub parse_identity : CertArgument → PyResult Identity
    parse_identity (cert_path s) = PyStrings.to_cow S s ⟫= λ path. of_core (identity_from_path path)
    parse_identity (cert_pem bytes) = of_core (identity_from_bytes bytes)
    parse_identity (cert_tuple pair) = pair ⟫= λ (cert, key). of_core (identity_from_pair cert key)
    parse_identity (cert_unfit name) = py_err (
        new_err Classes.rqx_error (
          text "cert must be str (path), bytes (PEM), or (cert_path, key_path) tuple, got "
          ++ name))
