-- ===== src/PyTransport.antt =====
-- crates/rqx/src/transport.rs, timeout.rs and redirect.rs: the arguments of `HTTPTransport` and
-- `AsyncHTTPTransport`, of `Timeout` and of `RedirectPolicy`, and the policy of a client's options.
pub mod Policy
use rqx.Base.{
  ℕ, Text, text, text_eq, ◌==◌, ◌++◌, nat_beq, Bool, true, false, not, Option, none, some,
  if◌then◌else◌,
}
use rqx.Base.Dict.{Dict}
use rqx.Error.{RqxCoreError}
use rqx.Exceptions.{PyErr, PyResult, py_ok, py_err, new_err, to_err, core, of_core}
use rqx.Exceptions.Classes
use rqx.HttpConfig.{Timeout, from_args}
use rqx.Platform.{Platform}
use rqx.PyJson.{PyObject}
use rqx.QueryParams.Binding.{PyStrings, ◌⟫=◌}
use rqx.Redirect.{RedirectPolicy, with_defaults}
use rqx.Response.{unwrap_or}
use rqx.Retry.{Retry}
use rqx.Tls.{
  TlsLibrary, default_roots, CertArgument, parse_verify_config_from_py, parse_identity,
  from_hash_map,
}
use rqx.Transport.Configuration.{
  ClientLibrary, ConnectionPoolConfig, TransportConfig, Made, made, not_made, panicked, or,
  Transport, new_transport,
}

-- what a constructor comes to in Python
pub data PyMade {ℓ} (A : Type ℓ) : Type ℓ where
  py_made : A → PyMade A
  py_failed : PyErr → PyMade A
  py_panicked : PyMade A

abbrev pub of_made {ℓ} : {A : Type ℓ} → Made A → PyMade A
of_made (made a) = py_made a
of_made (not_made e) = py_failed (to_err (core e))
of_made panicked = py_panicked

-- `?` on a `PyResult`
abbrev pub after {ℓ} : {A : Type 0} {B : Type ℓ} → PyResult A → (A → PyMade B) → PyMade B
after (py_ok a) f = f a
after (py_err e) f = py_failed e

-- `map` and `transpose` of an argument that may be missing
abbrev pub each : {A B : Type 0} → (A → PyResult B) → Option A → PyResult (Option B)
each f none = py_ok none
each f (some a) = f a ⟫= λ b. py_ok (some b)

-- an option that is given differs from the policy's
abbrev pub limit_differs : Option ℕ → RedirectPolicy → Bool
limit_differs none r = false
limit_differs (some limit) r = not (nat_beq r.max_redirects limit)

abbrev pub follow_differs : Option Bool → RedirectPolicy → Bool
follow_differs none r = false
follow_differs (some follow) r = if r.follow then not follow else follow

-- `valid_policy_from_options`, over a policy that is given
unfoldable pub checked_policy : Option Bool → Option ℕ → RedirectPolicy → PyResult RedirectPolicy
checked_policy follow_redirects max_redirects r =
    if limit_differs max_redirects r
    then py_err (
        new_err Classes.rqx_error
          (text "Cannot specify conflicting max_redirects and RedirectPolicy.max_redirects"))
    else if follow_differs follow_redirects r
    then py_err (
        new_err Classes.rqx_error
          (text "Cannot specify conflicting follow_redirects and RedirectPolicy.follow"))
    else py_ok r

unfoldable pub valid_policy_from_options :
    Option Bool → Option ℕ → Option RedirectPolicy → PyResult RedirectPolicy
valid_policy_from_options follow_redirects max_redirects (some r) =
    checked_policy follow_redirects max_redirects r
valid_policy_from_options follow_redirects max_redirects none =
    py_ok (with_defaults follow_redirects max_redirects none)

-- `PyRedirectPolicy::__new__`
unfoldable pub new_policy : Option Bool → Option ℕ → Option Bool → RedirectPolicy
new_policy follow max_redirects raise_on_exceeded =
    with_defaults follow max_redirects raise_on_exceeded

module _ (P : Platform) where
  open P use {F64}

  -- `PyTimeout::__new__`
  unfoldable pub new_timeout :
      Option F64 → Option F64 → Option F64 → Option F64 → Option F64 → Timeout P
  new_timeout all connect read write pool = record {
    connect = or connect all;
    read = or read all;
    write = or write all;
    pool = or pool all;
  }

  pub data TimeoutArg : Type 0 where
    timeout : Timeout P → TimeoutArg
    seconds : F64 → TimeoutArg

  -- `From<TimeoutArg> for Timeout`
  unfoldable pub timeout_of : TimeoutArg → Timeout P
  timeout_of (timeout t) = t
  timeout_of (seconds n) = record { connect = some n; read = some n; write = some n; pool = some n }

  abbrev pub no_timeout : Timeout P
  no_timeout = record { connect = none; read = none; write = none; pool = none }

  module _ (T : TlsLibrary) where
    pub record TransportArgs : Type 0 where
      pub max_connections : Option ℕ
      pub max_keepalive_connections : Option ℕ
      pub keepalive_expiry : Option F64
      pub http1 : Option Bool
      pub http2 : Option Bool
      pub verify : Option (PyObject F64)
      pub cert : Option (CertArgument T)
      pub proxy : Option (Dict Text)
      pub timeout : Option (Timeout P)
      pub retries : Option (Retry P)

    abbrev pub no_args : TransportArgs
    no_args = record {
      max_connections = none;
      max_keepalive_connections = none;
      keepalive_expiry = none;
      http1 = none;
      http2 = none;
      verify = none;
      cert = none;
      proxy = none;
      timeout = none;
      retries = none;
    }

    module _ (S : PyStrings F64) where
      -- `TryFrom<TransportArgs> for TransportConfig`
      unfoldable pub try_from : TransportArgs → PyResult (TransportConfig P T)
      try_from args = each (parse_verify_config_from_py T S) args.verify ⟫= λ verify.
          (each (parse_identity T S) args.cert ⟫= λ cert.
          (of_core (from_args args.http1 args.http2) ⟫= λ version.
          (of_core (from_hash_map T args.proxy) ⟫= λ proxies. py_ok record {
            pool_config = record {
              max_connections = args.max_connections;
              max_keepalive = args.max_keepalive_connections;
              keepalive_expiry = args.keepalive_expiry;
            };
            http_version_config = version;
            verify_config = unwrap_or verify default_roots;
            timeout_config = unwrap_or args.timeout no_timeout;
            retry_config = args.retries;
            cert = cert;
            proxies = proxies;
          })))

      -- `HTTPTransport::__new__`, over its arguments with the timeout converted; the asynchronous one
      -- is the same
      unfoldable pub new_http_transport :
          (C : ClientLibrary P T) → TransportArgs → PyMade (Transport C)
      new_http_transport C args = after (try_from args) λ config. of_made (new_transport C config)

    -- the getter `retries`
    unfoldable pub transport_retries : {C : ClientLibrary P T} → Transport C → Option (Retry P)
    transport_retries t = t.config.retry_config
