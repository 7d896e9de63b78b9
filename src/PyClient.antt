-- ===== src/PyClient.antt =====
-- crates/rqx/src/client.rs: `Client` and `AsyncClient`, over the arguments that pyo3 has converted.
-- The calls that send are in Sync and Async; what both share is here.
pub mod Sync
pub mod Async
pub mod Agreement
pub mod Refusals
pub mod Fresh
pub mod Options
use rqx.Base.{ℕ, Text, text, Bool, true, false, ◌&&◌, ◌||◌, Option, none, some, if◌then◌else◌}
use rqx.Base.Dict.{Dict}
use rqx.Error.{Result, ok, err}
use rqx.Exceptions.{PyErr, PyResult, py_ok, py_err, new_err, to_err, core, of_core}
use rqx.Exceptions.Classes
use rqx.HttpConfig.{Auth, Timeout, new_auth, per_request_total}
use rqx.Network.{Answer, returned, failed, raised, panicked, starved, Trace, M}
use rqx.Platform.{Platform}
use rqx.PyJson.{PyObject}
use rqx.PyTransport.{
  PyMade, py_made, py_failed, py_panicked, after, each, TimeoutArg, timeout_of, no_timeout,
  TransportArgs, no_args, new_http_transport, valid_policy_from_options,
}
use rqx.QueryParams.{QueryPairs}
use rqx.QueryParams.Binding.{PyStrings}
use rqx.Redirect.{RedirectPolicy}
use rqx.Response.{is_some, unwrap_or}
use rqx.Client.{Client, jar}
use rqx.Client.Building.{Config}
use rqx.Streaming.Chunking.{ByteString}
use rqx.Tls.{TlsLibrary, CertArgument}
use rqx.Transport.Configuration.{ClientLibrary, Transport, option_map}
use rqx.Url.BaseUrl.{new_base}
use rqx.Url.Library.{UrlLibrary}
use rqx.Url.Reference.{UrlReference}

-- what a call from Python comes to; `starves` is no end: a loop without fuel,
-- or a permit that never comes
pub data Outcome (A : Type 0) : Type 0 where
  gives : A → Outcome A
  raises : PyErr → Outcome A
  panics : Outcome A
  starves : Outcome A

-- a call, or an awaitable, that acts on the world
abbrev pub Act : Platform → Type 0 → Type 0
Act P A = Trace P → Outcome A × Trace P

abbrev pub of_answer : {A : Type 0} → Answer A → Outcome A
of_answer (returned a) = gives a
of_answer (failed (raised e)) = raises (to_err (core e))
of_answer (failed panicked) = panics
of_answer (failed starved) = starves

module _ {P : Platform} where
  -- a future of the core, with its error converted
  abbrev pub run : {A : Type 0} → M P A → Act P A
  run m events = let (a, after) = m events in (of_answer a, after)

  -- `?` on a `PyResult`
  abbrev pub trying : {A B : Type 0} → PyResult A → (A → Act P B) → Act P B
  trying (py_ok a) f events = f a events
  trying (py_err e) f events = (raises e, events)

  -- `block_on_inner`; `handle` is what `RUNTIME.handle` gives
  unfoldable pub block_on_inner : {A : Type 0} → PyResult (Unit {0}) → M P A → Act P A
  block_on_inner (py_ok u) fut events = run fut events
  block_on_inner (py_err e) fut events = (raises e, events)

  -- `RUNTIME.future_into_py`: the awaitable, if the runtime is there
  unfoldable pub future_into_py : {A : Type 0} → PyResult (Unit {0}) → Act P A → PyResult (Act P A)
  future_into_py (py_ok u) fut = py_ok fut
  future_into_py (py_err e) fut = py_err e

  -- `await` on what a call returned
  abbrev pub await : {A : Type 0} → PyResult (Act P A) → Act P A
  await (py_ok fut) events = fut events
  await (py_err e) events = (raises e, events)

-- the timeout of a call in seconds
abbrev pub total_of : (P : Platform) → Option (TimeoutArg P) → Option (Platform.F64 P)
total_of P none = none
total_of P (some arg) = per_request_total P (timeout_of P arg)

-- the credentials of a call, if any are given
abbrev pub auth_of : Option (Text × Text) → Option Text → Result (Option Auth)
auth_of none none = ok none
auth_of (some pair) none = elim (new_auth (some pair) none) [ ok a ↦ ok (some a) | err e ↦ err e ]
auth_of basic (some token) = elim (new_auth basic (some token)) [
  | ok a ↦ ok (some a)
  | err e ↦ err e
]

abbrev pub made_then {ℓ} : {A B : Type ℓ} → PyMade A → (A → PyMade B) → PyMade B
made_then (py_made a) f = f a
made_then (py_failed e) f = py_failed e
made_then py_panicked f = py_panicked

abbrev pub given_or {ℓ} : {A : Type ℓ} → Option A → PyMade A → PyMade A
given_or (some a) new = py_made a
given_or none new = new

abbrev pub transport_conflict : PyErr
transport_conflict = new_err Classes.rqx_error (
    text
      "Cannot specify both transport= and cert=/verify=/timeout=; pass options through one or the other")

module _ (P : Platform) (L : UrlLibrary) (Json : Type 0) where
  -- the arguments of `get`, `options`, `head` and `delete`
  pub record BodylessArgs : Type 0 where
    pub url : UrlReference L
    pub params : Option QueryPairs
    pub headers : Option (Platform.HeaderMap P)
    pub auth : Option (Text × Text)
    pub auth_bearer : Option Text
    pub follow_redirects : Option Bool
    pub timeout : Option (TimeoutArg P)

  -- the arguments of `post`, `put` and `patch`
  pub record BodyArgs : Type 0 where
    pub content : Option ByteString
    pub data_pairs : Option (Dict Text)
    pub json : Option Json
    pub common : BodylessArgs

  -- the arguments of `request` and `stream`
  pub record CallArgs : Type 0 where
    pub method : Text
    pub content : Option ByteString
    pub data_pairs : Option (Dict Text)
    pub json : Option Json
    pub common : BodylessArgs

  abbrev pub bodyless : Text → BodylessArgs → CallArgs
  bodyless method common = record {
    method = method;
    content = none;
    data_pairs = none;
    json = none;
    common = common;
  }

  abbrev pub with_body : Text → BodyArgs → CallArgs
  with_body method given = record {
    method = method;
    content = given.content;
    data_pairs = given.data_pairs;
    json = given.json;
    common = given.common;
  }

  module _ {T : TlsLibrary} (C : ClientLibrary P T) where
    pub record ClientArgs : Type 0 where
      pub verify : Option (PyObject (Platform.F64 P))
      pub cert : Option (CertArgument T)
      pub timeout : Option (TimeoutArg P)
      pub follow_redirects : Option Bool
      pub max_redirects : Option ℕ
      pub base_url : Option (UrlReference L)
      pub auth_bearer : Option Text
      pub transport : Option (Transport C)
      pub redirects : Option RedirectPolicy

    -- `PyClient`, `PyAsyncClient` and their `Client`
    pub record PyClient : Type 0 where
      pub transport : Transport C
      pub config : Config P L Json

    -- `ClientConfig::new` and `Client::new`
    unfoldable pub new_client :
        Transport C → Timeout P → RedirectPolicy → Option (UrlLibrary.Url L) → Auth → PyClient
    new_client t timeout redirects base_url auth = record {
      transport = t;
      config = record {
        timeout = timeout;
        base_url = base_url;
        auth = auth;
        client = record {
          semaphore = t.semaphore;
          retries = t.config.retry_config;
          redirects = redirects;
        };
      };
    }

    -- `transport=` beside what would configure another one
    abbrev pub is_conflicting : ClientArgs → Bool
    is_conflicting args =
        is_some args.transport && (is_some args.verify || is_some args.cert || is_some args.timeout)

    module _ (S : PyStrings (Platform.F64 P)) where
      -- a transport made for the client
      unfoldable pub fresh_transport : ClientArgs → PyMade (Transport C)
      fresh_transport args = new_http_transport P T S C record (no_args P T) {
        verify = args.verify;
        cert = args.cert;
        timeout = option_map (timeout_of P) args.timeout;
      }

      -- the transport that is given, or a new one
      unfoldable pub transport_for : ClientArgs → PyMade (Transport C)
      transport_for args = given_or args.transport (fresh_transport args)

      -- the constructor, after the conversions that can fail
      unfoldable pub finish_client :
          ClientArgs → Option (UrlLibrary.Url L) → RedirectPolicy → Auth → PyMade PyClient
      finish_client args base_url policy auth =
          if is_conflicting args
          then py_failed transport_conflict
          else made_then (transport_for args) λ t. py_made (
              new_client t (unwrap_or (option_map (timeout_of P) args.timeout) (no_timeout P))
                policy base_url auth)

      -- `PyClient::__new__`
      unfoldable pub construct : ClientArgs → PyMade PyClient
      construct args = after (each (λ url. of_core (new_base L url)) args.base_url) λ base_url.
          after (valid_policy_from_options args.follow_redirects args.max_redirects args.redirects)
            λ policy.
              after (of_core (new_auth none args.auth_bearer))
                λ auth. finish_client args base_url policy auth

    -- the getters `base_url`, `cookies` and `redirects`
    unfoldable pub client_base_url : PyClient → Option (UrlLibrary.Url L)
    client_base_url c = c.config.base_url

    unfoldable pub client_cookies : PyClient → Dict Text → Trace P → Dict Text
    client_cookies c before events = jar before events

    unfoldable pub client_redirects : PyClient → RedirectPolicy
    client_redirects c = c.config.client.redirects
