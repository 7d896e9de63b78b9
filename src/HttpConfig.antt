-- ===== src/HttpConfig.antt =====
-- The small parts of crates/rqx-core/src that make up a request and a client's configuration:
-- http/protocol.rs, auth.rs, timeout.rs, request_components/body.rs, request.rs, and the choice of a
-- stream's request (streaming/context.rs).
use rqx.Base.{Text, text, Bool, true, false, Option, none, some, List, [], ◌∷◌}
use rqx.Error.{request_error, invalid_argument, stream_error, Result, ok, err}
use rqx.Platform.{Platform}
use rqx.Response.{unwrap_or}

pub data HttpVersionConfig : Type 0 where
  negotiate http1_only http2_only : HttpVersionConfig

-- `HttpVersionConfig::from_args`
unfoldable pub from_args : Option Bool → Option Bool → Result HttpVersionConfig
from_args http1 http2 = choose (unwrap_or http1 true) (unwrap_or http2 true)
  where
    choose : Bool → Bool → Result HttpVersionConfig
    choose true true = ok negotiate
    choose true false = ok http1_only
    choose false true = ok http2_only
    choose false false = err (request_error (text "at least one of http1, http2 must be true"))

pub data Auth : Type 0 where
  no_auth : Auth
  basic : Text → Text → Auth
  bearer : Text → Auth

-- `Auth::new`
unfoldable pub new_auth : Option (Text × Text) → Option Text → Result Auth
new_auth none none = ok no_auth
new_auth (some (username, password)) none = ok (basic username password)
new_auth none (some token) = ok (bearer token)
new_auth (some pair) (some token) =
    err (invalid_argument (text "Cannot specify both basic auth and a bearer token."))

-- `Unsent::take`: the request that is left in the slot, and the slot after it
unfoldable pub take_unsent {ℓ} : {A : Type ℓ} → Option A → Result A × Option A
take_unsent none = (
  err (stream_error (text "stream already started; call stream() again for a new request")),
  none,
)
take_unsent (some unsent) = (ok unsent, none)

module _ (P : Platform) where
  open P use {F64, max64}

  pub record Timeout : Type 0 where
    pub connect : Option F64
    pub read : Option F64
    pub write : Option F64
    pub pool : Option F64

  -- `f64::max` over the values that are set
  abbrev largest : List (Option F64) → Option F64
  largest [] = none
  largest (none ∷ rest) = largest rest
  largest (some x ∷ rest) = some (reduce x rest)
    where
      reduce : F64 → List (Option F64) → F64
      reduce x [] = x
      reduce x (none ∷ rest) = reduce x rest
      reduce x (some y ∷ rest) = reduce (max64 x y) rest

  -- `Timeout::per_request_total`
  unfoldable pub per_request_total : Timeout → Option F64
  per_request_total t = elim (t.read) [
    | some read ↦ some read
    | none ↦ largest (t.connect ∷ t.write ∷ t.pool ∷ [])
  ]

  -- `Client::timeout_secs`; `default_timeout` is the literal 15.0
  unfoldable pub timeout_secs : F64 → Timeout → F64
  timeout_secs default_timeout t = unwrap_or (per_request_total t) default_timeout
