-- ===== src/Error.antt =====
-- crates/rqx-core/src/error.rs: every error of the core, and the result of a fallible call.
pub mod Convert
use rqx.Base.{ℕ, Text}

pub record JsonDecodeError : Type 0 where
  pub message : Text
  pub doc : Text
  pub position : ℕ

pub data RqxCoreError : Type 0 where
  connect_timeout : Text → RqxCoreError
  read_timeout : Text → RqxCoreError
  connect_error : Text → RqxCoreError
  read_error : Text → RqxCoreError
  remote_protocol_error : Text → RqxCoreError
  proxy_error : Text → RqxCoreError
  unsupported_protocol : Text → RqxCoreError
  decoding_error : Text → RqxCoreError
  too_many_redirects : Text → RqxCoreError
  request_error : Text → RqxCoreError
  http_status_error : Text → RqxCoreError
  max_retries_exceeded : Text → RqxCoreError
  invalid_url : Text → RqxCoreError
  json_decode_error : JsonDecodeError → RqxCoreError
  stream_closed : Text → RqxCoreError
  stream_error : Text → RqxCoreError
  tls_config_error : Text → RqxCoreError
  invalid_argument : Text → RqxCoreError
  unknown_keyword : Text → RqxCoreError
  missing_key : Text → RqxCoreError

-- `Display`
unfoldable pub display : RqxCoreError → Text
display (connect_timeout message) = message
display (read_timeout message) = message
display (connect_error message) = message
display (read_error message) = message
display (remote_protocol_error message) = message
display (proxy_error message) = message
display (unsupported_protocol message) = message
display (decoding_error message) = message
display (too_many_redirects message) = message
display (request_error message) = message
display (http_status_error message) = message
display (max_retries_exceeded message) = message
display (invalid_url message) = message
display (json_decode_error e) = e.message
display (stream_closed message) = message
display (stream_error message) = message
display (tls_config_error message) = message
display (invalid_argument message) = message
display (unknown_keyword message) = message
display (missing_key message) = message

-- `Result<A, RqxCoreError>`
pub data Result {ℓ} (A : Type ℓ) : Type ℓ where
  ok : A → Result A
  err : RqxCoreError → Result A

infixl 5 ◌>>=◌
abbrev pub ◌>>=◌ {ℓ κ} : {A : Type ℓ} {B : Type κ} → Result A → (A → Result B) → Result B
ok a >>= f = f a
err e >>= f = err e
