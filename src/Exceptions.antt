-- ===== src/Exceptions.antt =====
-- crates/rqx/src/exceptions.rs: the Python exceptions, and which of them an error of the core is
-- raised as.
pub mod Classes
pub mod Network
pub mod Sending
use rqx.Base.{ℕ, Text}
use rqx.Error.{
  RqxCoreError, JsonDecodeError, connect_timeout, read_timeout, connect_error, read_error,
  remote_protocol_error, proxy_error, unsupported_protocol, decoding_error, too_many_redirects,
  request_error, http_status_error, max_retries_exceeded, invalid_url, json_decode_error,
  stream_closed, stream_error, tls_config_error, invalid_argument, unknown_keyword, missing_key,
  Result, ok, err,
}
use rqx.Exceptions.Classes
use rqx.Exceptions.Classes.{ExceptionClass}

-- what an exception is constructed with
pub data Arguments : Type 0 where
  message : Text → Arguments
  json_position : Text → Text → ℕ → Arguments

pub record PyErr : Type 0 where
  pub class : ExceptionClass
  pub arguments : Arguments

abbrev pub new_err : ExceptionClass → Text → PyErr
new_err class text = record { class = class; arguments = message text }

pub data PyRqxError : Type 0 where
  core : RqxCoreError → PyRqxError
  py : PyErr → PyRqxError

-- `PyRqxError::core`
unfoldable pub core_err : RqxCoreError → PyErr
core_err (connect_timeout text) = new_err Classes.connect_timeout text
core_err (read_timeout text) = new_err Classes.read_timeout text
core_err (connect_error text) = new_err Classes.connect_error text
core_err (read_error text) = new_err Classes.read_error text
core_err (remote_protocol_error text) = new_err Classes.remote_protocol_error text
core_err (proxy_error text) = new_err Classes.proxy_error text
core_err (unsupported_protocol text) = new_err Classes.unsupported_protocol text
core_err (decoding_error text) = new_err Classes.decoding_error text
core_err (too_many_redirects text) = new_err Classes.too_many_redirects text
core_err (request_error text) = new_err Classes.request_error text
core_err (http_status_error text) = new_err Classes.http_status_error text
core_err (max_retries_exceeded text) = new_err Classes.max_retries_exceeded text
core_err (invalid_url text) = new_err Classes.invalid_url text
core_err (json_decode_error e) = record {
  class = Classes.json_decode_error;
  arguments = json_position e.message e.doc e.position;
}
core_err (stream_closed text) = new_err Classes.stream_closed text
core_err (stream_error text) = new_err Classes.stream_error text
core_err (tls_config_error text) = new_err Classes.rqx_error text
core_err (invalid_argument text) = new_err Classes.value_error text
core_err (unknown_keyword text) = new_err Classes.type_error text
core_err (missing_key text) = new_err Classes.key_error text

-- `From<PyRqxError> for PyErr`
unfoldable pub to_err : PyRqxError → PyErr
to_err (py e) = e
to_err (core e) = core_err e

-- `PyResult`, and `Result<_, PyRqxError>` once pyo3 has converted its error
pub data PyResult (A : Type 0) : Type 0 where
  py_ok : A → PyResult A
  py_err : PyErr → PyResult A

-- `?` on a result of the core
abbrev pub of_core : {A : Type 0} → Result A → PyResult A
of_core (ok a) = py_ok a
of_core (err e) = py_err (to_err (core e))
