-- ===== src/Exceptions/Classes.antt =====
-- crates/rqx/src/exceptions.rs: the tree of exception classes. The standard library's classes are
-- leaves here: what Python bases them on is not the library's business.
use rqx.Base.{List, [], ◌∷◌, ◌≡◌}

pub data ExceptionClass : Type 0 where
  rqx_error http_error request_error http_status_error max_retries_exceeded : ExceptionClass
  transport_error decoding_error too_many_redirects : ExceptionClass
  timeout_exception network_error protocol_error proxy_error unsupported_protocol : ExceptionClass
  remote_protocol_error connect_timeout read_timeout write_timeout pool_timeout : ExceptionClass
  connect_error read_error write_error : ExceptionClass
  invalid_url json_decode_error : ExceptionClass
  stream_error stream_consumed stream_closed response_not_read : ExceptionClass
  exception value_error type_error key_error runtime_error : ExceptionClass
  stdlib_json_decode_error overflow_error recursion_error : ExceptionClass

-- `create_exception!`, and `StdlibBackedExceptions::register` for the classes with two bases
unfoldable pub bases : ExceptionClass → List ExceptionClass
bases rqx_error = exception ∷ []
bases http_error = rqx_error ∷ []
bases request_error = http_error ∷ []
bases http_status_error = http_error ∷ []
bases max_retries_exceeded = http_error ∷ []
bases transport_error = request_error ∷ []
bases decoding_error = request_error ∷ []
bases too_many_redirects = request_error ∷ []
bases timeout_exception = transport_error ∷ []
bases network_error = transport_error ∷ []
bases protocol_error = transport_error ∷ []
bases proxy_error = transport_error ∷ []
bases unsupported_protocol = transport_error ∷ []
bases remote_protocol_error = protocol_error ∷ []
bases connect_timeout = timeout_exception ∷ []
bases read_timeout = timeout_exception ∷ []
bases write_timeout = timeout_exception ∷ []
bases pool_timeout = timeout_exception ∷ []
bases connect_error = network_error ∷ []
bases read_error = network_error ∷ []
bases write_error = network_error ∷ []
bases invalid_url = rqx_error ∷ value_error ∷ []
bases json_decode_error = rqx_error ∷ stdlib_json_decode_error ∷ []
bases stream_error = rqx_error ∷ runtime_error ∷ []
bases stream_consumed = stream_error ∷ []
bases stream_closed = stream_error ∷ []
bases response_not_read = stream_error ∷ []
bases exception = []
bases value_error = []
bases type_error = []
bases key_error = []
bases runtime_error = []
bases stdlib_json_decode_error = []
bases overflow_error = []
bases recursion_error = []

-- what an `except` clause for the second class catches
pub data IsSubclass : ExceptionClass → ExceptionClass → Type 0 where
  itself : {c : ExceptionClass} → IsSubclass c c
  first_base :
      {c b d : ExceptionClass} {others : List ExceptionClass}
      → bases c ≡ b ∷ others
      → IsSubclass b d
      → IsSubclass c d
  second_base :
      {c a b d : ExceptionClass} {others : List ExceptionClass}
      → bases c ≡ a ∷ b ∷ others
      → IsSubclass b d
      → IsSubclass c d
