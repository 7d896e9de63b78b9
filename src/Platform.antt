-- ===== src/Platform.antt =====
-- What the core takes from code outside the repository: Rust's floating-point numbers, the `url`,
-- `http` and `reqwest` crates and the network behind them. Durations are whole nanoseconds.
use rqx.Base.{ℕ, Text, Bool, List, Option}
use rqx.Base.Int.{ℤ}

-- the `hyper::Error` among the sources of an error
pub record HyperError : Type 0 where
  pub is_parse : Bool
  pub is_incomplete_message : Bool
  -- `raw_os_error` of an `std::io::Error` directly below it
  pub os_error : Option ℤ

-- one entry of the chain that `Error::source` gives
pub record Source : Type 0 where
  pub display : Text
  pub hyper : Option HyperError

pub record Platform : Type 1 where
  -- `f32` and `f64`
  pub F32 : Type 0
  pub F64 : Type 0
  pub zero32 : F32
  pub one32 : F32
  pub two32 : F32
  pub add32 : F32 → F32 → F32
  pub sub32 : F32 → F32 → F32
  pub mul32 : F32 → F32 → F32
  pub max32 : F32 → F32 → F32
  pub min32 : F32 → F32 → F32
  pub gt32 : F32 → F32 → Bool
  pub powi32 : F32 → ℤ → F32
  pub parse32 : Text → Option F32
  pub gt64 : F64 → F64 → Bool
  pub max64 : F64 → F64 → F64
  pub infinity64 : F64
  pub nat64 : ℕ → F64
  pub display64 : F64 → Text
  -- `Duration::as_secs_f64`; `Duration::from_secs_f32`, which panics on what is no duration
  pub as_secs64 : ℕ → F64
  pub from_secs32 : F32 → Option ℕ
  -- `http::HeaderMap`, by the names that the code writes
  pub HeaderMap : Type 0
  pub HeaderValue : Type 0
  pub get_header : HeaderMap → Text → Option HeaderValue
  pub remove_header : HeaderMap → Text → HeaderMap
  pub to_str : HeaderValue → Option Text
  pub from_utf8_lossy : HeaderValue → Text
  -- `url::Url`
  pub Url : Type 0
  pub join : Url → Text → Option Url
  pub join_error : Url → Text → Text
  pub scheme : Url → Text
  pub port_or_known_default : Url → Option ℕ
  pub display_url : Url → Text
  pub same_host : Url → Url → Bool
  pub same_origin : Url → Url → Bool
  -- `StatusCode::from_u16` and `canonical_reason`
  pub canonical_reason : ℕ → Option Text
  -- `reqwest`
  pub Body : Type 0
  pub Response : Type 0
  pub status : Response → ℕ
  pub response_headers : Response → HeaderMap
  pub response_url : Response → Url
  pub version : Response → Text
  pub response_cookies : Response → List (Text × Text)
  pub NetError : Type 0
  pub error_display : NetError → Text
  pub is_timeout : NetError → Bool
  pub is_connect : NetError → Bool
  pub is_redirect : NetError → Bool
  pub is_body : NetError → Bool
  pub is_decode : NetError → Bool
  pub sources : NetError → List Source

-- the parts of a `reqwest::Request` that the core reads and writes
pub record HttpRequest (P : Platform) : Type 0 where
  pub method : Text
  pub url : Platform.Url P
  pub headers : Platform.HeaderMap P
  pub body : Option (Platform.Body P)
