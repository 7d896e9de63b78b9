-- ===== src/Sample.antt =====
-- Test data: a small platform and network, on which the theorems are applied.
use rqx.Base.{
  ℕ, ◌+◌, ◌-◌, ◌*◌, min, max, Text, text, text_eq, ◌==◌, display_nat, true, false, not, none, some,
  [], ◌∷◌, filter, ltb,
}
use rqx.Base.Dict.{Dict, lookup}
use rqx.Platform.{Platform, HttpRequest}
use rqx.Network.{Env, response}

-- a response of the sample network
pub record Canned : Type 0 where
  pub code : ℕ
  pub headers : Dict Text

abbrev pub strip : Dict Text → Text → Dict Text
strip h name = filter (λ kv. not (kv.0 == name)) h

-- `f32` and `f64` by natural numbers, headers by lists, URLs by their text
abbrev pub sample : Platform
sample = record {
  F32 = ℕ;
  F64 = ℕ;
  zero32 = 0;
  one32 = 1;
  two32 = 2;
  add32 = λ a b. a + b;
  sub32 = λ a b. a - b;
  mul32 = λ a b. a * b;
  max32 = max;
  min32 = min;
  gt32 = λ a b. ltb b a;
  powi32 = λ a n. a;
  parse32 = λ s. none;
  gt64 = λ a b. ltb b a;
  max64 = max;
  infinity64 = 1000000;
  nat64 = λ n. n;
  display64 = display_nat;
  as_secs64 = λ n. n;
  from_secs32 = some;
  HeaderMap = Dict Text;
  HeaderValue = Text;
  get_header = λ h name. lookup name h;
  remove_header = strip;
  to_str = some;
  from_utf8_lossy = λ v. v;
  Url = Text;
  join = λ base location. some location;
  join_error = λ base location. [];
  scheme = λ url. text "http";
  port_or_known_default = λ url. some 80;
  display_url = λ url. url;
  same_host = λ a b. a == b;
  same_origin = λ a b. a == b;
  canonical_reason = λ code. none;
  Body = Text;
  Response = Canned;
  status = λ resp. resp.code;
  response_headers = λ resp. resp.headers;
  response_url = λ resp. [];
  version = λ resp. text "HTTP/1.1";
  response_cookies = λ resp. [];
  NetError = Text;
  error_display = λ e. e;
  is_timeout = λ e. false;
  is_connect = λ e. true;
  is_redirect = λ e. false;
  is_body = λ e. false;
  is_decode = λ e. false;
  sources = λ e. [];
}

abbrev pub get_request : HttpRequest sample
get_request = record {
  method = text "GET";
  url = text "http://a/";
  headers = (text "cookie", text "k=v") ∷ [];
  body = none;
}

abbrev pub post_request : HttpRequest sample
post_request = record {
  method = text "POST";
  url = text "http://a/";
  headers = [];
  body = some (text "x");
}

-- a server that is unavailable
abbrev pub unavailable : Env sample
unavailable = record {
  clock = λ tr. 0;
  random = λ tr. 0;
  execute = λ tr request. response (record { code = 503; headers = [] });
  try_clone = some;
}
