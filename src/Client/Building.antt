-- ===== src/Client/Building.antt =====
-- crates/rqx-core/src/request.rs, request_components/body.rs, and `Client::build`, `request` and
-- `stream` of crates/rqx-core/src/client.rs.
pub mod Errors
use rqx.Base.{
  ℕ, Text, text, text_eq, ◌==◌, ◌++◌, ◌-◌, Bool, true, false, ◌&&◌, ◌||◌, not, Option, none, some,
  List, map, is_empty, leb, if◌then◌else◌,
}
use rqx.Base.Dict.{Dict}
use rqx.Error.{RqxCoreError, invalid_argument, unsupported_protocol, Result, ok, err}
use rqx.Error.Convert.{from_net}
use rqx.HttpConfig.{Auth, no_auth, basic, bearer, Timeout, timeout_secs}
use rqx.Platform.{Platform, HttpRequest}
use rqx.Network.{Env, M, pure, fail, raise, panicked, ◌>>=◌, ok_or}
use rqx.QueryParams.{QueryPairs, FormUrlencoded, display}
use rqx.Response.{ResponseParts, PendingResponse, unwrap_or}
use rqx.Client.{Client, send_request}
use rqx.Streaming.Chunking.{ByteString}
use rqx.Url.BaseUrl.{merge_url}
use rqx.Url.Library.{UrlLibrary, Tried, fine, failing}
use rqx.Url.Reference.{UrlReference}

-- `Json` is `serde_json::Value`.
pub data RequestBody (Json : Type 0) : Type 0 where
  empty : RequestBody Json
  content : ByteString → RequestBody Json
  form : Dict Text → RequestBody Json
  json : Json → RequestBody Json

abbrev two_bodies : {A : Type 0} → Result A
two_bodies = err (invalid_argument (text "Only one of content, data, or json may be set"))

-- `RequestBody::new`
unfoldable pub new_body :
    {Json : Type 0}
    → Option ByteString
    → Option (Dict Text)
    → Option Json
    → Result (RequestBody Json)
new_body none none none = ok empty
new_body (some bytes) none none = ok (content bytes)
new_body none (some pairs) none = ok (form pairs)
new_body none none (some value) = ok (json value)
new_body (some bytes) (some pairs) j = two_bodies
new_body (some bytes) none (some value) = two_bodies
new_body none (some pairs) (some value) = two_bodies

-- what a builder of `reqwest` gives in the end, and what reading a body gives
pub data Outcome (A N : Type 0) : Type 0 where
  done : A → Outcome A N
  broken : N → Outcome A N

-- what building a request takes of `reqwest`, `http` and `std::time`
pub record Reqwest (P : Platform) (L : UrlLibrary) (Json : Type 0) : Type 1 where
  pub Builder : Type 0
  pub start : Text → UrlLibrary.Url L → Builder
  pub headers : Builder → Platform.HeaderMap P → Builder
  pub basic_auth : Builder → Text → Text → Builder
  pub bearer_auth : Builder → Text → Builder
  pub body : Builder → ByteString → Builder
  pub form_body : Builder → Dict Text → Builder
  pub json_body : Builder → Json → Builder
  pub timeout : Builder → ℕ → Builder
  pub finish : Builder → Outcome (HttpRequest P) (Platform.NetError P)
  -- `Url::set_query`
  pub set_query : UrlLibrary.Url L → Option Text → UrlLibrary.Url L
  -- `Duration::from_secs_f64`, which panics on what is no duration
  pub from_secs64 : Platform.F64 P → Option ℕ
  pub method_from_bytes : Text → Tried Text
  -- `Response::bytes`
  pub all_bytes : Platform.Response P → Outcome ByteString (Platform.NetError P)

-- `to_ascii_uppercase`
abbrev pub to_ascii_uppercase : Text → Text
to_ascii_uppercase s = map (λ c. if leb 0x61 c && leb c 0x7a then c - 0x20 else c) s

module _ (P : Platform) (L : UrlLibrary) (Json : Type 0) where
  pub record Request : Type 0 where
    pub method : Text
    pub url : UrlReference L
    pub params : Option QueryPairs
    pub headers : Option (Platform.HeaderMap P)
    pub body : RequestBody Json
    pub auth : Option Auth
    pub timeout : Option (Platform.F64 P)
    pub follow_redirects : Option Bool

  -- a `Client`, with its `ClientConfig`; the policy of redirects is the sender's
  pub record Config : Type 0 where
    pub timeout : Timeout P
    pub base_url : Option (UrlLibrary.Url L)
    pub auth : Auth
    pub client : Client P

  -- `BufferedResponse`
  pub record Buffered : Type 0 where
    pub parts : ResponseParts P
    pub body : ByteString

  -- `Unsent`
  pub record Unsent : Type 0 where
    pub client : Client P
    pub request : HttpRequest P
    pub follow_redirects : Bool

  module _ (W : Reqwest P L Json) where
    -- `Request::new`, over the parsed method
    unfoldable pub new_request : Request → Result Request
    new_request given = elim (Reqwest.method_from_bytes W (to_ascii_uppercase given.method)) [
      | fine method ↦ ok (record given { method = method })
      | failing e ↦ err (
          invalid_argument
            (text "invalid method " ++ UrlLibrary.debug L given.method ++ text ": " ++ e))
    ]

    -- Query parameters that are given replace the URL's own.
    unfoldable pub with_query :
        FormUrlencoded → UrlLibrary.Url L → Option QueryPairs → UrlLibrary.Url L
    with_query codec url none = url
    with_query codec url (some params) =
        let query = display codec params in
        Reqwest.set_query W url (if is_empty query then none else some query)

    unfoldable pub with_headers :
        Reqwest.Builder W → Option (Platform.HeaderMap P) → Reqwest.Builder W
    with_headers builder none = builder
    with_headers builder (some headers) = Reqwest.headers W builder headers

    unfoldable pub with_auth : Reqwest.Builder W → Auth → Reqwest.Builder W
    with_auth builder no_auth = builder
    with_auth builder (basic username password) = Reqwest.basic_auth W builder username password
    with_auth builder (bearer token) = Reqwest.bearer_auth W builder token

    unfoldable pub with_body : Reqwest.Builder W → RequestBody Json → Reqwest.Builder W
    with_body builder empty = builder
    with_body builder (content bytes) = Reqwest.body W builder bytes
    with_body builder (form pairs) = Reqwest.form_body W builder pairs
    with_body builder (json value) = Reqwest.json_body W builder value

    abbrev pub of_core : {A : Type 0} → Result A → M P A
    of_core (ok a) = pure a
    of_core (err e) = raise e

    abbrev pub of_outcome : {A : Type 0} → Outcome A (Platform.NetError P) → M P A
    of_outcome (done a) = pure a
    of_outcome (broken e) = raise (from_net P e)

    abbrev pub duration : Option ℕ → M P ℕ
    duration none = fail panicked
    duration (some time) = pure time

    module _ (codec : FormUrlencoded) (default_timeout : Platform.F64 P) where
      -- from the merged URL on
      unfoldable pub build_at : Config → Request → UrlLibrary.Url L → M P (HttpRequest P)
      build_at config request url =
          if UrlLibrary.scheme_of L url == text "http" || UrlLibrary.scheme_of L url == text "https"
          then (let started =
                Reqwest.start W request.method (with_query codec url request.params) in
              let builder =
                with_body
                  (with_auth (with_headers started request.headers)
                    (unwrap_or request.auth config.auth))
                  request.body in
              duration (
                Reqwest.from_secs64 W
                  (unwrap_or request.timeout (timeout_secs P default_timeout config.timeout)))
              >>= λ time. of_outcome (Reqwest.finish W (Reqwest.timeout W builder time)))
          else raise (
              unsupported_protocol (
                text "Request URL has an unsupported protocol '"
                ++ UrlLibrary.scheme_of L url
                ++ text "://'."))

      -- `Client::build`
      unfoldable pub build : Config → Request → M P (HttpRequest P)
      build config request =
          of_core (merge_url L config.base_url request.url) >>= λ url. build_at config request url

      abbrev pub follows : Config → Request → Bool
      follows config request = unwrap_or request.follow_redirects config.client.redirects.follow

      -- `PendingResponse::read`
      unfoldable pub read_body : PendingResponse P → M P Buffered
      read_body pending = of_outcome (Reqwest.all_bytes W pending.response) >>= λ bytes.
          pure (record { parts = pending.parts; body = bytes })

      -- `Client::request`
      unfoldable pub request_buffered : Env P → Config → Request → M P Buffered
      request_buffered E config request = build config request >>= λ executable.
          send_request E config.client executable (follows config request) >>= λ pending.
          read_body pending

      -- `Client::stream`
      unfoldable pub stream_request : Config → Request → M P Unsent
      stream_request config request = build config request >>= λ executable. pure (record {
        client = config.client;
        request = executable;
        follow_redirects = follows config request;
      })
