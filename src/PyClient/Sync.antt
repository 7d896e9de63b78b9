-- ===== src/PyClient/Sync.antt =====
-- The calls of `Client` that send, in crates/rqx/src/client.rs.
use rqx.Base.{text, Option}
use rqx.Exceptions.{PyResult, of_core}
use rqx.HttpConfig.{Auth}
use rqx.Network.{Env}
use rqx.Platform.{Platform}
use rqx.QueryParams.{FormUrlencoded}
use rqx.Client.Building.{
  Reqwest, Request, Config, Buffered, Unsent, RequestBody, new_body, new_request, request_buffered,
  stream_request,
}
use rqx.Url.Library.{UrlLibrary}
use rqx.PyClient.{
  Act, run, trying, block_on_inner, BodylessArgs, BodyArgs, CallArgs, bodyless, with_body, total_of,
  auth_of,
}

module _ {P : Platform} {L : UrlLibrary} {Json : Type 0} (W : Reqwest P L Json) where
  -- the arguments as a request of the core
  abbrev pub request_of : CallArgs P L Json → RequestBody Json → Option Auth → Request P L Json
  request_of args body auth = record {
    method = args.method;
    url = args.common.url;
    params = args.common.params;
    headers = args.common.headers;
    body = body;
    auth = auth;
    timeout = total_of P args.common.timeout;
    follow_redirects = args.common.follow_redirects;
  }

  module _ (codec : FormUrlencoded) (default_timeout : Platform.F64 P)
      (config : Config P L Json) where
    -- `stream`: the request is built, and not sent yet
    unfoldable pub stream : CallArgs P L Json → Act P (Unsent P L Json)
    stream args = trying (of_core (auth_of args.common.auth args.common.auth_bearer)) λ auth.
        trying (of_core (new_body args.content args.data_pairs args.json)) λ body.
          trying (of_core (new_request P L Json W (request_of args body auth)))
            λ request. run (stream_request P L Json W codec default_timeout config request)

    module _ (E : Env P) (handle : PyResult (Unit {0})) where
      unfoldable pub request : CallArgs P L Json → Act P (Buffered P L Json)
      request args = trying (of_core (auth_of args.common.auth args.common.auth_bearer)) λ auth.
          trying (of_core (new_body args.content args.data_pairs args.json)) λ body.
            trying (of_core (new_request P L Json W (request_of args body auth))) λ request.
              block_on_inner handle
                (request_buffered P L Json W codec default_timeout E config request)

      unfoldable pub get : BodylessArgs P L Json → Act P (Buffered P L Json)
      get args = request (bodyless P L Json (text "GET") args)

      unfoldable pub options : BodylessArgs P L Json → Act P (Buffered P L Json)
      options args = request (bodyless P L Json (text "OPTIONS") args)

      unfoldable pub head : BodylessArgs P L Json → Act P (Buffered P L Json)
      head args = request (bodyless P L Json (text "HEAD") args)

      unfoldable pub delete : BodylessArgs P L Json → Act P (Buffered P L Json)
      delete args = request (bodyless P L Json (text "DELETE") args)

      unfoldable pub post : BodyArgs P L Json → Act P (Buffered P L Json)
      post args = request (with_body P L Json (text "POST") args)

      unfoldable pub put : BodyArgs P L Json → Act P (Buffered P L Json)
      put args = request (with_body P L Json (text "PUT") args)

      unfoldable pub patch : BodyArgs P L Json → Act P (Buffered P L Json)
      patch args = request (with_body P L Json (text "PATCH") args)
