-- ===== src/Tests/Requests.antt =====
-- The theorems on whole requests, at a request to a server that is unavailable.
use rqx.Base.{Text, text, text_eq, ◌++◌, true, none, some, [], ◌∷◌}
use rqx.HttpConfig.{no_auth}
use rqx.Network.Discipline.{FailsAs}
use rqx.Client.Building.{content, done, Reqwest, Request, Config, request_buffered}
use rqx.Client.Building.Errors.{IsRequestFailure, request_buffered-FailsAs}
use rqx.Sample.{sample, unavailable, get_request}
use rqx.Url.Library.{UrlLibrary, parsed, fine}
use rqx.Url.Reference.{absolute}
use rqx.Tests.{client, form}

-- `url::Url` by its text
abbrev pub urls : UrlLibrary
urls = record {
  Url = Text;
  parse_url = parsed;
  join_url = λ base path. fine (base ++ path);
  as_str = λ url. url;
  scheme_of = λ url. text "http";
  has_authority = λ url. true;
  username_of = λ url. [];
  password_of = λ url. none;
  host_of = λ url. none;
  port_of = λ url. none;
  path_of = λ url. url;
  query_of = λ url. none;
  fragment_of = λ url. none;
  set_path = λ url path. path;
  relative_without_base_text = [];
  Relative = Text;
  parse_uri = fine;
  relative_str = λ r. r;
  authority_str = λ r. none;
  userinfo_of = λ r. none;
  relative_host = λ r. none;
  relative_port = λ r. none;
  relative_path = λ r. r;
  relative_query = λ r. none;
  relative_fragment = λ r. none;
  encode_path_text = λ s. s;
  encode_query_text = λ s. s;
  encode_fragment_text = λ s. s;
  percent_decode = λ s. s;
  domain_to_unicode = some;
  mask_password = some;
  parse_u16 = λ s. none;
  debug = λ s. s;
  utf8_lossy = λ s. s;
}

-- a builder that makes one request
abbrev pub builders : Reqwest sample urls Text
builders = record {
  Builder = Text;
  start = λ method url. url;
  headers = λ builder h. builder;
  basic_auth = λ builder username password. builder;
  bearer_auth = λ builder token. builder;
  body = λ builder b. builder;
  form_body = λ builder pairs. builder;
  json_body = λ builder value. builder;
  timeout = λ builder time. builder;
  finish = λ builder. done get_request;
  set_query = λ url query. url;
  from_secs64 = some;
  method_from_bytes = fine;
  all_bytes = λ resp. done [];
}

abbrev request : Request sample urls Text
request = record {
  method = text "GET";
  url = absolute (text "http://a/");
  params = none;
  headers = none;
  body = content (1 ∷ []);
  auth = some no_auth;
  timeout = none;
  follow_redirects = none;
}

abbrev pub config : Config sample urls Text
config = record {
  timeout = record { connect = none; read = none; write = none; pool = none };
  base_url = none;
  auth = no_auth;
  client = client;
}

request_buffered-FailsAs_example :
    FailsAs IsRequestFailure
      (request_buffered sample urls Text builders form 15 unavailable config request [])
request_buffered-FailsAs_example =
    request_buffered-FailsAs builders form 15 unavailable config request []
