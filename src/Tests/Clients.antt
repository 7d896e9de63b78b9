-- ===== src/Tests/Clients.antt =====
-- The theorems on clients, at a client that is given its options and sends to a server that is
-- unavailable.
use rqx.Base.{
  ℕ, Text, text, true, none, some, [], ◌∷◌, ◌≡◌, ◌≢◌, ◌↔◌, ◌+◌, inl, inr, arith, if◌then◌else◌, ltb,
}
use rqx.Exceptions.{py_ok}
use rqx.HttpConfig.{negotiate}
use rqx.PyTransport.{seconds}
use rqx.PyClient.{BodylessArgs, ClientArgs, await}
use rqx.PyClient.Agreement.{Method, post, put, sync_call, async_call, await-async_call}
use rqx.PyClient.Refusals.{Attempt, calls, IsRefusedBoth, attempt-IsRefused}
use rqx.Sample.{sample, unavailable}
use rqx.Tls.{TlsLibrary, default_roots}
use rqx.Transport.Configuration.{
  ClientLibrary, TransportConfig, Transport, new_transport, panicked, or,
}
use rqx.Transport.Configuration.Durations.{IsDuration, new_transport-IsDuration}
use rqx.Url.Library.{fine}
use rqx.Url.Reference.{absolute}
use rqx.Tests.{form}
use rqx.Tests.Requests.{urls, builders, config}

-- files and certificates by their bytes
abbrev files : TlsLibrary
files = record {
  Certificate = Text;
  Identity = Text;
  Proxy = Text;
  read_file = fine;
  certificate_from_pem = fine;
  identity_from_pem = fine;
  http_proxy = fine;
  https_proxy = fine;
}

-- a builder whose durations are below a hundred
abbrev clients : ClientLibrary sample files
clients = record {
  Builder = ℕ;
  HttpClient = ℕ;
  new_builder = 0;
  pool_max_idle_per_host = λ b n. b;
  pool_idle_timeout = λ b t. b + t;
  connect_timeout = λ b t. b + t;
  read_timeout = λ b t. b + t;
  only_http1 = λ b. b;
  http2_prior_knowledge = λ b. b;
  accept_invalid_certs = λ b. b;
  add_root_certificate = λ b c. b;
  with_identity = λ b c. b;
  with_proxy = λ b p. b;
  no_redirects = λ b. b;
  store_cookies = λ b. b;
  build_client = inl;
  from_secs64 = λ s. if ltb s 100 then some s else none;
}

abbrev slow : TransportConfig sample files
slow = record {
  pool_config = record { max_connections = some 10; max_keepalive = none; keepalive_expiry = none };
  http_version_config = negotiate;
  verify_config = default_roots;
  timeout_config = record { connect = some 5; read = some 200; write = some 300; pool = none };
  retry_config = none;
  cert = none;
  proxies = [];
}

new_transport-IsDuration_example : (new_transport clients slow ≢ panicked) ↔ (
    IsDuration clients (or slow.pool_config.keepalive_expiry slow.timeout_config.pool)
    × IsDuration clients slow.timeout_config.connect
    × IsDuration clients slow.timeout_config.read)
new_transport-IsDuration_example = new_transport-IsDuration clients slow

abbrev transport : Transport clients
transport = record { http_client = 0; config = slow; semaphore = some 10 }

abbrev options : ClientArgs sample urls Text clients
options = record {
  verify = none;
  cert = none;
  timeout = none;
  follow_redirects = some true;
  max_redirects = some 3;
  base_url = none;
  auth_bearer = some (text "token");
  transport = some transport;
  redirects = none;
}

abbrev common : BodylessArgs sample urls Text
common = record {
  url = absolute (text "http://a/");
  params = none;
  headers = none;
  auth = none;
  auth_bearer = some (text "token");
  follow_redirects = none;
  timeout = some (seconds 3);
}

abbrev posting : Method sample urls Text
posting = post (record { content = some (1 ∷ []); data_pairs = none; json = none; common = common })

await-async_call_example :
    await (async_call builders form 15 config unavailable (py_ok tt) posting) []
    ≡ sync_call builders form 15 config unavailable (py_ok tt) posting []
await-async_call_example =
    await-async_call builders form 15 config unavailable (py_ok tt) posting []

abbrev two_bodies : Attempt builders
two_bodies = calls (
    put (record {
      content = some (1 ∷ []);
      data_pairs = none;
      json = some (text "x");
      common = common;
    }))

attempt-IsRefused_example :
    IsRefusedBoth builders form 15 config unavailable (py_ok tt) two_bodies []
attempt-IsRefused_example =
    attempt-IsRefused builders form 15 config unavailable (py_ok tt) two_bodies []
      (inr (omega arith))
