-- ===== src/PyClient/Fresh.antt =====
-- The transport that the constructor of crates/rqx/src/client.rs makes for a client.
use rqx.Base.{Option, none, some, [], ◌≡◌, refl, ap, ◌∙◌, ◌⊎◌, inl, inr}
use rqx.Error.Convert.{from_net}
use rqx.Exceptions.{PyErr, PyResult, py_ok, py_err, to_err, core}
use rqx.HttpConfig.{Timeout, negotiate, from_args}
use rqx.Platform.{Platform}
use rqx.Response.{unwrap_or}
use rqx.Url.Library.{UrlLibrary}
use rqx.QueryParams.Binding.{PyStrings, ◌⟫=◌}
use rqx.Tls.{
  TlsLibrary, VerifyConfig, default_roots, parse_verify_config_from_py, parse_identity,
  from_hash_map,
}
use rqx.Transport.Configuration.{
  ClientLibrary, TransportConfig, made, Transport, option_map, transport_of, build_transport,
  builder_from, new_transport,
}
use rqx.Transport.Configuration.Durations.{IsDuration, new_transport-IsDuration}
use rqx.PyTransport.{
  PyMade, py_made, py_failed, py_panicked, of_made, after, each, timeout_of, no_timeout, try_from,
  new_http_transport,
}
use rqx.PyClient.{ClientArgs, fresh_transport}

module _ {P : Platform} {L : UrlLibrary} {Json : Type 0} {T : TlsLibrary} (C : ClientLibrary P T)
    (S : PyStrings (Platform.F64 P)) (args : ClientArgs P L Json C) where
  abbrev verified : PyResult (Option (VerifyConfig T))
  verified = each (parse_verify_config_from_py T S) args.verify

  abbrev identified : PyResult (Option (TlsLibrary.Identity T))
  identified = each (parse_identity T S) args.cert

  -- the transport is configured by `verify=`, `cert=` and `timeout=`, and by nothing else
  pub record IsFresh (t : Transport C) : Type 0 where
    pub verify_is :
        (each (parse_verify_config_from_py T S) args.verify ⟫= λ v.
        py_ok (unwrap_or v default_roots))
        ≡ py_ok t.config.verify_config
    pub cert_is : each (parse_identity T S) args.cert ≡ py_ok t.config.cert
    pub timeout_is :
        t.config.timeout_config ≡ unwrap_or (option_map (timeout_of P) args.timeout) (no_timeout P)
    pub pool_is :
        t.config.pool_config
        ≡ record { max_connections = none; max_keepalive = none; keepalive_expiry = none }
    pub version_is : t.config.http_version_config ≡ negotiate
    pub retries_are : t.config.retry_config ≡ none
    pub proxies_are : t.config.proxies ≡ []
    pub semaphore_is : t.semaphore ≡ none
    -- its `reqwest` client is built from that configuration
    pub built : new_transport C t.config ≡ made t

  -- How making one ends.
  pub data FreshPost : PyMade (Transport C) → Type 0 where
    fresh_made : (t : Transport C) → IsFresh t → FreshPost (py_made t)
    bad_verify :
        (e : PyErr)
        → each (parse_verify_config_from_py T S) args.verify ≡ py_err e
        → FreshPost (py_failed e)
    bad_cert :
        (e : PyErr) → each (parse_identity T S) args.cert ≡ py_err e → FreshPost (py_failed e)
    bad_client : (e : Platform.NetError P) → FreshPost (py_failed (to_err (core (from_net P e))))
    bad_times :
        (t : Timeout P)
        → t ≡ unwrap_or (option_map (timeout_of P) args.timeout) (no_timeout P)
        → ((IsDuration C t.pool × IsDuration C t.connect × IsDuration C t.read) → ⊥)
        → FreshPost py_panicked

  abbrev times : Timeout P
  times = unwrap_or (option_map (timeout_of P) args.timeout) (no_timeout P)

  abbrev config_of : Option (VerifyConfig T) → Option (TlsLibrary.Identity T) → TransportConfig P T
  config_of verify cert = record {
    pool_config = record { max_connections = none; max_keepalive = none; keepalive_expiry = none };
    http_version_config = negotiate;
    verify_config = unwrap_or verify default_roots;
    timeout_config = times;
    retry_config = none;
    cert = cert;
    proxies = [];
  }

  module _ (v : Option (VerifyConfig T)) (c : Option (TlsLibrary.Identity T))
      (verified_as : verified ≡ py_ok v) (identified_as : identified ≡ py_ok c) where
    -- the end of `Transport::new`, over the builder and what building with it gave
    by_client :
        (b : ClientLibrary.Builder C) (r : ClientLibrary.HttpClient C ⊎ Platform.NetError P)
        → builder_from C (config_of v c) ≡ some b
        → ClientLibrary.build_client C b ≡ r
        → FreshPost (of_made (transport_of C (config_of v c) r))
    unfolding new_transport build_transport transport_of
    by_client b (inl client) e q = fresh_made _ record {
      verify_is = ap (λ r. r ⟫= λ o. py_ok (unwrap_or o default_roots)) verified_as;
      cert_is = identified_as;
      timeout_is = refl;
      pool_is = refl;
      version_is = refl;
      retries_are = refl;
      proxies_are = refl;
      semaphore_is = refl;
      built = ap (build_transport C (config_of v c)) e ∙ ap (transport_of C (config_of v c)) q;
    }
    by_client b (inr x) e q = bad_client x

    by_builder :
        (o : Option (ClientLibrary.Builder C))
        → builder_from C (config_of v c) ≡ o
        → FreshPost (of_made (build_transport C (config_of v c) o))
    unfolding new_transport build_transport
    by_builder none e = bad_times times refl λ d.
        (new_transport-IsDuration C (config_of v c)).1 d (ap (build_transport C (config_of v c)) e)
    by_builder (some b) e = by_client b (ClientLibrary.build_client C b) e refl

  by_arguments :
      (v : PyResult (Option (VerifyConfig T))) (c : PyResult (Option (TlsLibrary.Identity T)))
      → verified ≡ v
      → identified ≡ c
      → FreshPost (
          after
            (v ⟫= λ verify. (c ⟫= λ cert. py_ok (config_of verify cert)))
            λ config. of_made (new_transport C config))
  unfolding new_transport
  by_arguments (py_err e) c p q = bad_verify e p
  by_arguments (py_ok v) (py_err e) p q = bad_cert e q
  by_arguments (py_ok v) (py_ok c) p q = by_builder v c p q (builder_from C (config_of v c)) refl

  -- the transport that is made has the options, or one of them was refused
  pub fresh_transport-FreshPost : FreshPost (fresh_transport P L Json C S args)
  unfolding fresh_transport new_http_transport try_from from_args from_hash_map
  fresh_transport-FreshPost = by_arguments verified identified refl refl
