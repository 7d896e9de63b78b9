-- ===== src/Transport/Configuration.antt =====
-- The configuration of crates/rqx-core/src/transport.rs: `TransportConfig`, the `reqwest` builder made
-- from it, and `Transport::new`. The builder is a parameter (`ClientLibrary`).
pub mod Durations
use rqx.Base.{ℕ, Bool, true, false, Option, none, some, List, [], ◌∷◌, ◌⊎◌, inl, inr}
use rqx.Error.{RqxCoreError}
use rqx.Error.Convert.{from_net}
use rqx.HttpConfig.{HttpVersionConfig, negotiate, http1_only, http2_only, Timeout}
use rqx.Platform.{Platform}
use rqx.Retry.{Retry}
use rqx.Tls.{TlsLibrary, VerifyConfig, default_roots, disable_verification, custom_ca}

-- what the code takes of `reqwest::ClientBuilder`
pub record ClientLibrary (P : Platform) (T : TlsLibrary) : Type 1 where
  pub Builder : Type 0
  pub HttpClient : Type 0
  pub new_builder : Builder
  pub pool_max_idle_per_host : Builder → ℕ → Builder
  pub pool_idle_timeout : Builder → ℕ → Builder
  pub connect_timeout : Builder → ℕ → Builder
  pub read_timeout : Builder → ℕ → Builder
  pub only_http1 : Builder → Builder
  pub http2_prior_knowledge : Builder → Builder
  pub accept_invalid_certs : Builder → Builder
  pub add_root_certificate : Builder → TlsLibrary.Certificate T → Builder
  pub with_identity : Builder → TlsLibrary.Identity T → Builder
  pub with_proxy : Builder → TlsLibrary.Proxy T → Builder
  pub no_redirects : Builder → Builder
  pub store_cookies : Builder → Builder
  pub build_client : Builder → HttpClient ⊎ Platform.NetError P
  -- `Duration::from_secs_f64`, which panics on what is no duration
  pub from_secs64 : Platform.F64 P → Option ℕ

pub record ConnectionPoolConfig (P : Platform) : Type 0 where
  pub max_connections : Option ℕ
  pub max_keepalive : Option ℕ
  pub keepalive_expiry : Option (Platform.F64 P)

pub record TransportConfig (P : Platform) (T : TlsLibrary) : Type 0 where
  pub pool_config : ConnectionPoolConfig P
  pub http_version_config : HttpVersionConfig
  pub verify_config : VerifyConfig T
  pub timeout_config : Timeout P
  pub retry_config : Option (Retry P)
  pub cert : Option (TlsLibrary.Identity T)
  pub proxies : List (TlsLibrary.Proxy T)

-- what making a client can come to
pub data Made {ℓ} (A : Type ℓ) : Type ℓ where
  made : A → Made A
  not_made : RqxCoreError → Made A
  panicked : Made A

-- the first of two that is set
abbrev pub or {ℓ} : {A : Type ℓ} → Option A → Option A → Option A
or none b = b
or (some a) b = some a

abbrev pub option_map : {A B : Type 0} → (A → B) → Option A → Option B
option_map f none = none
option_map f (some a) = some (f a)

module _ {P : Platform} {T : TlsLibrary} (C : ClientLibrary P T) where
  open C use {
    Builder, HttpClient, new_builder, pool_max_idle_per_host, pool_idle_timeout, connect_timeout,
    read_timeout, only_http1, http2_prior_knowledge, accept_invalid_certs, add_root_certificate,
    with_identity, with_proxy, no_redirects, store_cookies, build_client, from_secs64,
  }

  -- a time that is set, as a duration; `none` is a panic
  unfoldable pub with_time :
      (Builder → ℕ → Builder) → Option (Platform.F64 P) → Builder → Option Builder
  with_time set none builder = some builder
  with_time set (some seconds) builder = elim (from_secs64 seconds) [
    | none ↦ none
    | some time ↦ some (set builder time)
  ]

  unfoldable pub then_time :
      (Builder → ℕ → Builder) → Option (Platform.F64 P) → Option Builder → Option Builder
  then_time set seconds none = none
  then_time set seconds (some builder) = with_time set seconds builder

  unfoldable pub with_keepalive : Option ℕ → Builder → Builder
  with_keepalive none builder = builder
  with_keepalive (some n) builder = pool_max_idle_per_host builder n

  unfoldable pub with_version : HttpVersionConfig → Builder → Builder
  with_version negotiate builder = builder
  with_version http1_only builder = only_http1 builder
  with_version http2_only builder = http2_prior_knowledge builder

  unfoldable pub with_verify : VerifyConfig T → Builder → Builder
  with_verify default_roots builder = builder
  with_verify disable_verification builder = accept_invalid_certs builder
  with_verify (custom_ca ca) builder = add_root_certificate builder ca

  unfoldable pub with_cert : Option (TlsLibrary.Identity T) → Builder → Builder
  with_cert none builder = builder
  with_cert (some cert) builder = with_identity builder cert

  unfoldable pub with_proxies : List (TlsLibrary.Proxy T) → Builder → Builder
  with_proxies [] builder = builder
  with_proxies (p ∷ ps) builder = with_proxies ps (with_proxy builder p)

  -- after the timeouts
  unfoldable pub finish_builder : TransportConfig P T → Builder → Builder
  finish_builder config builder = store_cookies (
      no_redirects (
        with_proxies config.proxies (
          with_cert config.cert
            (with_verify config.verify_config (with_version config.http_version_config builder)))))

  -- `ClientBuilder::from`; `none` is a panic
  unfoldable pub builder_from : TransportConfig P T → Option Builder
  builder_from config = option_map (finish_builder config) (
      then_time read_timeout config.timeout_config.read (
        then_time connect_timeout config.timeout_config.connect (
          with_time pool_idle_timeout
            (or config.pool_config.keepalive_expiry config.timeout_config.pool)
            (with_keepalive config.pool_config.max_keepalive new_builder))))

  pub record Transport : Type 0 where
    pub http_client : HttpClient
    pub config : TransportConfig P T
    pub semaphore : Option ℕ

  unfoldable pub transport_of :
      TransportConfig P T → HttpClient ⊎ Platform.NetError P → Made Transport
  transport_of config (inl client) = made record {
    http_client = client;
    config = config;
    semaphore = config.pool_config.max_connections;
  }
  transport_of config (inr e) = not_made (from_net P e)

  unfoldable pub build_transport : TransportConfig P T → Option Builder → Made Transport
  build_transport config none = panicked
  build_transport config (some builder) = transport_of config (build_client builder)

  -- `Transport::new`
  unfoldable pub new_transport : TransportConfig P T → Made Transport
  new_transport config = build_transport config (builder_from config)
