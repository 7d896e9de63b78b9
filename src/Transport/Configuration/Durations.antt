-- ===== src/Transport/Configuration/Durations.antt =====
-- When a configuration makes `ClientBuilder::from` of crates/rqx-core/src/transport.rs panic.
use rqx.Base.{ℕ, Option, none, some, ◌≢◌, ◌↔◌, ◌⊎◌, inl, inr, refl, arith}
use rqx.Platform.{Platform}
use rqx.Tls.{TlsLibrary}
use rqx.Transport.Configuration.{
  ClientLibrary, TransportConfig, panicked, or, with_time, then_time, finish_builder, option_map,
  builder_from, with_keepalive, transport_of, build_transport, new_transport,
}

module _ {P : Platform} {T : TlsLibrary} (C : ClientLibrary P T) where
  open C use {Builder, from_secs64, pool_idle_timeout, connect_timeout, read_timeout}

  -- a time is unset, or a duration
  abbrev pub IsDuration : Option (Platform.F64 P) → Type 0
  IsDuration none = Unit {0}
  IsDuration (some seconds) = from_secs64 seconds ≢ none

  -- a step of the builder that is reached, and one after it
  then_time-IsDuration :
      (set : Builder → ℕ → Builder) (t : Option (Platform.F64 P)) (o : Option Builder)
      → (then_time C set t o ≢ none) ↔ ((o ≢ none) × IsDuration t)
  unfolding then_time with_time
  then_time-IsDuration set t none = (λ h. absurd (h refl), λ h. h.0)
  then_time-IsDuration set none (some b) = (λ h. (h, tt), λ h. h.0)
  then_time-IsDuration set (some s) (some b) = by_duration (from_secs64 s)
    where
      by_duration :
          (o : Option ℕ)
          → ((elim o [ none ↦ none | some time ↦ some (set b time) ]) ≢ none)
            ↔ ((some b ≢ none) × (o ≢ none))
      by_duration none = ground arith
      by_duration (some time) = ground arith

  finished :
      (config : TransportConfig P T) (o : Option Builder)
      → (build_transport C config (option_map (finish_builder C config) o) ≢ panicked) ↔ (o ≢ none)
  unfolding build_transport transport_of
  finished config none = (λ h. absurd (h refl), λ h. absurd (h refl))
  finished config (some b) =
      (λ h e. ground arith, λ h. built (ClientLibrary.build_client C (finish_builder C config b)))
    where
      built :
          (r : ClientLibrary.HttpClient C ⊎ Platform.NetError P)
          → transport_of C config r ≢ panicked
      built (inl client) = λ e. ground arith
      built (inr x) = λ e. ground arith

  -- A transport's configuration panics exactly if one of its times is no duration: the idle time of
  -- the pool (`keepalive_expiry`, or the timeout's `pool` without it), the connect timeout or the
  -- read timeout; the write timeout is not looked at.
  pub new_transport-IsDuration :
      (config : TransportConfig P T)
      → (new_transport C config ≢ panicked) ↔ (
          IsDuration (or config.pool_config.keepalive_expiry config.timeout_config.pool)
          × IsDuration config.timeout_config.connect
          × IsDuration config.timeout_config.read)
  unfolding new_transport builder_from
  new_transport-IsDuration config =
      let started =
        with_keepalive C config.pool_config.max_keepalive (ClientLibrary.new_builder C) in
      let pool = or config.pool_config.keepalive_expiry config.timeout_config.pool in
      let pooled = with_time C pool_idle_timeout pool started in
      let connected = then_time C connect_timeout config.timeout_config.connect pooled in
      let last = then_time C read_timeout config.timeout_config.read connected in
      let whole = finished config last in
      let read = then_time-IsDuration read_timeout config.timeout_config.read connected in
      let connect = then_time-IsDuration connect_timeout config.timeout_config.connect pooled in
      let idle : (pooled ≢ none) ↔ ((some started ≢ none) × IsDuration pool) =
        unfold then_time in then_time-IsDuration pool_idle_timeout pool (some started) in
      (
        λ h. let (c, r) = read.0 (whole.0 h) in let (p, k) = connect.0 c in ((idle.0 p).1, k, r),
        λ (i, k, r). whole.1 (read.1 (connect.1 (idle.1 ((λ e. ground arith), i), k), r)),
      )
