-- ===== src/Transport.antt =====
-- crates/rqx-core/src/transport.rs: sending a request, with retries.
pub mod Attempts
pub mod Turn
pub mod Telemetry
pub mod Permits
pub mod Traversal
pub mod Configuration
use rqx.Base.{
  ℕ, zero, suc, ◌-◌, ◌/◌, Text, text, text_eq, ◌==◌, display_nat, Bool, true, false, ◌&&◌, Option,
  none, some, List, [], ◌∷◌, ◌++◌, if◌then◌else◌,
}
use rqx.Base.Int.{ℤ, pos, negsuc, pos_part, ltb_ℤ, u32_of_i32, display_i32}
use rqx.Error.{RqxCoreError, max_retries_exceeded, request_error, display}
use rqx.Error.Convert.{from_net}
use rqx.Platform.{Platform, HttpRequest}
use rqx.Network.{
  Env, Event, drained, acquired, released, Reply, response, failure, starved, Unit₁, unit, M, pure,
  fail, raise, ◌>>=◌, ◌>>◌, emit, ok_or, now, draw, call, sleep,
}
use rqx.Response.{PendingResponse, pending, with_retries, get_first, option_bind, unwrap_or}
use rqx.Retry.{
  FailureKind, status, kind_of, RetryCounts, no_retries, count, Retry, allows_another, forces,
  allows_method,
}

-- the variables of the retry loop
pub record Loop (P : Platform) : Type 0 where
  pub used : RetryCounts
  pub retry_history : List (Text × Platform.F64 P)
  pub current_response : Option (Platform.Response P)

abbrev pub first_loop : (P : Platform) → Loop P
first_loop P = record { used = no_retries; retry_history = []; current_response = none }

-- how one turn of the loop ends
pub data Step (P : Platform) : Type 0 where
  done : PendingResponse P → Step P
  again : Loop P → Step P
  broken : Loop P → Step P

-- the message after the last attempt
unfoldable pub exhausted : RetryCounts → Text
exhausted used =
    text "max retries exceeded after "
    ++ display_i32 used.total
    ++ text " retries ("
    ++ display_i32 used.connect
    ++ text " connect, "
    ++ display_i32 used.read
    ++ text " read, "
    ++ display_i32 used.status
    ++ text " status)"

module _ {P : Platform} where
  open P use {
    F32, F64, Response, zero32, one32, two32, add32, sub32, mul32, max32, min32, gt32, powi32,
    parse32, gt64, infinity64, nat64, display64, as_secs64, response_headers, error_display,
    is_connect,
  }

  -- `total_timeout.unwrap_or(f64::INFINITY)`
  abbrev pub timeout_of : Retry P → F64
  timeout_of r = unwrap_or r.total_timeout infinity64

  unfoldable pub retry_after : Retry P → Option Response → F32
  retry_after r current =
      if r.respect_retry_after_header
      then unwrap_or
          (option_bind
            (option_bind current (λ resp. get_first P (response_headers resp) (text "retry-after")))
            parse32)
          zero32
      else zero32

  -- the end of the loop: another turn with the failure counted, or none
  unfoldable pub after : Retry P → FailureKind → Loop P → Step P
  after r kind st =
      if allows_another r kind st.used
      then again (record st { used = count st.used kind })
      else broken st

  -- an attempt after the first is noted
  abbrev pub noted : Loop P → Text → ℕ → List (Text × F64)
  noted st outcome elapsed =
      if ltb_ℤ (pos 0) st.used.total
      then st.retry_history ++ ((outcome, nat64 (elapsed / 1000000)) ∷ [])
      else st.retry_history

  -- what follows the loop, by the last response if there is one
  unfoldable pub conclude_with : Retry P → Loop P → Option Response → M P (PendingResponse P)
  conclude_with r st (some resp) =
      if forces r (Platform.status P resp) && r.raise_on_status
      then raise (max_retries_exceeded (exhausted st.used))
      else pure (with_retries (pending P resp) (u32_of_i32 st.used.total) st.retry_history)
  conclude_with r st none = raise (max_retries_exceeded (exhausted st.used))

  abbrev pub conclude : Retry P → Loop P → M P (PendingResponse P)
  conclude r st = conclude_with r st st.current_response

  -- the previous attempt's body
  unfoldable pub drain : Option Response → M P Unit₁
  drain none = pure unit
  drain (some old) = emit (drained old)

  module _ (E : Env P) where
    unfoldable pub check_timeout : Retry P → ℕ → ℤ → M P Unit₁
    check_timeout r start attempt = do
      time ← now E
      if gt64 (as_secs64 (time - start)) (timeout_of r)
          then raise (
              max_retries_exceeded (
                text "total timeout of "
                ++ display64 (timeout_of r)
                ++ text "s exceeded after "
                ++ display_i32 attempt
                ++ text " retries"))
          else pure unit

    -- the exponential backoff, `retries` of it before this one, spread by the jitter
    unfoldable pub calculated_backoff : Retry P → ℕ → M P F32
    calculated_backoff r retries =
        let backoff = mul32 r.backoff_factor (powi32 two32 (pos retries)) in
        if gt32 r.backoff_jitter zero32
        then (do
          random ← draw E
          let jitter = sub32 (mul32 random two32) one32
          pure (max32 (mul32 backoff (add32 one32 (mul32 jitter r.backoff_jitter))) zero32))
        else pure backoff

    unfoldable pub pause : Retry P → ℤ → Option Response → M P Unit₁
    pause r (pos (suc retries)) current = do
      backoff ← calculated_backoff r retries
      sleep P (min32 (max32 backoff (retry_after r current)) r.backoff_max)
    pause r (pos zero) current = pure unit
    pause r (negsuc n) current = pure unit

    -- A permit is held while the request is out. A semaphore of no permits never gives one, so that the
    -- call never comes back; from any other, a permit comes once one is free.
    unfoldable pub execute : Option ℕ → HttpRequest P → M P (Reply P)
    execute none request = call E request
    execute (some zero) request = fail starved
    execute (some (suc others)) request = do
      emit acquired
      reply ← call E request
      emit released
      pure reply

    -- what the reply of an attempt means
    unfoldable pub judge : Retry P → Bool → Loop P → ℕ → Reply P → M P (Step P)
    judge r retryable st started (response resp) =
        if retryable
        then (do
          time ← now E
          let code = Platform.status P resp
          let history = noted st (display_nat code) (time - started)
          if forces r code
              then pure (
                  after r status
                    (record st { retry_history = history; current_response = some resp }))
              else pure (done (with_retries (pending P resp) (u32_of_i32 st.used.total) history)))
        else pure (done (pending P resp))
    judge r retryable st started (failure e) =
        if retryable
        then (do
          time ← now E
          let history = noted st (display (from_net P e)) (time - started)
          pure (
              after r (kind_of (is_connect e))
                (record st { retry_history = history; current_response = none })))
        else raise (from_net P e)

    -- one turn of the retry loop
    unfoldable pub turn : Option ℕ → Retry P → HttpRequest P → ℕ → Loop P → M P (Step P)
    turn semaphore r request start st = do
      check_timeout r start st.used.total
      pause r st.used.total st.current_response
      drain st.current_response
      started ← now E
      copy ←
          ok_or (Env.try_clone E request)
            (request_error (text "Streaming request bodies cannot be replayed"))
      reply ← execute semaphore copy
      judge r (allows_method r request.method) st started reply

    -- the retry loop, at most `fuel` turns of it
    unfoldable pub retry_loop :
        Option ℕ → Retry P → HttpRequest P → ℕ → ℕ → Loop P → M P (PendingResponse P)
    retry_loop semaphore r request start zero st = fail starved
    retry_loop semaphore r request start (suc fuel) st =
        turn semaphore r request start st >>= λ step. elim step [
          | done p ↦ pure p
          | again next ↦ retry_loop semaphore r request start fuel next
          | broken last ↦ conclude r last
        ]

    unfoldable pub send_with_retries : Option ℕ → Retry P → HttpRequest P → M P (PendingResponse P)
    send_with_retries semaphore r request = do
      start ← now E
      retry_loop semaphore r request start (suc (pos_part r.total)) (first_loop P)

    -- a single attempt
    unfoldable pub send_raw : Option ℕ → HttpRequest P → M P (Platform.Response P)
    send_raw semaphore request = do
      reply ← execute semaphore request
      elim reply [ response resp ↦ pure resp | failure e ↦ raise (from_net P e) ]

    unfoldable pub send : Option ℕ → Option (Retry P) → HttpRequest P → M P (PendingResponse P)
    send semaphore none request = do resp ← send_raw semaphore request; pure (pending P resp)
    send semaphore (some r) request = send_with_retries semaphore r request
