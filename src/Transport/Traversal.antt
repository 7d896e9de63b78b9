-- ===== src/Transport/Traversal.antt =====
-- A property that is kept by the ways in which computations are put together holds of `send`, once it
-- holds of the request itself and allows the errors that crates/rqx-core/src/transport.rs raises.
use rqx.Base.{ℕ, zero, suc, ◌-◌, Bool, ◌&&◌, Text, Option, none, some}
use rqx.Base.Int.{ℤ, pos, negsuc}
use rqx.Error.{RqxCoreError, max_retries_exceeded, request_error}
use rqx.Error.Convert.{from_net}
use rqx.Platform.{Platform, HttpRequest}
use rqx.Network.{Env, Reply, response, failure, M, pure, raise}
use rqx.Network.Discipline.{Discipline, if-Good, ok_or-Good, sleep-Good}
use rqx.Response.{PendingResponse}
use rqx.Retry.{Retry, forces}
use rqx.Transport.{
  Loop, Step, done, again, broken, conclude, conclude_with, drain, check_timeout, timeout_of,
  calculated_backoff, pause, execute, judge, turn, retry_loop, send_with_retries, send_raw, send,
}

-- the errors that sending raises
pub record Raised (P : Platform) (Allowed : RqxCoreError → Type 0) : Type 0 where
  pub of_network : (e : Platform.NetError P) → Allowed (from_net P e)
  pub of_request : (message : Text) → Allowed (request_error message)
  pub of_retries : (message : Text) → Allowed (max_retries_exceeded message)

module _ {P : Platform} (Good : (A : Type 0) → M P A → Type 0) (Allowed : RqxCoreError → Type 0)
    (D : Discipline Good Allowed) (R : Raised P Allowed) where
  drain-Good : (current : Option (Platform.Response P)) → Good _ (drain {P = P} current)
  unfolding drain
  drain-Good none = D.returns _
  drain-Good (some old) = D.drains old

  conclude-Good :
      (r : Retry P) (st : Loop P) (c : Option (Platform.Response P)) → Good _ (conclude_with r st c)
  unfolding conclude_with
  conclude-Good r st (some resp) =
      if-Good Good Allowed D (forces r (Platform.status P resp) && r.raise_on_status) _ _
        (D.raises _ (R.of_retries _)) (D.returns _)
  conclude-Good r st none = D.raises _ (R.of_retries _)

  module _ (E : Env P) where
    check_timeout-Good :
        (r : Retry P) (start : ℕ) (attempt : ℤ) → Good _ (check_timeout E r start attempt)
    unfolding check_timeout
    check_timeout-Good r start attempt = D.binds _ _ (D.looks E) (λ time.
        if-Good Good Allowed D
          (Platform.gt64 P (Platform.as_secs64 P (time - start)) (timeout_of r)) _ _
          (D.raises _ (R.of_retries _)) (D.returns _))

    calculated_backoff-Good : (r : Retry P) (retries : ℕ) → Good _ (calculated_backoff E r retries)
    unfolding calculated_backoff
    calculated_backoff-Good r retries =
        if-Good Good Allowed D (Platform.gt32 P r.backoff_jitter (Platform.zero32 P)) _ _
          (D.binds _ _ (D.draws E) (λ x. D.returns _)) (D.returns _)

    pause-Good :
        (r : Retry P) (attempt : ℤ) (current : Option (Platform.Response P))
        → Good _ (pause E r attempt current)
    unfolding pause
    pause-Good r (pos zero) current = D.returns _
    pause-Good r (pos (suc n)) current =
        D.binds _ _ (calculated_backoff-Good r n) (λ x. sleep-Good Good Allowed D _)
    pause-Good r (negsuc n) current = D.returns _

    judge-Good :
        (r : Retry P) (retryable : Bool) (st : Loop P) (started : ℕ) (reply : Reply P)
        → Good _ (judge E r retryable st started reply)
    unfolding judge
    judge-Good r retryable st started (response resp) =
        if-Good Good Allowed D retryable _ _
          (D.binds _ _ (D.looks E) (λ time.
            if-Good Good Allowed D (forces r (Platform.status P resp)) _ _ (D.returns _)
              (D.returns _)))
          (D.returns _)
    judge-Good r retryable st started (failure e) =
        if-Good Good Allowed D retryable _ _ (D.binds _ _ (D.looks E) (λ time. D.returns _))
          (D.raises _ (R.of_network e))

    module _ (semaphore : Option ℕ)
        (execute-Good : (request : HttpRequest P)
          → Good (Reply P) (execute E semaphore request)) where
      turn-Good :
          (r : Retry P) (request : HttpRequest P) (start : ℕ) (st : Loop P)
          → Good _ (turn E semaphore r request start st)
      unfolding turn
      turn-Good r request start st = D.binds _ _ (check_timeout-Good r start _) (λ a.
          D.binds _ _ (pause-Good r _ _) (λ b. D.binds _ _ (drain-Good _) (λ c.
            D.binds _ _ (D.looks E) (λ started.
              D.binds _ _ (ok_or-Good Good Allowed D _ _ (R.of_request _)) (λ copy.
                D.binds _ _ (execute-Good copy) (λ reply. judge-Good r _ st started reply))))))

      next-Good :
          (r : Retry P) (request : HttpRequest P) (start fuel : ℕ) (step : Step P)
          → ((st : Loop P) → Good _ (retry_loop E semaphore r request start fuel st))
          → Good (PendingResponse P) (elim step as (λ x. M P (PendingResponse P)) [
            | done p ↦ pure p
            | again next ↦ retry_loop E semaphore r request start fuel next
            | broken last ↦ conclude r last
          ])
      next-Good r request start fuel (done p) go = D.returns p
      next-Good r request start fuel (again next) go = go next
      next-Good r request start fuel (broken last) go = conclude-Good r last last.current_response

      retry_loop-Good :
          (r : Retry P) (request : HttpRequest P) (start fuel : ℕ) (st : Loop P)
          → Good _ (retry_loop E semaphore r request start fuel st)
      unfolding retry_loop
      retry_loop-Good r request start zero st = D.starves
      retry_loop-Good r request start (suc fuel) st =
          D.binds _ _ (turn-Good r request start st)
            (λ step. next-Good r request start fuel step (retry_loop-Good r request start fuel))

      reply-Good :
          (reply : Reply P)
          → Good (Platform.Response P) (elim reply as (λ k. M P (Platform.Response P)) [
            | response resp ↦ pure resp
            | failure e ↦ raise (from_net P e)
          ])
      reply-Good (response resp) = D.returns resp
      reply-Good (failure e) = D.raises _ (R.of_network e)

      pub send-Good :
          (retries : Option (Retry P)) (request : HttpRequest P)
          → Good _ (send E semaphore retries request)
      unfolding send send_with_retries send_raw
      send-Good none request =
          D.binds _ _ (D.binds _ _ (execute-Good request) (λ reply. reply-Good reply))
            (λ resp. D.returns _)
      send-Good (some r) request =
          D.binds _ _ (D.looks E) (λ start. retry_loop-Good r request start _ _)
