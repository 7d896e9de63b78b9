-- ===== src/Transport/Attempts.antt =====
-- The retry loop of crates/rqx-core/src/transport.rs: how many attempts it makes.
use rqx.Base.{ℕ, zero, suc, Bool, true, false, Option, none, some, refl, arith}
use rqx.Base.Int.{ℤ, pos, negsuc}
use rqx.Error.{RqxCoreError}
use rqx.Platform.{Platform, HttpRequest}
use rqx.Network.{Env, Reply, response, failure, ok_or, now, draw, call, sleep, ◌>>=◌}
use rqx.Network.Counting.{Quiet, Once, bind-Quiet, bind-Once, Once-bind}
use rqx.Retry.{Retry}
use rqx.Transport.{Loop, drain, check_timeout, calculated_backoff, pause, execute, judge, turn}

module _ {P : Platform} (E : Env P) where
  check_timeout-Quiet :
      (r : Retry P) (start : ℕ) (attempt : ℤ) → Quiet (check_timeout E r start attempt)
  unfolding check_timeout now ◌>>=◌
  check_timeout-Quiet r start attempt tr = ground arith

  calculated_backoff-Quiet : (r : Retry P) (retries : ℕ) → Quiet (calculated_backoff E r retries)
  unfolding calculated_backoff draw ◌>>=◌
  calculated_backoff-Quiet r retries tr = ground arith

  sleep-Quiet : (x : Platform.F32 P) → Quiet (sleep P x)
  unfolding sleep
  sleep-Quiet x tr = ground arith

  pause-Quiet :
      (r : Retry P) (attempt : ℤ) (current : Option (Platform.Response P))
      → Quiet (pause E r attempt current)
  unfolding pause
  pause-Quiet r (pos zero) current tr = refl
  pause-Quiet r (pos (suc n)) current tr =
      bind-Quiet _ _ (calculated_backoff-Quiet r n) (λ x. sleep-Quiet _) tr
  pause-Quiet r (negsuc n) current tr = refl

  drain-Quiet : (current : Option (Platform.Response P)) → Quiet (drain {P = P} current)
  unfolding drain
  drain-Quiet none tr = refl
  drain-Quiet (some old) tr = refl

  execute-Once :
      (semaphore : Option ℕ) (request : HttpRequest P) → Once (execute E semaphore request)
  unfolding execute call ◌>>=◌
  execute-Once none request tr = refl
  execute-Once (some zero) request tr = omega arith
  execute-Once (some (suc n)) request tr = refl

  judge-Quiet :
      (r : Retry P) (retryable : Bool) (st : Loop P) (started : ℕ) (reply : Reply P)
      → Quiet (judge E r retryable st started reply)
  unfolding judge now ◌>>=◌
  judge-Quiet r true st started (response resp) tr = ground arith
  judge-Quiet r false st started (response resp) tr = refl
  judge-Quiet r true st started (failure e) tr = refl
  judge-Quiet r false st started (failure e) tr = refl

  now-Quiet : Quiet (now E)
  unfolding now
  now-Quiet tr = refl

  ok_or-Quiet : {A : Type 0} (o : Option A) (e : RqxCoreError) → Quiet (ok_or {P = P} o e)
  ok_or-Quiet none e tr = refl
  ok_or-Quiet (some a) e tr = refl

  pub turn-Once :
      (semaphore : Option ℕ) (r : Retry P) (request : HttpRequest P) (start : ℕ) (st : Loop P)
      → Once (turn E semaphore r request start st)
  unfolding turn
  turn-Once semaphore r request start st = bind-Once _ _ (check_timeout-Quiet r start _) (λ a.
      bind-Once _ _ (pause-Quiet r _ _) (λ b. bind-Once _ _ (drain-Quiet _) (λ c.
        bind-Once _ _ now-Quiet (λ started. bind-Once _ _ (ok_or-Quiet _ _) (λ copy.
          Once-bind _ _ (execute-Once semaphore copy)
            (λ reply. judge-Quiet r _ st started reply))))))
