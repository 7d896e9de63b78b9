-- ===== src/Transport/Telemetry.antt =====
-- The retry loop of crates/rqx-core/src/transport.rs as a whole: its end, the requests it sends and
-- the retries that its answer reports.
use rqx.Base.{
  ◌≢◌, ℕ, zero, suc, ◌+◌, ◌-◌, ◌≤◌, ◌<◌, Bool, true, false, ◌&&◌, Option, none, some, ◌∷◌, length,
  if◌then◌else◌, ◌≡◌, refl, sym, ap, ◌∙◌, arith, true≢false,
}
use rqx.Base.Int.{pos_part, u32_of_i32, i32_max}
use rqx.Error.{max_retries_exceeded}
use rqx.Platform.{Platform, HttpRequest}
use rqx.Network.{
  Env, Trace, Answer, returned, failed, raised, panicked, starved, pure, raise, now, ◌>>=◌, resume,
  looked,
}
use rqx.Network.Counting.{sends, Counted, Holds}
use rqx.Response.{PendingResponse, pending, with_retries}
use rqx.Retry.{Retry, forces, allows_method}
use rqx.Retry.Budget.{Tally, sum, no_tally, counts, bump, Fits, limit, sum-bump, no_tally-Fits}
use rqx.Transport.{
  Loop, first_loop, Step, done, again, broken, conclude, conclude_with, exhausted, turn, retry_loop,
  send_with_retries,
}
use rqx.Transport.Attempts.{turn-Once}
use rqx.Transport.Turn.{IsWanted, Continues, StepPost, turn-Yields, IsFinal, turn-IsFinal}

module _ {P : Platform} (r : Retry P) (retryable : Bool) where
  -- The loop from `n` requests and `k` retries on: an answer reports every retry, of which there
  -- are as many as requests after the first, and no end takes more requests than the limit allows.
  abbrev pub LoopPost : ℕ → ℕ → Answer (PendingResponse P) × Trace P → Type 0
  LoopPost n k (returned p, tr) =
      (sends tr + k ≡ n + p.parts.num_retries + 1)
      × (length p.parts.retry_history ≡ p.parts.num_retries)
      × (p.parts.num_retries ≤ limit r.total)
      × IsWanted r retryable p
  LoopPost n k (failed starved, tr) = ⊥
  LoopPost n k (failed panicked, tr) = sends tr + k ≤ n + limit r.total + 1
  LoopPost n k (failed (raised e), tr) = sends tr + k ≤ n + limit r.total + 1

  concluded :
      (n : ℕ) (t : Tally) (tr : Trace P) (last : Loop P) (resp : Platform.Response P) (b : Bool)
      → (forces r (Platform.status P resp) && r.raise_on_status) ≡ b
      → Fits r t
      → (last.used ≡ counts t) × (length last.retry_history ≡ sum t)
      → sends tr ≡ suc n
      → LoopPost n (sum t) (
          (if b
              then raise (max_retries_exceeded (exhausted last.used))
              else pure
                  (with_retries (pending P resp) (u32_of_i32 last.used.total) last.retry_history))
            tr)
  unfolding with_retries pending
  concluded n t tr last resp true e v u s = omega (arith, v.total_fits)
  concluded n t tr last resp false e v u s =
      let total : u32_of_i32 last.used.total ≡ sum t = ap (λ c. u32_of_i32 c.total) u.0 in
      (
        omega arith,
        u.1 ∙ sym total,
        omega (arith, v.total_fits),
        λ yes forced. sym (ap (λ f. f && r.raise_on_status) forced) ∙ e,
      )

  conclude-Post :
      (n : ℕ) (t : Tally) (tr : Trace P) (last : Loop P) (c : Option (Platform.Response P))
      → Fits r t
      → (last.used ≡ counts t) × (length last.retry_history ≡ sum t)
      → sends tr ≡ suc n
      → LoopPost n (sum t) (conclude_with r last c tr)
  unfolding conclude_with
  conclude-Post n t tr last (some resp) v u s = concluded n t tr last resp _ refl v u s
  conclude-Post n t tr last none v u s = omega (arith, v.total_fits)

  -- one request more and one retry more
  shift :
      (n k m l : ℕ) (res : Answer (PendingResponse P) × Trace P)
      → m ≡ suc n
      → l ≡ suc k
      → LoopPost m l res
      → LoopPost n k res
  shift n k m l (returned p, tr) a b h = (omega (arith, h.0), h.1, h.2, h.3)
  shift n k m l (failed starved, tr) a b h = h
  shift n k m l (failed panicked, tr) a b h = omega arith
  shift n k m l (failed (raised e), tr) a b h = omega arith

module _ {P : Platform} (E : Env P) (semaphore : Option ℕ) (r : Retry P) (request : HttpRequest P)
    (start : ℕ) where
  abbrev retryable : Bool
  retryable = allows_method r request.method

  next_Post :
      (fuel n : ℕ) (t : Tally) (res : Answer (Step P) × Trace P)
      → Fits r t
      → Counted n res
      → Holds (StepPost r retryable t) res
      → ((next : Loop P) (tr : Trace P)
          → Continues r retryable t next
          → sends tr ≡ suc n
          → LoopPost r retryable n (sum t) (retry_loop E semaphore r request start fuel next tr))
      → LoopPost r retryable n (sum t) (
          resume
            (λ step. elim step [
              | done p ↦ pure p
              | again next ↦ retry_loop E semaphore r request start fuel next
              | broken last ↦ conclude r last
            ])
            res)
  next_Post fuel n t (returned (done p), tr) v c h go =
      (omega (arith, h.0.0), h.0.1 ∙ sym h.0.0, omega (arith, h.0.0, v.total_fits), h.1)
  next_Post fuel n t (returned (again next), tr) v c h go = go next tr h c
  next_Post fuel n t (returned (broken last), tr) v c h go =
      conclude-Post r retryable n t tr last last.current_response v h c
  next_Post fuel n t (failed starved, tr) v c h go = h
  next_Post fuel n t (failed panicked, tr) v c h go = omega (arith, v.total_fits)
  next_Post fuel n t (failed (raised e), tr) v c h go = omega (arith, v.total_fits)

  loop-Post :
      (fuel : ℕ) (t : Tally) (st : Loop P) (tr : Trace P)
      → semaphore ≢ some 0
      → limit r.total ≤ i32_max
      → Fits r t
      → limit r.total < fuel + sum t
      → (retryable ≡ false → sum t ≡ 0)
      → st.used ≡ counts t
      → length st.retry_history ≡ sum t - 1
      → LoopPost r retryable (sends tr) (sum t) (retry_loop E semaphore r request start fuel st tr)
  unfolding retry_loop ◌>>=◌
  loop-Post zero t st tr permits bounded v f first u l = absurd (omega (arith, v.total_fits))
  loop-Post (suc fuel) t st tr permits bounded v f first u l =
      next_Post fuel (sends tr) t (turn E semaphore r request start st tr) v
        (turn-Once E semaphore r request start st tr)
        (turn-Yields E semaphore r request start t st permits bounded v first u l tr)
        (λ next tr' c s.
          let one_more = sum-bump t c.kind in
          shift r retryable (sends tr) (sum t) (sends tr') (sum (bump t c.kind)) _ s
            (omega (arith, one_more))
            (loop-Post fuel (bump t c.kind) next tr' permits bounded c.fits
              (omega (arith, one_more)) (λ denied. absurd (true≢false (sym c.may_retry ∙ denied)))
              c.counted (omega (arith, one_more, c.noted_all))))

-- one request, and the response as it came
abbrev pub SinglePost : {P : Platform} → ℕ → Answer (PendingResponse P) × Trace P → Type 0
SinglePost {P} n (returned p, tr) =
    (sends tr ≡ suc n) × ((resp : Platform.Response P) × (p ≡ pending P resp))
SinglePost n (failed e, tr) = sends tr ≤ suc n

module _ {P : Platform} (E : Env P) (semaphore : Option ℕ) (r : Retry P)
    (request : HttpRequest P) where
  -- With retries configured, a total limit that fits an `i32`, and no limit of connections or one
  -- above 0, sending always ends: it gives an answer, an error or a panic, after at most as many
  -- requests as the limit and one more. An answer reports in `num_retries` exactly the requests
  -- after the first, within the limit, with one entry of the history for each; and for a method
  -- that may be retried, an answer whose status is in `status_forcelist` is given only where
  -- `raise_on_status` is off.
  pub send_with_retries-LoopPost :
      (tr : Trace P)
      → semaphore ≢ some 0
      → limit r.total ≤ i32_max
      → LoopPost r
          (allows_method r request.method)
          (sends tr)
          0
          (send_with_retries E semaphore r request tr)
  unfolding send_with_retries now ◌>>=◌
  send_with_retries-LoopPost tr permits bounded =
      loop-Post E semaphore r request (Env.clock E tr) (suc (pos_part r.total)) no_tally
        (first_loop P) (looked ∷ tr) permits bounded (no_tally-Fits r) (omega arith)
        (λ denied. refl) refl refl

  final_turn :
      (start fuel n : ℕ) (res : Answer (Step P) × Trace P)
      → Counted n res
      → Holds IsFinal res
      → SinglePost n (
          resume
            (λ step. elim step [
              | done p ↦ pure p
              | again next ↦ retry_loop E semaphore r request start fuel next
              | broken last ↦ conclude r last
            ])
            res)
  final_turn start fuel n (returned (done p), tr) c h = (c, h)
  final_turn start fuel n (returned (again next), tr) c h = absurd h
  final_turn start fuel n (returned (broken last), tr) c h = absurd h
  final_turn start fuel n (failed e, tr) c h = c

  -- A method that is not among `allowed_methods` is sent once where the limit of connections, if any,
  -- is above 0: no end takes a second request, and an answer is the response as it came, which
  -- reports no retries, whatever its status.
  pub send_with_retries-SinglePost :
      (tr : Trace P)
      → semaphore ≢ some 0
      → allows_method r request.method ≡ false
      → SinglePost (sends tr) (send_with_retries E semaphore r request tr)
  unfolding send_with_retries retry_loop now ◌>>=◌
  send_with_retries-SinglePost tr permits denied =
      let start = Env.clock E tr in
      final_turn start (pos_part r.total) (sends tr)
        (turn E semaphore r request start (first_loop P) (looked ∷ tr))
        (turn-Once E semaphore r request start (first_loop P) (looked ∷ tr))
        (turn-IsFinal E semaphore r request start (first_loop P) permits denied (looked ∷ tr))
