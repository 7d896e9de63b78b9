-- ===== src/Transport/Turn.antt =====
-- One turn of the retry loop of crates/rqx-core/src/transport.rs: what it leaves for the next.
use rqx.Base.{
  ◌≢◌, ℕ, zero, suc, ◌-◌, ◌≤◌, Text, Bool, true, false, Option, none, some, List, [], ◌∷◌, ◌++◌,
  length, length-append, if◌then◌else◌, ◌≡◌, refl, sym, ap, subst, ◌∙◌, arith, ◌/◌, display_nat,
  true≢false,
}
use rqx.Base.Int.{ℤ, pos, negsuc, ltb_ℤ, u32_of_i32, i32_max}
use rqx.Error.{RqxCoreError, display}
use rqx.Error.Convert.{from_net}
use rqx.Platform.{Platform, HttpRequest}
use rqx.Network.{Env, Reply, response, failure, Trace, pure, ok_or, now, draw, call, sleep, ◌>>=◌}
use rqx.Network.Counting.{Holds, Yields, Alive, bind-Yields}
use rqx.Response.{PendingResponse, pending, with_retries, parts_of}
use rqx.Retry.{FailureKind, status, kind_of, count, Retry, allows_another, forces, allows_method}
use rqx.Retry.Budget.{Tally, sum, counts, bump, Fits, limit, count-bump}
use rqx.Transport.{
  Loop, Step, done, again, broken, after, noted, drain, check_timeout, calculated_backoff, pause,
  execute, judge, turn,
}

-- a response that is given in spite of its status is given because the configuration says so
abbrev pub IsWanted : {P : Platform} → Retry P → Bool → PendingResponse P → Type 0
IsWanted {P} r retryable p =
    retryable ≡ true → forces r (Platform.status P p.response) ≡ true → r.raise_on_status ≡ false

-- the answer reports `n` retries
abbrev pub Reports : {P : Platform} → PendingResponse P → ℕ → Type 0
Reports p n = (p.parts.num_retries ≡ n) × (length p.parts.retry_history ≡ n)

module _ {P : Platform} (r : Retry P) (retryable : Bool) where
  pub record Continues (t : Tally) (next : Loop P) : Type 0 where
    pub kind : FailureKind
    pub may_retry : retryable ≡ true
    pub counted : next.used ≡ counts (bump t kind)
    pub fits : Fits r (bump t kind)
    pub noted_all : length next.retry_history ≡ sum t

  abbrev pub StepPost : Tally → Step P → Type 0
  StepPost t (done p) = Reports p (sum t) × IsWanted r retryable p
  StepPost t (again next) = Continues t next
  StepPost t (broken last) = (last.used ≡ counts t) × (length last.retry_history ≡ sum t)

  after_split :
      (kind : FailureKind) (t : Tally) (st : Loop P) (b : Bool)
      → allows_another r kind st.used ≡ b
      → limit r.total ≤ i32_max
      → Fits r t
      → retryable ≡ true
      → st.used ≡ counts t
      → length st.retry_history ≡ sum t
      → StepPost t (if b then again (record st { used = count st.used kind }) else broken st)
  after_split kind t st true e bounded v may u n =
      let next = count-bump r kind t bounded v (ap (allows_another r kind) (sym u) ∙ e) in
      record {
        kind = kind;
        may_retry = may;
        counted = ap (λ c. count c kind) u ∙ next.0;
        fits = next.1;
        noted_all = n;
      }
  after_split kind t st false e bounded v may u n = (u, n)

  after-StepPost :
      (kind : FailureKind) (t : Tally) (st : Loop P)
      → limit r.total ≤ i32_max
      → Fits r t
      → retryable ≡ true
      → st.used ≡ counts t
      → length st.retry_history ≡ sum t
      → StepPost t (after r kind st)
  unfolding after
  after-StepPost kind t st = after_split kind t st (allows_another r kind st.used) refl

noted_split {ℓ} :
    {A : Type ℓ} (hs : List A) (x : A) (n : ℕ)
    → length hs ≡ n - 1
    → length (if ltb_ℤ (pos 0) (pos n) then hs ++ (x ∷ []) else hs) ≡ n
noted_split hs x n l = ground (arith, length-append hs (x ∷ []))

module _ {P : Platform} where
  length-noted :
      (t : Tally) (st : Loop P) (outcome : Text) (elapsed : ℕ)
      → st.used ≡ counts t
      → length st.retry_history ≡ sum t - 1
      → length (noted st outcome elapsed) ≡ sum t
  length-noted t st outcome elapsed u l =
      let x : Text × Platform.F64 P = (outcome, Platform.nat64 P (elapsed / 1000000)) in
      subst
        (λ total.
          length (if ltb_ℤ (pos 0) total then st.retry_history ++ (x ∷ []) else st.retry_history)
          ≡ sum t)
        (sym (ap (λ c. c.total) u)) (noted_split st.retry_history x (sum t) l)

  answer_split :
      (r : Retry P) (t : Tally) (st : Loop P) (resp : Platform.Response P) (b : Bool) (tr : Trace P)
      → forces r (Platform.status P resp) ≡ b
      → limit r.total ≤ i32_max
      → Fits r t
      → st.used ≡ counts t
      → length st.retry_history ≡ sum t
      → Holds (StepPost r true t) (
          (if b
              then pure (after r status st)
              else pure (
                  done (with_retries (pending P resp) (u32_of_i32 st.used.total) st.retry_history)))
            tr)
  unfolding with_retries pending
  answer_split r t st resp true tr e bounded v u l =
      after-StepPost r true status t st bounded v refl u l
  answer_split r t st resp false tr e bounded v u l =
      ((ap (λ c. u32_of_i32 c.total) u, l), λ yes forced. absurd (true≢false (sym forced ∙ e)))

  abbrev pub IsFinal : Step P → Type 0
  IsFinal (done p) = (resp : Platform.Response P) × (p ≡ pending P resp)
  IsFinal (again next) = ⊥
  IsFinal (broken last) = ⊥

  module _ (E : Env P) where
    judge-Yields :
        (r : Retry P) (retryable : Bool) (t : Tally) (st : Loop P) (started : ℕ) (reply : Reply P)
        → limit r.total ≤ i32_max
        → Fits r t
        → (retryable ≡ false → sum t ≡ 0)
        → st.used ≡ counts t
        → length st.retry_history ≡ sum t - 1
        → Yields (judge E r retryable st started reply) (StepPost r retryable t)
    unfolding judge now ◌>>=◌ pending parts_of
    judge-Yields r true t st started (response resp) bounded v first u l tr =
        answer_split r t
          (record st {
            retry_history =
                noted st (display_nat (Platform.status P resp)) (Env.clock E tr - started);
            current_response = some resp;
          })
          resp (forces r (Platform.status P resp)) _ refl bounded v u (length-noted t st _ _ u l)
    judge-Yields r true t st started (failure e) bounded v first u l tr =
        after-StepPost r true (kind_of (Platform.is_connect P e)) t
          (record st {
            retry_history = noted st (display (from_net P e)) (Env.clock E tr - started);
            current_response = none;
          })
          bounded v refl u (length-noted t st _ _ u l)
    judge-Yields r false t st started (response resp) bounded v first u l tr =
        ((sym (first refl), sym (first refl)), λ yes forced. absurd (true≢false (sym yes)))
    judge-Yields r false t st started (failure e) bounded v first u l tr = tt

    check_timeout-Alive :
        (r : Retry P) (start : ℕ) (attempt : ℤ) → Alive (check_timeout E r start attempt)
    unfolding check_timeout now ◌>>=◌
    check_timeout-Alive r start attempt tr = ground arith

    calculated_backoff-Alive : (r : Retry P) (retries : ℕ) → Alive (calculated_backoff E r retries)
    unfolding calculated_backoff draw ◌>>=◌
    calculated_backoff-Alive r retries tr = ground arith

    sleep-Alive : (x : Platform.F32 P) → Alive (sleep P x)
    unfolding sleep
    sleep-Alive x tr = ground arith

    pause-Alive :
        (r : Retry P) (attempt : ℤ) (current : Option (Platform.Response P))
        → Alive (pause E r attempt current)
    unfolding pause
    pause-Alive r (pos zero) current tr = tt
    pause-Alive r (pos (suc n)) current tr =
        bind-Yields _ _ _ (calculated_backoff-Alive r n) (λ x. sleep-Alive _) tr
    pause-Alive r (negsuc n) current tr = tt

    drain-Alive : (current : Option (Platform.Response P)) → Alive (drain {P = P} current)
    unfolding drain
    drain-Alive none tr = tt
    drain-Alive (some old) tr = tt

    now-Alive : Alive (now E)
    unfolding now
    now-Alive tr = tt

    ok_or-Alive : {A : Type 0} (o : Option A) (e : RqxCoreError) → Alive (ok_or {P = P} o e)
    ok_or-Alive none e tr = tt
    ok_or-Alive (some a) e tr = tt

    execute-Alive :
        (semaphore : Option ℕ) (request : HttpRequest P)
        → semaphore ≢ some 0
        → Alive (execute E semaphore request)
    unfolding execute call ◌>>=◌
    execute-Alive none request permits tr = tt
    execute-Alive (some zero) request permits tr = absurd (permits refl)
    execute-Alive (some (suc n)) request permits tr = tt

    -- what the reading of a reply ensures, the turn ensures
    turn-judge :
        (semaphore : Option ℕ) (r : Retry P) (request : HttpRequest P) (start : ℕ) (st : Loop P)
        (Q : Step P → Type 0)
        → semaphore ≢ some 0
        → ((started : ℕ) (reply : Reply P)
            → Yields (judge E r (allows_method r request.method) st started reply) Q)
        → Yields (turn E semaphore r request start st) Q
    unfolding turn
    turn-judge semaphore r request start st Q permits h =
        bind-Yields _ _ Q (check_timeout-Alive r start _) (λ a.
          bind-Yields _ _ Q (pause-Alive r _ _) (λ b. bind-Yields _ _ Q (drain-Alive _) (λ c.
            bind-Yields _ _ Q now-Alive (λ started.
              bind-Yields _ _ Q (ok_or-Alive _ _)
                (λ copy. bind-Yields _ _ Q (execute-Alive semaphore copy permits) (h started))))))

    pub turn-Yields :
        (semaphore : Option ℕ) (r : Retry P) (request : HttpRequest P) (start : ℕ) (t : Tally)
        (st : Loop P)
        → semaphore ≢ some 0
        → limit r.total ≤ i32_max
        → Fits r t
        → (allows_method r request.method ≡ false → sum t ≡ 0)
        → st.used ≡ counts t
        → length st.retry_history ≡ sum t - 1
        → Yields
            (turn E semaphore r request start st)
            (StepPost r (allows_method r request.method) t)
    turn-Yields semaphore r request start t st permits bounded v first u l =
        turn-judge semaphore r request start st _ permits
          (λ started reply. judge-Yields r _ t st started reply bounded v first u l)

    judge_once :
        (r : Retry P) (retryable : Bool) (st : Loop P) (started : ℕ) (reply : Reply P)
        → retryable ≡ false
        → Yields (judge E r retryable st started reply) IsFinal
    unfolding judge
    judge_once r true st started reply denied tr = absurd (true≢false denied)
    judge_once r false st started (response resp) denied tr = (resp, refl)
    judge_once r false st started (failure e) denied tr = tt

    -- a method that may not be retried ends the loop with the response as it came
    pub turn-IsFinal :
        (semaphore : Option ℕ) (r : Retry P) (request : HttpRequest P) (start : ℕ) (st : Loop P)
        → semaphore ≢ some 0
        → allows_method r request.method ≡ false
        → Yields (turn E semaphore r request start st) IsFinal
    turn-IsFinal semaphore r request start st permits denied =
        turn-judge semaphore r request start st _ permits
          (λ started reply. judge_once r _ st started reply denied)
