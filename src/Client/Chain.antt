-- ===== src/Client/Chain.antt =====
-- The redirect loop of crates/rqx-core/src/client.rs: its end, and the requests it sends.
use rqx.Base.{
  ◌≢◌, ℕ, zero, suc, ◌+◌, ◌*◌, ◌≤◌, ◌<◌, max, Text, Bool, true, false, Option, none, some, List,
  is_empty, leb, ◌≡◌, refl, sym, ◌∙◌, true≢false, arith,
}
use rqx.Base.Dict.{Dict}
use rqx.Base.Int.{i32_max}
use rqx.Error.{RqxCoreError}
use rqx.Platform.{Platform, HttpRequest}
use rqx.Network.{
  Env, Trace, Answer, returned, failed, raised, panicked, starved, M, pure, ◌>>=◌, ok_or, call,
}
use rqx.Network.Counting.{sends, Holds, Within, bind-Within, if-Within}
use rqx.Redirect.{redirect_target}
use rqx.Response.{PendingResponse, with_retries}
use rqx.Retry.{Retry}
use rqx.Retry.Budget.{limit}
use rqx.Transport.{execute, send_raw, send}
use rqx.Transport.Telemetry.{LoopPost, send_with_retries-LoopPost}
use rqx.Client.{
  add_u32, Client, Hops, Hop, arrived, onward, accumulate_cookies, is_redirection, give_up, advance,
  arrive, hop_once, redirect_loop, follow_redirects, first_hop,
}

-- the most requests that one call of `send` makes
abbrev pub attempts : {P : Platform} → Option (Retry P) → ℕ
attempts none = 1
attempts (some r) = limit r.total + 1

-- the limit is an `i32`
abbrev pub FitsWidth : {P : Platform} → Option (Retry P) → Type 0
FitsWidth none = Unit {0}
FitsWidth (some r) = limit r.total ≤ i32_max

module _ {P : Platform} (E : Env P) where
  Within-LoopPost :
      (r : Retry P) (retryable : Bool) (n : ℕ) (res : Answer (PendingResponse P) × Trace P)
      → LoopPost r retryable n 0 res
      → (sends res.1 ≤ n + (limit r.total + 1)) × Holds (λ a. Unit {0}) res
  Within-LoopPost r retryable n (returned p, tr) h = (omega (arith, h.0, h.2), tt)
  Within-LoopPost r retryable n (failed starved, tr) h = absurd h
  Within-LoopPost r retryable n (failed panicked, tr) h = (omega arith, tt)
  Within-LoopPost r retryable n (failed (raised e), tr) h = (omega arith, tt)

  raw-Within :
      (semaphore : Option ℕ) (request : HttpRequest P)
      → semaphore ≢ some 0
      → Within 1 (λ a. Unit {0}) (send_raw E semaphore request)
  unfolding send_raw execute call ◌>>=◌
  raw-Within none request permits tr = (ground arith, ground arith)
  raw-Within (some zero) request permits tr = absurd (permits refl)
  raw-Within (some (suc n)) request permits tr = (ground arith, ground arith)

  pub send-Within :
      (semaphore : Option ℕ) (retries : Option (Retry P)) (request : HttpRequest P)
      → semaphore ≢ some 0
      → FitsWidth retries
      → Within (attempts retries) (λ a. Unit {0}) (send E semaphore retries request)
  unfolding send
  send-Within semaphore none request permits bounded tr =
      bind-Within 1 0 (λ a. Unit {0}) _ _ _ (raw-Within semaphore request permits)
        (λ resp u tr'. (omega arith, tt)) tr
  send-Within semaphore (some r) request permits bounded tr =
      Within-LoopPost r _ _ _ (send_with_retries-LoopPost E semaphore r request tr permits bounded)

  ok_or-Within :
      {A : Type 0} (o : Option A) (e : RqxCoreError) → Within 0 (λ a. Unit {0}) (ok_or {P = P} o e)
  ok_or-Within none e tr = (omega arith, tt)
  ok_or-Within (some a) e tr = (omega arith, tt)

  module _ (client : Client P) where
    -- how a hop ends: with a redirection only where the configuration says so, or below the limit
    abbrev HopPost : Hops P → Hop P → Type 0
    HopPost h (arrived p) =
        is_redirection p.parts.status_code ≡ true → client.redirects.raise_on_exceeded ≡ false
    HopPost h (onward next) =
        (next.redirects_used ≡ add_u32 h.redirects_used 1)
        × (leb client.redirects.max_redirects (add_u32 h.redirects_used 1) ≡ false)

    give_up-Within :
        (h : Hops P) (p : PendingResponse P) → Within 0 (HopPost h) (give_up E client p)
    unfolding give_up
    give_up-Within h p =
        if-Within 0 _ client.redirects.raise_on_exceeded _ _ (λ e tr. (omega arith, tt))
          (λ e tr. (omega arith, λ red. e))

    advance-Within :
        (h : Hops P) (hop : PendingResponse P) (retries : ℕ)
        (history : List (Text × Platform.F64 P))
        → leb client.redirects.max_redirects (add_u32 h.redirects_used 1) ≡ false
        → Within 0 (HopPost h) (advance E client h hop retries history)
    unfolding advance redirect_target
    advance-Within h hop retries history below =
        bind-Within 0 0 (λ a. Unit {0}) _ _ _ (ok_or-Within _ _)
          (λ location a.
            bind-Within 0 0 (λ a. Unit {0}) _ _ _ (λ tr. (omega arith, tt))
              (λ u b.
                bind-Within 0 0 (λ a. Unit {0}) _ _ _ (ok_or-Within _ _)
                  (λ url c tr. (omega arith, (refl, below)))))

    accumulate_cookies-Within :
        (cookies : Dict Text) → Within 0 (λ a. Unit {0}) (accumulate_cookies {P = P} cookies)
    unfolding accumulate_cookies
    accumulate_cookies-Within cookies =
        if-Within 0 _ (is_empty cookies) _ _ (λ e tr. (omega arith, tt)) (λ e tr. (omega arith, tt))

    arrive-Within :
        (h : Hops P) (hop : PendingResponse P) → Within 0 (HopPost h) (arrive E client h hop)
    unfolding arrive with_retries
    arrive-Within h hop =
        if-Within 0 _ (is_redirection hop.parts.status_code) _ _
          (λ red.
            bind-Within 0 0 (λ a. Unit {0}) _ _ _ (accumulate_cookies-Within hop.parts.cookies)
              (λ u a.
                if-Within 0 _ (leb client.redirects.max_redirects (add_u32 h.redirects_used 1)) _ _
                  (λ limit_met. give_up-Within h _) (λ below. advance-Within h hop _ _ below)))
          (λ direct tr. (omega arith, λ red. absurd (true≢false (sym red ∙ direct))))

    hop_once-Within :
        (h : Hops P)
        → client.semaphore ≢ some 0
        → FitsWidth client.retries
        → Within (attempts client.retries) (HopPost h) (hop_once E client h)
    unfolding hop_once
    hop_once-Within h permits bounded tr =
        let k = attempts client.retries in
        let rest =
          bind-Within 0 (k + 0) (λ a. Unit {0}) (HopPost h) _ _ (ok_or-Within _ _)
            (λ outgoing a.
              bind-Within k 0 (λ a. Unit {0}) (HopPost h) _ _
                (send-Within client.semaphore client.retries outgoing permits bounded)
                (λ hop b. arrive-Within h hop))
            tr in
        (omega (arith, rest.0), rest.1)

    abbrev pub AnswerPost : PendingResponse P → Type 0
    AnswerPost p =
        is_redirection p.parts.status_code ≡ true → client.redirects.raise_on_exceeded ≡ false

    step-Within :
        (fuel : ℕ) (h : Hops P) (step : Hop P)
        → HopPost h step
        → ((next : Hops P)
            → next.redirects_used ≡ add_u32 h.redirects_used 1
            → leb client.redirects.max_redirects (add_u32 h.redirects_used 1) ≡ false
            → Within (fuel * attempts client.retries) AnswerPost (redirect_loop E client fuel next))
        → Within {P = P}
            (fuel * attempts client.retries)
            AnswerPost
            (elim step as (λ x. M P (PendingResponse P)) [
              | arrived p ↦ pure p
              | onward next ↦ redirect_loop E client fuel next
            ])
    step-Within fuel h (arrived p) post go tr = (omega arith, post)
    step-Within fuel h (onward next) post go tr = go next post.0 post.1 tr

    -- a redirect below the limit
    below_limit :
        (used limit : ℕ)
        → used + 1 < 4294967296
        → leb limit (add_u32 used 1) ≡ false
        → (add_u32 used 1 ≡ used + 1) × (used + 1 < limit)
    below_limit used limit fits below = (omega arith, ground arith)

    redirect_loop-Within :
        (fuel : ℕ) (h : Hops P)
        → client.semaphore ≢ some 0
        → FitsWidth client.retries
        → client.redirects.max_redirects < 4294967296
        → 0 < fuel
        → h.redirects_used + 1 < 4294967296
        → client.redirects.max_redirects ≤ h.redirects_used + fuel
        → Within (fuel * attempts client.retries) AnswerPost (redirect_loop E client fuel h)
    unfolding redirect_loop
    redirect_loop-Within zero h permits bounded width live used f tr = absurd (omega arith)
    redirect_loop-Within (suc fuel) h permits bounded width live used f tr =
        let k = attempts client.retries in
        let rest =
          bind-Within k (fuel * k) (HopPost h) AnswerPost _ _ (hop_once-Within h permits bounded)
            (λ step post. step-Within fuel h step post (λ next e below.
              let b = below_limit h.redirects_used client.redirects.max_redirects used below in
              redirect_loop-Within fuel next permits bounded width (omega (arith, b.1))
                (omega (arith, e, b.0, b.1)) (omega (arith, e, b.0))))
            tr in
        (omega (arith, rest.0), rest.1)

    -- Where the total limit of retries fits an `i32` and `max_redirects` a `u32`, and there is no
    -- limit of connections or one above 0, following redirects always ends, within as many
    -- requests as `max_redirects` hops (one at least) of as many requests each as the retries
    -- allow; the answer is a redirection (3xx) only where `raise_on_exceeded` is off.
    pub follow_redirects-Within :
        (request : HttpRequest P)
        → client.semaphore ≢ some 0
        → FitsWidth client.retries
        → client.redirects.max_redirects < 4294967296
        → Within
            (max 1 client.redirects.max_redirects * attempts client.retries)
            AnswerPost
            (follow_redirects E client request)
    unfolding follow_redirects
    follow_redirects-Within request permits bounded width =
        redirect_loop-Within (max 1 client.redirects.max_redirects) (first_hop request) permits
          bounded width (omega arith) (omega arith) (omega arith)
