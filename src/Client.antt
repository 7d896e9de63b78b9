-- ===== src/Client.antt =====
-- crates/rqx-core/src/client.rs: sending a built request, with redirects and the cookie jar.
pub mod Chain
pub mod Cookies
pub mod Building
use rqx.Base.{
  ℕ, zero, suc, ◌+◌, ◌-◌, ◌%◌, max, Text, text, display_nat, Bool, true, false, ◌&&◌, Option, none,
  some, List, [], ◌∷◌, ◌++◌, is_empty, leb, ltb, if◌then◌else◌,
}
use rqx.Base.Dict.{Dict, extend}
use rqx.Error.{RqxCoreError, request_error, remote_protocol_error, too_many_redirects}
use rqx.Platform.{Platform, HttpRequest}
use rqx.Network.{
  Env, Event, looked, drew, slept, drained, acquired, released, sent, stored, Trace, starved, Unit₁,
  unit, M, pure, fail, raise, ◌>>=◌, ◌>>◌, emit, ok_or, now,
}
use rqx.Redirect.{RedirectPolicy, redirect_target, redirected_request}
use rqx.Response.{PendingResponse, with_retries, get_first}
use rqx.Retry.{Retry}
use rqx.Transport.{send}

-- `a + b` on `u32`
abbrev pub add_u32 : ℕ → ℕ → ℕ
add_u32 a b = (a + b) % 4294967296

abbrev pub is_redirection : ℕ → Bool
is_redirection code = leb 300 code && ltb code 400

-- the parts of a `Client` that sending reads
pub record Client (P : Platform) : Type 0 where
  pub semaphore : Option ℕ
  pub retries : Option (Retry P)
  pub redirects : RedirectPolicy

-- the variables of the redirect loop
pub record Hops (P : Platform) : Type 0 where
  pub request : HttpRequest P
  pub redirects_used : ℕ
  pub num_retries : ℕ
  pub retry_history : List (Text × Platform.F64 P)

abbrev pub first_hop : {P : Platform} → HttpRequest P → Hops P
first_hop request = record {
  request = request;
  redirects_used = 0;
  num_retries = 0;
  retry_history = [];
}

-- how a hop ends
pub data Hop (P : Platform) : Type 0 where
  arrived : PendingResponse P → Hop P
  onward : Hops P → Hop P

-- the jar after the events, from the jar before them
unfoldable pub jar : {P : Platform} → Dict Text → Trace P → Dict Text
jar before [] = before
jar before (stored cookies ∷ tr) = extend (jar before tr) cookies
jar before (looked ∷ tr) = jar before tr
jar before (drew ∷ tr) = jar before tr
jar before (slept time ∷ tr) = jar before tr
jar before (drained resp ∷ tr) = jar before tr
jar before (acquired ∷ tr) = jar before tr
jar before (released ∷ tr) = jar before tr
jar before (sent request ∷ tr) = jar before tr

module _ {P : Platform} where
  unfoldable pub accumulate_cookies : Dict Text → M P Unit₁
  accumulate_cookies cookies = if is_empty cookies then pure unit else emit (stored cookies)

  module _ (E : Env P) (client : Client P) where
    -- the answer at the limit of redirects
    unfoldable pub give_up : PendingResponse P → M P (Hop P)
    give_up answer =
        if client.redirects.raise_on_exceeded
        then raise (
            too_many_redirects
              (text "Exceeded max redirects " ++ display_nat client.redirects.max_redirects))
        else pure (arrived answer)

    -- the next hop, where the response says
    unfoldable pub advance :
        Hops P → PendingResponse P → ℕ → List (Text × Platform.F64 P) → M P (Hop P)
    advance h hop retries history = do
      location ←
          ok_or (get_first P hop.parts.headers (text "location"))
            (remote_protocol_error (text "3xx response missing Location header"))
      emit (drained hop.response)
      url ← redirect_target P h.request.url location
      pure (
          onward (record {
            request = redirected_request P h.request hop.parts.status_code url;
            redirects_used = add_u32 h.redirects_used 1;
            num_retries = retries;
            retry_history = history;
          }))

    -- what follows a hop's response
    unfoldable pub arrive : Hops P → PendingResponse P → M P (Hop P)
    arrive h hop =
        let retries = add_u32 h.num_retries hop.parts.num_retries in
        let history = h.retry_history ++ hop.parts.retry_history in
        let answer = with_retries hop retries history in
        if is_redirection hop.parts.status_code
        then (do
          accumulate_cookies hop.parts.cookies
          if leb client.redirects.max_redirects (add_u32 h.redirects_used 1)
              then give_up answer
              else advance h hop retries history)
        else pure (arrived answer)

    unfoldable pub hop_once : Hops P → M P (Hop P)
    hop_once h = do
      outgoing ←
          ok_or (Env.try_clone E h.request) (request_error (text "Request body cannot be replayed"))
      hop ← send E client.semaphore client.retries outgoing
      arrive h hop

    -- the redirect loop, at most `fuel` hops of it
    unfoldable pub redirect_loop : ℕ → Hops P → M P (PendingResponse P)
    redirect_loop zero h = fail starved
    redirect_loop (suc fuel) h = hop_once h >>= λ step. elim step [
      | arrived p ↦ pure p
      | onward next ↦ redirect_loop fuel next
    ]

    unfoldable pub follow_redirects : HttpRequest P → M P (PendingResponse P)
    follow_redirects request =
        redirect_loop (max 1 client.redirects.max_redirects) (first_hop request)

    -- `Client::send`
    unfoldable pub send_request : HttpRequest P → Bool → M P (PendingResponse P)
    send_request request follow = do
      start ← now E
      pending ←
          if follow
          then follow_redirects request
          else send E client.semaphore client.retries request
      accumulate_cookies pending.parts.cookies
      time ← now E
      pure (record pending { parts = record pending.parts { elapsed = time - start } })
