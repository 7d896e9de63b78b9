-- ===== src/StreamResponse/Runs.antt =====
-- Sequences of calls on one streamed response.
use rqx.Base.{
  Bool, true, false, true≢false, ℕ, zero, suc, ◌+◌, ◌≤◌, Text, List, [], ◌∷◌, Option, none, some,
  ◌≡◌, refl, ap, subst, sym, ◌∙◌, arith,
}
use rqx.Error.{RqxCoreError}
use rqx.Exceptions.Classes.{ExceptionClass}
use rqx.Streaming.Chunking.{ByteString}
use rqx.Streaming.LiveStream.{LiveStream, Chunk}
use rqx.StreamResponse.{
  Body, live, streaming, buffered, StreamResponse, Received, from_pending, close, is_closed,
}
use rqx.StreamResponse.Phases.{
  Phase, unread, streamed, stored, dropped, Request, reading, iterating_bytes, iterating_text,
  iterating_lines, getting_content, getting_text, closing, Verdict, consumes, gives, closes, raises,
  start, start_sized, give, read_all, answer, phase, phase_of_body, perform, perform_all,
  perform-Follows, IsOf, broken_by,
}

-- the verdicts of the machine
unfoldable pub answer_all : Option ExceptionClass → List Request → Phase → List Verdict × Phase
answer_all broken_by [] p = ([], p)
answer_all broken_by (request ∷ requests) p =
    let (v, next) = answer broken_by request p in
    let (vs, last) = answer_all broken_by requests next in (v ∷ vs, last)

module _ {E : Type 0} (from_reqwest : E → RqxCoreError) (all_bytes : List (Chunk E) → Received E)
    (decode : ByteString → Text) where
  perform_all-Follows :
      {D : Type 0} (d : D) (requests : List Request) (chunks : List (Chunk E))
      (r : StreamResponse E)
      → IsOf from_reqwest all_bytes decode chunks r.body
      → let (vs, last) = perform_all from_reqwest all_bytes decode d requests r in
        (vs, phase last)
        ≡ answer_all (broken_by from_reqwest all_bytes decode chunks) requests (phase r)
  unfolding perform_all answer_all
  perform_all-Follows d [] chunks r e = refl
  perform_all-Follows d (request ∷ requests) chunks r e =
      let (v, next) = perform from_reqwest all_bytes decode d request r in
      let b = broken_by from_reqwest all_bytes decode chunks in
      let (once, kept) =
        perform-Follows from_reqwest all_bytes decode d request chunks r.body r.handle e in
      let rest = perform_all-Follows d requests chunks next kept in
      ap (λ (x : List Verdict × Phase). (v ∷ x.0, x.1)) rest
      ∙ ap
          (λ (x : Verdict × Phase).
            (x.0 ∷ (answer_all b requests x.1).0, (answer_all b requests x.1).1))
          once

  -- Whatever calls a response gets, in whatever order, it answers as the machine of four phases does
  -- from `unread`, and ends in the machine's phase: `broken_by` says whether the network breaks the
  -- body, and with which class of error.
  pub perform_all-answer_all :
      {D : Type 0} (d : D) (requests : List Request) (chunks : List (Chunk E))
      → let (vs, last) =
          perform_all from_reqwest all_bytes decode d requests (from_pending chunks) in
        (vs, phase last)
        ≡ answer_all (broken_by from_reqwest all_bytes decode chunks) requests unread
  unfolding from_pending
  perform_all-answer_all d requests chunks =
      perform_all-Follows d requests chunks (record { body = _; handle = none }) refl

-- how often the body is taken off the network
abbrev pub consumptions : List Verdict → ℕ
consumptions [] = 0
consumptions (consumes ∷ vs) = suc (consumptions vs)
consumptions (gives ∷ vs) = consumptions vs
consumptions (closes ∷ vs) = consumptions vs
consumptions (raises c ∷ vs) = consumptions vs

-- how often it still can be
abbrev left : Phase → ℕ
left unread = 1
left streamed = 0
left stored = 0
left dropped = 0

abbrev spent : Verdict → ℕ
spent v = consumptions (v ∷ [])

consumptions-cons :
    (v : Verdict) (vs : List Verdict) → consumptions (v ∷ vs) ≡ spent v + consumptions vs
consumptions-cons consumes vs = omega arith
consumptions-cons gives vs = omega arith
consumptions-cons closes vs = omega arith
consumptions-cons (raises c) vs = omega arith

-- A call spends what it may, and no more is left after it.
abbrev IsSpent : Phase → Verdict × Phase → Type 0
IsSpent p step = spent step.0 + left step.1 ≤ left p

start-IsSpent : (p : Phase) → IsSpent p (start p)
start-IsSpent unread = omega arith
start-IsSpent streamed = omega arith
start-IsSpent stored = omega arith
start-IsSpent dropped = omega arith

start_sized-IsSpent : (size : Option ℕ) (p : Phase) → IsSpent p (start_sized size p)
start_sized-IsSpent none p = start-IsSpent p
start_sized-IsSpent (some zero) p = omega arith
start_sized-IsSpent (some (suc n)) p = start-IsSpent p

give-IsSpent : (p : Phase) → IsSpent p (give p)
give-IsSpent unread = omega arith
give-IsSpent streamed = omega arith
give-IsSpent stored = omega arith
give-IsSpent dropped = omega arith

read_all-IsSpent :
    (p : Phase) (broken_by : Option ExceptionClass) → IsSpent p (read_all p broken_by)
read_all-IsSpent unread none = omega arith
read_all-IsSpent unread (some c) = omega arith
read_all-IsSpent streamed b = omega arith
read_all-IsSpent stored b = omega arith
read_all-IsSpent dropped b = omega arith

answer-IsSpent :
    (broken_by : Option ExceptionClass) (request : Request) (p : Phase)
    → IsSpent p (answer broken_by request p)
answer-IsSpent b reading p = read_all-IsSpent p b
answer-IsSpent b (iterating_bytes size) p = start_sized-IsSpent size p
answer-IsSpent b (iterating_text size) p = start_sized-IsSpent size p
answer-IsSpent b iterating_lines p = start-IsSpent p
answer-IsSpent b getting_content p = give-IsSpent p
answer-IsSpent b getting_text p = give-IsSpent p
answer-IsSpent b closing p = omega arith

consumptions-answer_all :
    (broken_by : Option ExceptionClass) (requests : List Request) (p : Phase)
    → consumptions (answer_all broken_by requests p).0 ≤ left p
unfolding answer_all
consumptions-answer_all b [] p = omega arith
consumptions-answer_all b (request ∷ requests) p =
    let (v, next) = answer b request p in
    omega (
      arith,
      consumptions-cons v (answer_all b requests next).0,
      answer-IsSpent b request p,
      consumptions-answer_all b requests next,
    )

-- nothing of the body is given out
abbrev pub IsRefused : List Verdict → Type 0
IsRefused [] = Unit {0}
IsRefused (consumes ∷ vs) = ⊥
IsRefused (gives ∷ vs) = ⊥
IsRefused (closes ∷ vs) = IsRefused vs
IsRefused (raises c ∷ vs) = IsRefused vs

answer_all-IsRefused :
    (broken_by : Option ExceptionClass) (requests : List Request)
    → IsRefused (answer_all broken_by requests dropped).0
      × ((answer_all broken_by requests dropped).1 ≡ dropped)
unfolding answer_all
answer_all-IsRefused b [] = (tt, refl)
answer_all-IsRefused b (reading ∷ requests) = answer_all-IsRefused b requests
answer_all-IsRefused b (iterating_bytes none ∷ requests) = answer_all-IsRefused b requests
answer_all-IsRefused b (iterating_bytes (some zero) ∷ requests) = answer_all-IsRefused b requests
answer_all-IsRefused b (iterating_bytes (some (suc n)) ∷ requests) = answer_all-IsRefused b requests
answer_all-IsRefused b (iterating_text none ∷ requests) = answer_all-IsRefused b requests
answer_all-IsRefused b (iterating_text (some zero) ∷ requests) = answer_all-IsRefused b requests
answer_all-IsRefused b (iterating_text (some (suc n)) ∷ requests) = answer_all-IsRefused b requests
answer_all-IsRefused b (iterating_lines ∷ requests) = answer_all-IsRefused b requests
answer_all-IsRefused b (getting_content ∷ requests) = answer_all-IsRefused b requests
answer_all-IsRefused b (getting_text ∷ requests) = answer_all-IsRefused b requests
answer_all-IsRefused b (closing ∷ requests) = answer_all-IsRefused b requests

abbrev is_kept : Phase → Bool
is_kept unread = true
is_kept streamed = true
is_kept stored = true
is_kept dropped = false

module _ {E : Type 0} (from_reqwest : E → RqxCoreError) (all_bytes : List (Chunk E) → Received E)
    (decode : ByteString → Text) where
  -- Whatever calls a response gets, the body is taken off the network at most once.
  pub consumptions-perform_all :
      {D : Type 0} (d : D) (requests : List Request) (chunks : List (Chunk E))
      → consumptions (perform_all from_reqwest all_bytes decode d requests (from_pending chunks)).0
        ≤ 1
  consumptions-perform_all d requests chunks =
      let whole = perform_all-answer_all from_reqwest all_bytes decode d requests chunks in
      let b = broken_by from_reqwest all_bytes decode chunks in
      subst (λ vs. consumptions vs ≤ 1) (sym (ap (λ (x : List Verdict × Phase). x.0) whole))
        (consumptions-answer_all b requests unread)

  body-close : (r : StreamResponse E) → (close r).body ≡ none
  unfolding close
  body-close r = by_body r.body r.handle
    where
      by_body :
          (body : Option (Body E)) (handle : Option (LiveStream E))
          → (close (record { body = body; handle = handle })).body ≡ none
      by_body none handle = refl
      by_body (some body) handle = refl

  is_closed-dropped :
      (body : Option (Body E)) (handle : Option (LiveStream E)) (locked : Bool)
      → phase_of_body body ≡ dropped
      → is_closed locked (record { body = body; handle = handle }) ≡ true
  unfolding is_closed
  is_closed-dropped none handle locked e = refl
  is_closed-dropped (some (live chunks)) handle locked e = absurd (true≢false (ap is_kept e))
  is_closed-dropped (some streaming) handle locked e = absurd (true≢false (ap is_kept e))
  is_closed-dropped (some (buffered bytes)) handle locked e = absurd (true≢false (ap is_kept e))

  -- Once a response is closed, in whatever state it was, no later call gives any of its body: each
  -- raises, or closes it again, and it stays closed.
  pub perform_all-close :
      {D : Type 0} (d : D) (requests : List Request) (r : StreamResponse E) (locked : Bool)
      → let (vs, last) = perform_all from_reqwest all_bytes decode d requests (close r) in
        IsRefused vs × (is_closed locked last ≡ true)
  perform_all-close d requests r locked =
      let (vs, last) = perform_all from_reqwest all_bytes decode d requests (close r) in
      let b = broken_by from_reqwest all_bytes decode [] in
      let none_left =
        subst (λ body. IsOf from_reqwest all_bytes decode [] body) (sym (body-close r)) tt in
      let whole : (vs, phase last) ≡ answer_all b requests dropped =
        perform_all-Follows from_reqwest all_bytes decode d requests [] (close r) none_left
        ∙ ap (λ body. answer_all b requests (phase_of_body body)) (body-close r) in
      let (refused, end) = answer_all-IsRefused b requests in
      (
        subst IsRefused (sym (ap (λ (x : List Verdict × Phase). x.0) whole)) refused,
        is_closed-dropped last.body last.handle locked
            (ap (λ (x : List Verdict × Phase). x.1) whole ∙ end),
      )
