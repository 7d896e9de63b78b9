-- ===== src/StreamContext/Block.antt =====
-- A `with` block over a streamed response.
use rqx.Base.{◌≤◌, Text, text, false, List, Option, none, some, ◌≡◌, refl, sym, subst, ◌∙◌, arith}
use rqx.Error.{RqxCoreError, stream_error, Result, ok, err}
use rqx.Exceptions.{py_ok, py_err, core_err}
use rqx.HttpConfig.{take_unsent}
use rqx.Streaming.Chunking.{ByteString}
use rqx.Streaming.LiveStream.{Chunk}
use rqx.StreamResponse.{StreamResponse, Received, from_pending, close}
use rqx.StreamResponse.Phases.{Request, perform_all}
use rqx.StreamResponse.Runs.{consumptions, IsRefused, consumptions-perform_all, perform_all-close}
use rqx.StreamContext.{StreamContext, exit_context, begin, send_taken, enter_context}

module _ {U E : Type 0} (send : U → Result (List (Chunk E))) where
  -- A block that is entered has a fresh response, and its request is spent.
  data Entered (r : StreamResponse E) (context : StreamContext U E) : Type 0 where
    entered :
        (pending : List (Chunk E))
        → r ≡ from_pending pending
        → context.unsent ≡ none
        → Entered r context

  begin-Entered :
      (context after : StreamContext U E) (r : StreamResponse E) (answer : Result (List (Chunk E)))
      → context.unsent ≡ none
      → begin send context answer ≡ (py_ok r, after)
      → Entered r after
  unfolding begin
  begin-Entered context after r (ok pending) spent e = entered pending (ground arith) (ground arith)
  begin-Entered context after r (err x) spent e = ground arith

  enter_context-Entered :
      (unsent : Option U) (response : Option (StreamResponse E)) (after : StreamContext U E)
      (r : StreamResponse E)
      → enter_context send (record { unsent = unsent; response = response }) ≡ (py_ok r, after)
      → Entered r after
  unfolding enter_context send_taken take_unsent
  enter_context-Entered none response after r e = ground arith
  enter_context-Entered (some u) response after r e =
      begin-Entered (record { unsent = none; response = response }) after r (send u) refl e

  enter_context-spent :
      (context : StreamContext U E)
      → context.unsent ≡ none
      → (enter_context send context).0
        ≡ py_err (
            core_err
              (stream_error (text "stream already started; call stream() again for a new request")))
  unfolding enter_context send_taken take_unsent
  enter_context-spent context e = ground arith

  exit_context-some :
      (context : StreamContext U E) (r : StreamResponse E)
      → context.response ≡ some r
      → ((exit_context context).0 ≡ some (close r))
        × ((exit_context context).1.unsent ≡ context.unsent)
  unfolding exit_context
  exit_context-some context r e = (ground arith, ground arith)

module _ {U E D : Type 0} (send : U → Result (List (Chunk E))) (from_reqwest : E → RqxCoreError)
    (all_bytes : List (Chunk E) → Received E) (decode : ByteString → Text) (d : D) where
  -- A `with` block that is entered: whatever calls the block makes on its response, they take the body
  -- off the network at most once; leaving the block closes that response, no call after it gives any of
  -- the body, and entering again raises StreamError.
  pub perform_all-exit_context :
      (context after : StreamContext U E) (r : StreamResponse E) (inside outside : List Request)
      → enter_context send context ≡ (py_ok r, after)
      → let (vs, used) = perform_all from_reqwest all_bytes decode d inside r in
        let (closed, last) = exit_context (record after { response = some used }) in
        (consumptions vs ≤ 1)
        × (closed ≡ some (close used))
        × IsRefused (perform_all from_reqwest all_bytes decode d outside (close used)).0
        × ((enter_context send last).0
            ≡ py_err (
                core_err (
                  stream_error
                    (text "stream already started; call stream() again for a new request"))))
  perform_all-exit_context context after r inside outside e =
      let used = (perform_all from_reqwest all_bytes decode d inside r).1 in
      let left = exit_context-some send (record after { response = some used }) used refl in
      elim (enter_context-Entered send context.unsent context.response after r e) [
        | entered pending fresh spent ↦ (
          subst (λ x. consumptions (perform_all from_reqwest all_bytes decode d inside x).0 ≤ 1)
              (sym fresh) (consumptions-perform_all from_reqwest all_bytes decode d inside pending),
          left.0,
          (perform_all-close from_reqwest all_bytes decode d outside used false).0,
          enter_context-spent send _ (left.1 ∙ spent),
        )
      ]
