-- ===== src/StreamContext/Async.antt =====
-- `PyAsyncStreamContext` of crates/rqx/src/stream_context.rs, what `AsyncClient.stream()` returns. The
-- future of `__aenter__` fills the slot that `__aexit__` empties; `handle` is what `RUNTIME.handle`
-- gives.
use rqx.Base.{text, Bool, true, List, [], Option, none, some, ◌≡◌, refl, arith}
use rqx.Error.{Result, ok, err, stream_error}
use rqx.Exceptions.{PyResult, py_ok, py_err, core_err}
use rqx.HttpConfig.{take_unsent}
use rqx.Streaming.LiveStream.{Chunk}
use rqx.StreamResponse.{is_closed}
use rqx.StreamResponse.Async.{AsyncResponse, aclose, Reach, pending_response}
use rqx.StreamResponse.Async.Closing.{Reach-close}

pub record AsyncContext (U E : Type 0) : Type 0 where
  pub unsent : Option U
  pub response : Option (AsyncResponse E)

-- a call that makes an awaitable of a computation on the context
abbrev pub Enter : Type 0 → Type 0 → Type 0
Enter U E = AsyncContext U E → PyResult (AsyncResponse E) × AsyncContext U E

module _ {U E : Type 0} where
  -- the future of `__aenter__`, once the request was answered
  unfoldable pub fill : Result (List (Chunk E)) → Enter U E
  fill (err e) context = (py_err (core_err e), context)
  fill (ok chunks) context = (
    py_ok (pending_response chunks),
    record context { response = some (pending_response chunks) },
  )

  -- what is spawned, if the runtime is there
  unfoldable pub spawn : PyResult (Unit {0}) → Result (List (Chunk E)) → Enter U E
  spawn (py_err e) answer context = (py_err e, context)
  spawn (py_ok u) answer context = fill answer context

  unfoldable pub send_unsent :
      (U → Result (List (Chunk E))) → PyResult (Unit {0}) → Result U × Option U → Enter U E
  send_unsent send handle (err e, slot) context =
      (py_err (core_err e), record context { unsent = slot })
  send_unsent send handle (ok unsent, slot) context =
      spawn handle (send unsent) (record context { unsent = slot })

  -- `__aenter__`, awaited
  unfoldable pub aenter : (U → Result (List (Chunk E))) → PyResult (Unit {0}) → Enter U E
  aenter send handle context = send_unsent send handle (take_unsent context.unsent) context

  -- `__aexit__`, awaited on a runtime that is there: the response that was closed, if there was one
  unfoldable pub aexit : AsyncContext U E → Option (AsyncResponse E) × AsyncContext U E
  aexit context = elim context.response [
    | none ↦ (none, context)
    | some r ↦ (some (aclose r), record context { response = none })
  ]

  -- A context that was entered.
  record IsEntered (context : AsyncContext U E) (r : AsyncResponse E) : Type 0 where
    holds : context.response ≡ some r
    spent : context.unsent ≡ none

  fill-IsEntered :
      (answer : Result (List (Chunk E))) (context after : AsyncContext U E) (r : AsyncResponse E)
      → context.unsent ≡ none
      → fill answer context ≡ (py_ok r, after)
      → IsEntered after r
  unfolding fill
  fill-IsEntered (err e) context after r spent h = ground arith
  fill-IsEntered (ok chunks) context after r spent h = record {
    holds = ground arith;
    spent = ground arith;
  }

  aenter-IsEntered :
      (send : U → Result (List (Chunk E))) (handle : PyResult (Unit {0})) (unsent : Option U)
      (before : Option (AsyncResponse E)) (after : AsyncContext U E) (r : AsyncResponse E)
      → aenter send handle (record { unsent = unsent; response = before }) ≡ (py_ok r, after)
      → IsEntered after r
  unfolding aenter send_unsent spawn take_unsent
  aenter-IsEntered send handle none before after r h = ground arith
  aenter-IsEntered send (py_err e) (some u) before after r h = ground arith
  aenter-IsEntered send (py_ok v) (some u) before after r h =
      fill-IsEntered (send u) (record { unsent = none; response = before }) after r refl h

  aenter-spent :
      (send : U → Result (List (Chunk E))) (handle : PyResult (Unit {0}))
      (context : AsyncContext U E)
      → context.unsent ≡ none
      → (aenter send handle context).0
        ≡ py_err (
            core_err
              (stream_error (text "stream already started; call stream() again for a new request")))
  unfolding aenter send_unsent take_unsent
  aenter-spent send handle context e = ground arith

  -- An `async with` block that is entered has its response, and in whatever state the block leaves it,
  -- if no `aread` waits on the network then, leaving closes it for good, whatever its tasks do; leaving
  -- again does nothing, and entering again raises StreamError.
  pub aenter-aexit :
      (send : U → Result (List (Chunk E))) (handle : PyResult (Unit {0}))
      (context after : AsyncContext U E) (r used later : AsyncResponse E) (locked : Bool)
      → aenter send handle context ≡ (py_ok r, after)
      → used.in_flight ≡ []
      → Reach (aclose used) later
      → let (closed, last) = aexit (record after { response = some used }) in
        (after.response ≡ some r)
        × (closed ≡ some (aclose used))
        × (is_closed locked later.shared ≡ true)
        × ((aexit last).0 ≡ none)
        × ((aenter send handle last).0
            ≡ py_err (
                core_err (
                  stream_error
                    (text "stream already started; call stream() again for a new request"))))
  unfolding aexit
  aenter-aexit send handle context after r used later locked entered quiet outside =
      let h = aenter-IsEntered send handle context.unsent context.response after r entered in
      (
        h.holds,
        refl,
        Reach-close used later locked quiet outside,
        refl,
        aenter-spent send handle (record after { response = none }) h.spent,
      )
