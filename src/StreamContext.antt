-- ===== src/StreamContext.antt =====
-- crates/rqx/src/stream_context.rs: `PyStreamContext`, what `Client.stream()` returns. `U` is the
-- `Unsent` request, and `send` sends it and gives the body that the network has in store.
pub mod Block
pub mod Async
use rqx.Base.{List, Option, none, some}
use rqx.Error.{Result, ok, err}
use rqx.Exceptions.{PyResult, py_ok, py_err, core_err}
use rqx.HttpConfig.{take_unsent}
use rqx.Streaming.LiveStream.{Chunk}
use rqx.StreamResponse.{StreamResponse, from_pending, close}

pub record StreamContext (U E : Type 0) : Type 0 where
  pub unsent : Option U
  -- the response that the block uses, which is the caller's too
  pub response : Option (StreamResponse E)

module _ {U E : Type 0} where
  unfoldable pub new_context : U → StreamContext U E
  new_context unsent = record { unsent = some unsent; response = none }

  -- `__exit__`: the context without its response, and the response closed
  unfoldable pub exit_context : StreamContext U E → Option (StreamResponse E) × StreamContext U E
  exit_context context = elim context.response [
    | none ↦ (none, context)
    | some r ↦ (some (close r), record context { response = none })
  ]

  module _ (send : U → Result (List (Chunk E))) where
    unfoldable pub begin :
        StreamContext U E
        → Result (List (Chunk E))
        → PyResult (StreamResponse E) × StreamContext U E
    begin context (err e) = (py_err (core_err e), context)
    begin context (ok pending) =
        let r = from_pending pending in (py_ok r, record context { response = some r })

    -- `__enter__`, by what was in the slot
    unfoldable pub send_taken :
        StreamContext U E → Result U × Option U → PyResult (StreamResponse E) × StreamContext U E
    send_taken context (err e, slot) = (py_err (core_err e), record context { unsent = slot })
    send_taken context (ok unsent, slot) = begin (record context { unsent = slot }) (send unsent)

    unfoldable pub enter_context :
        StreamContext U E → PyResult (StreamResponse E) × StreamContext U E
    enter_context context = send_taken context (take_unsent context.unsent)
