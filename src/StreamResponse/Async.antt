-- ===== src/StreamResponse/Async.antt =====
-- `PyAsyncStreamResponse` of crates/rqx/src/stream.rs. Its tasks take turns at the mutex of the body:
-- each constructor of `Step` is one critical section, and `aread` has two, with the network between
-- them.
pub mod Closing
use rqx.Base.{Text, text, Bool, true, false, List, [], ◌∷◌, ◌++◌, Option, none, some, ◌≡◌}
use rqx.Error.{RqxCoreError}
use rqx.Exceptions.{PyErr, PyResult, py_ok, py_err, new_err, core_err}
use rqx.Exceptions.Classes
use rqx.Streaming.Chunking.{ByteString}
use rqx.Streaming.LiveStream.{LiveStream, Chunk}
use rqx.StreamResponse.{
  Body, live, streaming, buffered, StreamResponse, closed_error, consumed_error, start_stream,
  close, from_pending,
}

-- where a call of `aread` stands after its first critical section
pub data Taken (E : Type 0) : Type 0 where
  awaits : List (Chunk E) → Taken E
  returns : PyResult ByteString → Taken E

abbrev pub aread_error : PyErr
aread_error = new_err Classes.response_not_read (text "response not read; call aread() first")

-- the response, and the calls of `aread` that hold the live body while they wait on the network
pub record AsyncResponse (E : Type 0) : Type 0 where
  pub shared : StreamResponse E
  pub in_flight : List (List (Chunk E))

module _ {E : Type 0} where
  -- `aread` up to the await: the live body is taken, and nothing stands in its place
  unfoldable pub take_live : StreamResponse E → Taken E × StreamResponse E
  take_live r = elim r.body [
    | some (live response) ↦ (awaits response, record r { body = none })
    | some (buffered bytes) ↦ (returns (py_ok bytes), r)
    | some streaming ↦ (returns (py_err consumed_error), r)
    | none ↦ (returns (py_err closed_error), r)
  ]

  -- `aread` from the await on, when the network gave the whole body
  unfoldable pub store : ByteString → StreamResponse E → StreamResponse E
  store bytes r = record r { body = some (buffered bytes) }

  -- `aclose`; `take_body` is the first half of it, for `__aexit__`
  abbrev pub aclose : AsyncResponse E → AsyncResponse E
  aclose w = record w { shared = close w.shared }

  -- `start_stream`, for `aiter_bytes`, `aiter_text` and `aiter_lines`
  abbrev pub start_streaming : AsyncResponse E → PyResult (LiveStream E) × AsyncResponse E
  start_streaming w = let (result, r) = start_stream w.shared in (result, record w { shared = r })

  unfoldable pub stored_bytes : AsyncResponse E → PyResult ByteString
  stored_bytes w = elim w.shared.body [
    | some (buffered bytes) ↦ py_ok bytes
    | some (live response) ↦ py_err aread_error
    | some streaming ↦ py_err aread_error
    | none ↦ py_err closed_error
  ]

  -- `decode` is `ResponseParts::text`, which decodes with encoding_rs.
  unfoldable pub stored_text : (ByteString → Text) → AsyncResponse E → PyResult Text
  stored_text decode w = elim (stored_bytes w) [
    | py_ok bytes ↦ py_ok (decode bytes)
    | py_err e ↦ py_err e
  ]

  pub data Step (w : AsyncResponse E) : AsyncResponse E → Type 0 where
    -- `aread` takes the live body
    begin_read :
        (chunks : List (Chunk E)) (r : StreamResponse E)
        → take_live w.shared ≡ (awaits chunks, r)
        → Step w (record { shared = r; in_flight = chunks ∷ w.in_flight })
    -- `aread` returns or raises at once
    read_at_once :
        (result : PyResult ByteString) (r : StreamResponse E)
        → take_live w.shared ≡ (returns result, r)
        → Step w (record w { shared = r })
    -- the network gave a call of `aread` its body
    end_read :
        (before after : List (List (Chunk E))) (chunks : List (Chunk E)) (bytes : ByteString)
        → w.in_flight ≡ before ++ chunks ∷ after
        → Step w (record { shared = store bytes w.shared; in_flight = before ++ after })
    -- the network broke the body, and the call raises
    fail_read :
        (before after : List (List (Chunk E))) (chunks : List (Chunk E)) (e : E)
        → w.in_flight ≡ before ++ chunks ∷ after
        → Step w (record w { in_flight = before ++ after })
    -- `aclose`, and `__aexit__`
    close_response : Step w (aclose w)
    -- `aiter_bytes`, `aiter_text` and `aiter_lines`
    iterate : Step w (start_streaming w).1

  pub data Reach : AsyncResponse E → AsyncResponse E → Type 0 where
    stay : {w : AsyncResponse E} → Reach w w
    step : {w v u : AsyncResponse E} → Step w v → Reach v u → Reach w u

  -- `from_pending`
  abbrev pub pending_response : List (Chunk E) → AsyncResponse E
  pending_response chunks = record { shared = from_pending chunks; in_flight = [] }
