-- ===== src/StreamResponse.antt =====
-- crates/rqx-core/src/streaming/body.rs and `PyStreamResponse` of crates/rqx/src/stream.rs: a response
-- whose body is read, iterated or dropped.
pub mod Phases
pub mod Async
pub mod Runs
use rqx.Base.{ℕ, zero, suc, Text, text, Bool, true, false, List, Option, none, some}
use rqx.Error.{RqxCoreError}
use rqx.Exceptions.{PyErr, PyResult, py_ok, py_err, new_err, core_err}
use rqx.Exceptions.Classes
use rqx.Streaming.Chunking.{ByteString}
use rqx.Streaming.LiveStream
use rqx.Streaming.LiveStream.{LiveStream, Chunk}
use rqx.Streaming.Iterator.{ByteIterator, iter_bytes}
use rqx.Streaming.Iterator.LineByLine.{LineIterator, new_lines}
use rqx.Streaming.Iterator.TextPieces.{TextIterator, text_iterator}

-- The stream of `Body::Streaming` is a handle, which the iterator shares; its state stands beside the
-- body.
pub data Body (E : Type 0) : Type 0 where
  live : List (Chunk E) → Body E
  streaming : Body E
  buffered : ByteString → Body E

pub record StreamResponse (E : Type 0) : Type 0 where
  pub body : Option (Body E)
  pub handle : Option (LiveStream E)

-- what `reqwest::Response::bytes` gives
pub data Received (E : Type 0) : Type 0 where
  received : ByteString → Received E
  broken : E → Received E

abbrev pub closed_error : PyErr
closed_error = new_err Classes.stream_closed (text "response closed")

abbrev pub consumed_error : PyErr
consumed_error = new_err Classes.stream_consumed (text "response already consumed")

abbrev pub stored_error : PyErr
stored_error =
    new_err Classes.stream_consumed
      (text "response already read into memory; use .content, .text or .json()")

abbrev pub not_read_error : PyErr
not_read_error = new_err Classes.response_not_read (text "response not read; call read() first")

unfoldable pub checked_chunk_size : Option ℕ → PyResult (Option ℕ)
checked_chunk_size none = py_ok none
checked_chunk_size (some zero) =
    py_err (new_err Classes.value_error (text "chunk_size must be at least 1"))
checked_chunk_size (some (suc n)) = py_ok (some (suc n))

module _ {E : Type 0} where
  -- `from_pending`
  unfoldable pub from_pending : List (Chunk E) → StreamResponse E
  from_pending response = record { body = some (live response); handle = none }

  abbrev close_handle : Option (LiveStream E) → Option (LiveStream E)
  close_handle none = none
  close_handle (some s) = some (LiveStream.close s)

  -- `Body::close_blocking` and `Body::close`
  abbrev pub close_body : Body E → Option (LiveStream E) → Option (LiveStream E)
  close_body (live chunks) handle = handle
  close_body streaming handle = close_handle handle
  close_body (buffered bytes) handle = handle

  unfoldable pub close : StreamResponse E → StreamResponse E
  close r = elim r.body [
    | none ↦ r
    | some body ↦ record { body = none; handle = close_body body r.handle }
  ]

  unfoldable pub start_stream : StreamResponse E → PyResult (LiveStream E) × StreamResponse E
  start_stream r = elim r.body [
    | some (live response) ↦
        let stream = LiveStream.new response in
        (py_ok stream, record { body = some streaming; handle = some stream })
    | some streaming ↦ (py_err consumed_error, r)
    | some (buffered bytes) ↦ (py_err stored_error, r)
    | none ↦ (py_err closed_error, r)
  ]

  -- the value of a call that starts the stream
  abbrev pub iterator :
      {I : Type 0}
      → (LiveStream E → I)
      → PyResult (LiveStream E) × StreamResponse E
      → PyResult I × StreamResponse E
  iterator make (py_ok stream, r) = (py_ok (make stream), r)
  iterator make (py_err e, r) = (py_err e, r)

  unfoldable pub iterate_bytes :
      Option ℕ → StreamResponse E → PyResult (ByteIterator E) × StreamResponse E
  iterate_bytes chunk_size r = elim (checked_chunk_size chunk_size) [
    | py_ok size ↦ iterator (λ stream. iter_bytes stream size) (start_stream r)
    | py_err e ↦ (py_err e, r)
  ]

  unfoldable pub iterate_text :
      {D : Type 0}
      → D
      → Option ℕ
      → StreamResponse E
      → PyResult (TextIterator E D) × StreamResponse E
  iterate_text decoder chunk_size r = elim (checked_chunk_size chunk_size) [
    | py_ok size ↦ iterator (λ stream. text_iterator stream decoder size) (start_stream r)
    | py_err e ↦ (py_err e, r)
  ]

  unfoldable pub iterate_lines :
      {D : Type 0} → D → StreamResponse E → PyResult (LineIterator E D) × StreamResponse E
  iterate_lines decoder r = iterator (λ stream. new_lines stream decoder) (start_stream r)

  -- The source keeps the Python bytes of the buffer, which it makes once.
  unfoldable pub content : StreamResponse E → PyResult ByteString
  content r = elim r.body [
    | some (buffered bytes) ↦ py_ok bytes
    | some (live response) ↦ py_err not_read_error
    | some streaming ↦ py_err not_read_error
    | none ↦ py_err closed_error
  ]

  -- `decode` is `ResponseParts::text`, which decodes with encoding_rs.
  unfoldable pub text_of : (ByteString → Text) → StreamResponse E → PyResult Text
  text_of decode r = elim r.body [
    | some (buffered bytes) ↦ py_ok (decode bytes)
    | some (live response) ↦ py_err not_read_error
    | some streaming ↦ py_err not_read_error
    | none ↦ py_err closed_error
  ]

  -- `locked`: a read in flight holds the stream's lock
  unfoldable pub is_closed : Bool → StreamResponse E → Bool
  is_closed locked r = elim r.body [
    | none ↦ true
    | some (live response) ↦ false
    | some (buffered bytes) ↦ false
    | some streaming ↦ elim r.handle [ none ↦ false | some s ↦ LiveStream.is_closed locked s ]
  ]

  unfoldable pub is_consumed : StreamResponse E → Bool
  is_consumed r = elim r.body [
    | some (live response) ↦ false
    | some streaming ↦ true
    | some (buffered bytes) ↦ true
    | none ↦ true
  ]

  module _ (from_reqwest : E → RqxCoreError) where
    -- `read` from the network's answer on
    unfoldable pub keep_bytes :
        StreamResponse E → Received E → PyResult ByteString × StreamResponse E
    keep_bytes r (broken e) = (py_err (core_err (from_reqwest e)), record r { body = none })
    keep_bytes r (received bytes) =
        let stored : StreamResponse E = record r { body = some (buffered bytes) } in
        (content stored, stored)

    unfoldable pub read :
        (List (Chunk E) → Received E) → StreamResponse E → PyResult ByteString × StreamResponse E
    read all_bytes r = elim r.body [
      | some (live response) ↦ keep_bytes r (all_bytes response)
      | some streaming ↦ (py_err consumed_error, r)
      | some (buffered bytes) ↦ (content r, r)
      | none ↦ (py_err closed_error, r)
    ]
