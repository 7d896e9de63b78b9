-- ===== src/Streaming/LiveStream.antt =====
-- crates/rqx-core/src/streaming/live_stream.rs: the body while an iterator reads it. The response
-- and the iterator hold handles to the one `LiveStreamInner`, which is the state here. What the
-- network has still to deliver is the list in `stream`; `E` is `reqwest::Error`.
pub mod Closing
use rqx.Base.{Bool, true, false, List, [], ◌∷◌, Option, none, some, if◌then◌else◌, text, ◌||◌}
use rqx.Error.{RqxCoreError, stream_closed, Result, ok, err}
use rqx.Streaming.Chunking.{ByteString}

pub data Chunk (E : Type 0) : Type 0 where
  bytes : ByteString → Chunk E
  failed : E → Chunk E

pub record LiveStream (E : Type 0) : Type 0 where
  pub stream : Option (List (Chunk E))
  pub closed : Bool
  -- the permit that `notify_one` stores when nobody waits
  pub close_signal : Bool

abbrev pub closed_error : RqxCoreError
closed_error = stream_closed (text "response closed")

module _ {E : Type 0} where
  unfoldable pub new : List (Chunk E) → LiveStream E
  new chunks = record { stream = some chunks; closed = false; close_signal = false }

  unfoldable pub mark_closed : LiveStream E → LiveStream E
  mark_closed s = record s { closed = true; close_signal = true }

  -- `close` and `close_blocking`, once they hold the lock
  unfoldable pub close : LiveStream E → LiveStream E
  unfolding mark_closed
  close s = record (mark_closed s) { stream = none }

  unfoldable pub check_open : LiveStream E → Result (Unit {0})
  check_open s = if s.closed then err closed_error else ok tt

  -- `locked`: a read in flight holds the lock, so that `try_lock` fails.
  unfoldable pub is_closed : Bool → LiveStream E → Bool
  is_closed locked s =
      s.closed || (if locked then false else elim s.stream [ none ↦ true | some _ ↦ false ])

  module _ (from_reqwest : E → RqxCoreError) where
    -- What the network answers, once the wait is over.
    deliver : LiveStream E → List (Chunk E) → Result (Option ByteString) × LiveStream E
    deliver s [] = (ok none, record s { stream = none })
    deliver s (bytes b ∷ rest) = (ok (some b), record s { stream = some rest })
    deliver s (failed e ∷ rest) = (err (from_reqwest e), record s { stream = none })

    -- The `select!`, biased to the close signal, which a permit stored earlier fires too.
    select : LiveStream E → List (Chunk E) → Result (Option ByteString) × LiveStream E
    unfolding deliver
    select s chunks =
        if s.close_signal
        then (err closed_error, record s { stream = none; close_signal = false })
        else deliver s chunks

    -- `closing`: another task closes the response while this call waits on the network; it has
    -- passed `check_open` by then and holds the lock.
    unfoldable pub next_chunk : Bool → LiveStream E → Result (Option ByteString) × LiveStream E
    unfolding check_open mark_closed select
    next_chunk closing s = elim (check_open s) [
      | err e ↦ (err e, s)
      | ok _ ↦ elim s.stream [
        | none ↦ (err closed_error, s)
        | some chunks ↦ select (if closing then mark_closed s else s) chunks
      ]
    ]
