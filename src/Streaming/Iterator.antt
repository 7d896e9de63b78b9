-- ===== src/Streaming/Iterator.antt =====
-- crates/rqx/src/stream.rs: `PyByteIterator` and `PyAsyncByteIterator`, the loop that reads a live
-- body piece by piece.
pub mod Pieces
pub mod Rounds
pub mod AfterClose
pub mod Regrouped
pub mod TextPieces
pub mod LineByLine
use rqx.Base.{ℕ, zero, suc, Bool, true, false, List, [], ◌∷◌, Option, none, some, if◌then◌else◌}
use rqx.Error.{RqxCoreError, Result, ok, err}
use rqx.Streaming.Chunking.{ByteString, ByteChunker, new, feed, next_full, flush}
use rqx.Streaming.Iterator.Rounds.{Round, returns, again, run_rounds}
use rqx.Streaming.LiveStream.{LiveStream, check_open, next_chunk}

pub record ByteIterator (E : Type 0) : Type 0 where
  pub stream : LiveStream E
  pub chunker : ByteChunker
  pub finished : Bool

module _ {E : Type 0} where
  -- `iter_bytes`, once the size is checked and the stream started
  unfoldable pub iter_bytes : LiveStream E → Option ℕ → ByteIterator E
  unfolding new
  iter_bytes stream size = record { stream = stream; chunker = new size; finished = false }

  abbrev guard : ByteIterator E → Result (Unit {0})
  guard it = if it.finished then ok tt else check_open it.stream

module _ {E : Type 0} (from_reqwest : E → RqxCoreError) where
  -- the `match` on what `next_chunk` returned
  receive :
      Result (Option ByteString) × LiveStream E → ByteIterator E → Round (ByteIterator E) ByteString
  receive (err e, s) it = returns (err e) (record it { stream = s })
  receive (ok (some b), s) it = again (record it { stream = s; chunker = feed it.chunker b })
  receive (ok none, s) it = again (record it { stream = s; finished = true })

  -- no full piece is buffered
  starved : Bool → ByteIterator E → Round (ByteIterator E) ByteString
  unfolding receive
  starved closing it =
      if it.finished
      then (let (rest, c) = flush it.chunker in returns (ok rest) (record it { chunker = c }))
      else receive (next_chunk from_reqwest closing it.stream) it

  served :
      Bool → Option ByteString × ByteChunker → ByteIterator E → Round (ByteIterator E) ByteString
  unfolding starved
  served closing (some p, c) it = returns (ok (some p)) (record it { chunker = c })
  served closing (none, c) it = starved closing (record it { chunker = c })

  round : Bool → ByteIterator E → Round (ByteIterator E) ByteString
  unfolding served
  round closing it = elim (guard it) [
    | err e ↦ returns (err e) it
    | ok _ ↦ served closing (next_full it.chunker) it
  ]

  -- `__next__` and `__anext__`
  unfoldable pub next :
      (ℕ → Bool) → ℕ → ByteIterator E → Option (Result (Option ByteString) × ByteIterator E)
  unfolding round run_rounds
  next closings fuel it = run_rounds round closings fuel it
