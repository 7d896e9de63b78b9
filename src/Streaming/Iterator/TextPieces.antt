-- ===== src/Streaming/Iterator/TextPieces.antt =====
-- crates/rqx/src/stream.rs: `PyTextIterator` and `PyAsyncTextIterator`. The state of the
-- `TextDecoder`, which is encoding_rs's, is `D`, and `decode` its operation.
pub mod Whole
use rqx.Base.{ℕ, Text, Bool, true, false, [], Option, none, some, if◌then◌else◌}
use rqx.Error.{RqxCoreError, Result, ok, err}
use rqx.Streaming.Chunking.{ByteString}
use rqx.Streaming.TextChunks.{TextChunker, new_text, feed_text, next_full_text, flush_text}
use rqx.Streaming.LiveStream.{LiveStream, check_open, next_chunk}
use rqx.Streaming.Iterator.Rounds.{Round, returns, again, run_rounds}

pub record TextIterator (E D : Type 0) : Type 0 where
  pub stream : LiveStream E
  pub decoder : D
  pub chunker : TextChunker
  pub finished : Bool

module _ {E D : Type 0} where
  -- `iter_text` and `aiter_text`, once the size is checked and the stream started
  unfoldable pub text_iterator : LiveStream E → D → Option ℕ → TextIterator E D
  text_iterator stream decoder size = record {
    stream = stream;
    decoder = decoder;
    chunker = new_text size;
    finished = false;
  }

  abbrev guard : TextIterator E D → Result (Unit {0})
  guard it = if it.finished then ok tt else check_open it.stream

module _ {E D : Type 0} (decode : D → ByteString → Bool → Text × D) where
  -- Decode, and feed the text to the chunker.
  abbrev pub decode_chunk : ByteString → Bool → TextIterator E D → TextIterator E D
  decode_chunk src last it =
      let (text, decoder) = decode it.decoder src last in
      record it { decoder = decoder; chunker = feed_text it.chunker text }

  module _ (from_reqwest : E → RqxCoreError) where
    -- the `match` on what `next_chunk` returned
    receive :
        Result (Option ByteString) × LiveStream E → TextIterator E D → Round (TextIterator E D) Text
    receive (err e, s) it = returns (err e) (record it { stream = s })
    receive (ok (some src), s) it = again (decode_chunk src false (record it { stream = s }))
    receive (ok none, s) it =
        again (decode_chunk [] true (record it { stream = s; finished = true }))

    -- no full piece is buffered
    starved : Bool → TextIterator E D → Round (TextIterator E D) Text
    unfolding receive
    starved closing it =
        if it.finished
        then (let (rest, c) = flush_text it.chunker in
            returns (ok rest) (record it { chunker = c }))
        else receive (next_chunk from_reqwest closing it.stream) it

    served : Bool → Option Text × TextChunker → TextIterator E D → Round (TextIterator E D) Text
    unfolding starved
    served closing (some p, c) it = returns (ok (some p)) (record it { chunker = c })
    served closing (none, c) it = starved closing (record it { chunker = c })

    text_round : Bool → TextIterator E D → Round (TextIterator E D) Text
    unfolding served
    text_round closing it = elim (guard it) [
      | err e ↦ returns (err e) it
      | ok _ ↦ served closing (next_full_text it.chunker) it
    ]

    -- `__next__` and `__anext__`
    unfoldable pub next_text :
        (ℕ → Bool) → ℕ → TextIterator E D → Option (Result (Option Text) × TextIterator E D)
    unfolding text_round run_rounds
    next_text closings fuel it = run_rounds text_round closings fuel it
