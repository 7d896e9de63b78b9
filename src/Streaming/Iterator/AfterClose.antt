-- ===== src/Streaming/Iterator/AfterClose.antt =====
-- What an iterator gives once its response is closed.
use rqx.Base.{ℕ, suc, Text, Bool, false, some, ◌≡◌, arith}
use rqx.Error.{RqxCoreError, err}
use rqx.Streaming.Chunking.{ByteString}
use rqx.Streaming.LiveStream.{LiveStream, close, check_open, closed_error}
use rqx.Streaming.Iterator.Rounds.{run_rounds}
use rqx.Streaming.Iterator.{ByteIterator, next}
use rqx.Streaming.Iterator.LineByLine.{LineIterator, next_line}
use rqx.Streaming.Iterator.TextPieces.{TextIterator, next_text}

module _ {E D : Type 0} (from_reqwest : E → RqxCoreError)
    (decode : D → ByteString → Bool → Text × D) where
  -- Once the response is closed, an iterator over bytes, text or lines that has not reached the end
  -- of its stream raises StreamClosed on its next call, whatever it has buffered, and on every call
  -- after that, since the call leaves it as it was.
  pub next-close :
      (s : LiveStream E) (bytes : ByteIterator E) (texts : TextIterator E D)
      (lines : LineIterator E D) (closings : ℕ → Bool) (fuel : ℕ)
      → bytes.stream ≡ close s
      → bytes.finished ≡ false
      → texts.stream ≡ close s
      → texts.finished ≡ false
      → lines.stream ≡ close s
      → lines.finished ≡ false
      → (next from_reqwest closings (suc fuel) bytes ≡ some (err closed_error, bytes))
        × (next_text decode from_reqwest closings (suc fuel) texts ≡ some (err closed_error, texts))
        × (next_line decode from_reqwest closings (suc fuel) lines ≡ some (err closed_error, lines))
  unfolding next next_text next_line run_rounds check_open close
  next-close s bytes texts lines closings fuel b f t g l h =
      (ground arith, ground arith, ground arith)
