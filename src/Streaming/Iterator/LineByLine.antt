-- ===== src/Streaming/Iterator/LineByLine.antt =====
-- crates/rqx/src/stream.rs: `PyLineIterator` and `PyAsyncLineIterator`. The state of the
-- `TextDecoder`, which is encoding_rs's, is `D`, and `decode` its operation.
pub mod Whole
use rqx.Base.{ℕ, Text, Bool, true, false, List, [], ◌∷◌, ◌++◌, Option, none, some, if◌then◌else◌}
use rqx.Error.{RqxCoreError, Result, ok, err}
use rqx.Streaming.Chunking.{ByteString}
use rqx.Streaming.Lines
use rqx.Streaming.Lines.{LineDecoder, feed, flush}
use rqx.Streaming.LiveStream.{LiveStream, check_open, next_chunk}
use rqx.Streaming.Iterator.Rounds.{Round, returns, again, run_rounds}

pub record LineIterator (E D : Type 0) : Type 0 where
  pub stream : LiveStream E
  pub decoder : D
  pub lines : LineDecoder
  -- lines that are complete and not yet yielded
  pub pending : List Text
  pub finished : Bool

module _ {E D : Type 0} where
  -- `iter_lines` and `aiter_lines`, once the stream is started
  unfoldable pub new_lines : LiveStream E → D → LineIterator E D
  new_lines stream decoder = record {
    stream = stream;
    decoder = decoder;
    lines = Lines.new;
    pending = [];
    finished = false;
  }

  abbrev guard : LineIterator E D → Result (Unit {0})
  guard it = if it.finished then ok tt else check_open it.stream

abbrev pub last_line : Option Text → List Text
last_line none = []
last_line (some l) = l ∷ []

module _ {E D : Type 0} (decode : D → ByteString → Bool → Text × D) where
  -- the branch of a chunk: its lines join what is pending
  abbrev pub take_chunk : ByteString → LineIterator E D → LineIterator E D
  take_chunk src it =
      let (text, decoder) = decode it.decoder src false in
      let (ls, lines) = feed it.lines text in
      record it { decoder = decoder; lines = lines; pending = it.pending ++ ls }

  -- the branch of the end: both flushes, the decoder's first
  abbrev pub finish : LineIterator E D → LineIterator E D
  finish it =
      let (text, decoder) = decode it.decoder [] true in
      let (ls, lines) = feed it.lines text in
      let (last, lines') = flush lines in
      record it {
        decoder = decoder;
        lines = lines';
        pending = (it.pending ++ ls) ++ last_line last;
        finished = true;
      }

  module _ (from_reqwest : E → RqxCoreError) where
    -- the `match` on what `next_chunk` returned
    receive :
        Result (Option ByteString) × LiveStream E → LineIterator E D → Round (LineIterator E D) Text
    receive (err e, s) it = returns (err e) (record it { stream = s })
    receive (ok (some src), s) it = again (take_chunk src (record it { stream = s }))
    receive (ok none, s) it = again (finish (record it { stream = s }))

    -- `pop_front`, then the end, then the network
    drain : Bool → List Text → LineIterator E D → Round (LineIterator E D) Text
    unfolding receive
    drain closing (l ∷ ls) it = returns (ok (some l)) (record it { pending = ls })
    drain closing [] it =
        if it.finished
        then returns (ok none) it
        else receive (next_chunk from_reqwest closing it.stream) it

    line_round : Bool → LineIterator E D → Round (LineIterator E D) Text
    unfolding drain
    line_round closing it = elim (guard it) [
      | err e ↦ returns (err e) it
      | ok _ ↦ drain closing it.pending it
    ]

    -- `__next__` and `__anext__`
    unfoldable pub next_line :
        (ℕ → Bool) → ℕ → LineIterator E D → Option (Result (Option Text) × LineIterator E D)
    unfolding line_round run_rounds
    next_line closings fuel it = run_rounds line_round closings fuel it
