-- ===== src/Streaming/Iterator/LineByLine/Whole.antt =====
-- What a line iterator over a whole body gives: the lines of the decoded text.
use rqx.Base.{
  ℕ, zero, suc, ◌+◌, ◌<◌, Text, Bool, true, false, List, [], ◌∷◌, ◌++◌, map, concat, Option, none,
  some, length, ◌≡◌, refl, sym, subst, ◌∙◌, ap, arith, append-nil, append_assoc,
}
use rqx.Error.{RqxCoreError, Result, ok}
use rqx.Streaming.Chunking.{ByteString}
use rqx.Streaming.Lines.{LineDecoder, split_lines, feed, flush}
use rqx.Streaming.Lines.Split.{feed_all, flushed, feed_all-split_lines}
use rqx.Streaming.LiveStream
use rqx.Streaming.LiveStream.{LiveStream, bytes, check_open, next_chunk}
use rqx.Streaming.Iterator.Pieces.{quiet}
use rqx.Streaming.Iterator.Rounds.{collect_items, collect_items-more, collect_items-stop}
use rqx.Streaming.Iterator.LineByLine.{
  LineIterator, new_lines, last_line, next_line, finish, take_chunk,
}

last_line-flush : (o : Option Text) → (elim o [ none ↦ [] | some l ↦ l ∷ [] ]) ≡ last_line o
last_line-flush none = refl
last_line-flush (some l) = refl

module _ {D : Type 0} (decode : D → ByteString → Bool → Text × D) where
  -- The texts that a decoder gives for a whole body, chunk by chunk, with the flush at the end.
  unfoldable pub decoded : D → List ByteString → List Text
  decoded d [] = (decode d [] true).0 ∷ []
  decoded d (b ∷ bs) = let (text, d') = decode d b false in text ∷ decoded d' bs

  -- the lines still to come from a decoder of lines
  abbrev coming : D → LineDecoder → List ByteString → List Text
  coming d l bs = (feed_all l (decoded d bs)).0 ++ flushed (feed_all l (decoded d bs)).1

  coming-more :
      (d : D) (l : LineDecoder) (b : ByteString) (bs : List ByteString)
      → let (text, d') = decode d b false in
        let (ls, l') = feed l text in coming d l (b ∷ bs) ≡ ls ++ coming d' l' bs
  unfolding decoded feed_all
  coming-more d l b bs = append_assoc (feed l (decode d b false).0).0 _ _

  module _ {E : Type 0} where
    take_chunk-coming :
        (it : LineIterator E D) (b : ByteString) (bs : List ByteString)
        → let it' = take_chunk decode b it in
          it.pending ++ coming it.decoder it.lines (b ∷ bs)
          ≡ it'.pending ++ coming it'.decoder it'.lines bs
    take_chunk-coming it b bs =
        ap (λ ls. it.pending ++ ls) (coming-more it.decoder it.lines b bs)
        ∙ sym (append_assoc it.pending _ _)

    finish-coming :
        (it : LineIterator E D)
        → it.pending ++ coming it.decoder it.lines [] ≡ (finish decode it).pending
    unfolding decoded feed_all
    finish-coming it =
        let fed = feed it.lines (decode it.decoder [] true).0 in
        ap (λ ls. it.pending ++ (ls ++ flushed fed.1)) (append-nil fed.0)
        ∙ sym (append_assoc it.pending fed.0 (flushed fed.1))
        ∙ ap (λ ls. (it.pending ++ fed.0) ++ ls) (last_line-flush (flush fed.1).0)

    -- An iterator that has the lines `all` still to give: the stream is open with the chunks `bs`
    -- to come, or it has ended.
    data Live (F : ℕ) (it : LineIterator E D) (all : List Text) : Type 0 where
      reading :
          (bs : List ByteString)
          → it.stream
            ≡ record { stream = some (map bytes bs); closed = false; close_signal = false }
          → it.finished ≡ false
          → all ≡ it.pending ++ coming it.decoder it.lines bs
          → length bs + 1 < F
          → Live F it all
      ended : it.finished ≡ true → all ≡ it.pending → 0 < F → Live F it all

    data Outcome (F : ℕ) (all : List Text) (o : Option (Result (Option Text) × LineIterator E D))
        : Type 0 where
      gives :
          (l : Text) (rest : List Text) (it : LineIterator E D)
          → o ≡ some (ok (some l), it)
          → all ≡ l ∷ rest
          → Live F it rest
          → Outcome F all o
      stops : (it : LineIterator E D) → o ≡ some (ok none, it) → all ≡ [] → Outcome F all o

    module _ (from_reqwest : E → RqxCoreError) (F : ℕ) where
      round-ended :
          (it : LineIterator E D) (all pending : List Text)
          → it.finished ≡ true
          → it.pending ≡ pending
          → all ≡ pending
          → 0 < F
          → (fuel : ℕ) → Outcome F all (next_line decode from_reqwest quiet (suc fuel) it)
      unfolding next_line
      round-ended it all [] f e h pos fuel = stops it (ground arith) h
      round-ended it all (l ∷ ls) f e h pos fuel =
          gives l ls (record it { pending = ls }) (ground arith) h (ended f refl pos)

      round-reading :
          (it : LineIterator E D) (all pending : List Text) (bs : List ByteString)
          → it.stream
            ≡ record { stream = some (map bytes bs); closed = false; close_signal = false }
          → it.finished ≡ false
          → it.pending ≡ pending
          → all ≡ it.pending ++ coming it.decoder it.lines bs
          → length bs + 1 < F
          → (fuel : ℕ) → length bs < fuel
          → Outcome F all (next_line decode from_reqwest quiet (suc fuel) it)
      unfolding next_line
      round-reading it all (l ∷ ls) bs w f e h fits fuel more =
          gives l _ (record it { pending = ls }) (unfold check_open in ground arith)
            (h ∙ ap (λ t. t ++ coming it.decoder it.lines bs) e) (reading bs w f refl fits)
      round-reading it all [] bs w f e h fits zero more = absurd (omega arith)
      round-reading it all [] [] w f e h fits (suc fuel) more =
          let closed_stream : LiveStream E = record {
            stream = none;
            closed = false;
            close_signal = false;
          } in
          let it' : LineIterator E D = finish decode (record it { stream = closed_stream }) in
          let again_at_end : next_line decode from_reqwest quiet (suc (suc fuel)) it
              ≡ next_line decode from_reqwest quiet (suc fuel) it' =
            unfold check_open next_chunk in ground arith in
          subst (Outcome F all) (sym again_at_end)
            (round-ended it' all it'.pending refl refl (h ∙ finish-coming it) (omega arith) fuel)
      round-reading it all [] (b ∷ bs) w f e h fits (suc fuel) more =
          let open_stream : LiveStream E = record {
            stream = some (map bytes bs);
            closed = false;
            close_signal = false;
          } in
          let it' : LineIterator E D = take_chunk decode b (record it { stream = open_stream }) in
          let read_more : next_line decode from_reqwest quiet (suc (suc fuel)) it
              ≡ next_line decode from_reqwest quiet (suc fuel) it' =
            unfold check_open next_chunk in ground arith in
          subst (Outcome F all) (sym read_more) (
            round-reading it' all it'.pending bs refl f refl (h ∙ take_chunk-coming it b bs)
              (omega arith) fuel (omega arith))

module _ {E D : Type 0} (decode : D → ByteString → Bool → Text × D)
    (from_reqwest : E → RqxCoreError) (G : ℕ) where
  next_line-Outcome :
      (it : LineIterator E D) (all : List Text)
      → Live decode (suc G) it all
      → Outcome decode (suc G) all (next_line decode from_reqwest quiet (suc G) it)
  next_line-Outcome it all (reading bs w f h fits) =
      round-reading decode from_reqwest (suc G) it all it.pending bs w f refl h fits G (omega arith)
  next_line-Outcome it all (ended f h pos) =
      round-ended decode from_reqwest (suc G) it all it.pending f refl h pos G

  collect-Live :
      (rounds : ℕ) (it : LineIterator E D) (all : List Text)
      → Live decode (suc G) it all
      → length all < rounds
      → collect_items (next_line decode from_reqwest quiet (suc G)) rounds it ≡ some all
  collect-Live zero it all h more = absurd (omega arith)
  collect-Live (suc rounds) it all h more = elim (next_line-Outcome it all h) [
    | gives l rest it' e a live ↦
        let smaller : length rest < rounds = omega (arith, ap length a) in
        subst
          (λ ls.
            collect_items (next_line decode from_reqwest quiet (suc G)) (suc rounds) it ≡ some ls)
          (sym a) (collect_items-more _ rounds e (collect-Live rounds it' rest live smaller))
    | stops it' e n ↦ collect_items-stop _ rounds e ∙ ap some (sym n)
  ]

-- Whatever chunks the network delivers and whatever the decoder, a line iterator yields the lines of
-- the whole decoded text, in order, and then ends. The fuel is at least two more than the chunks, the
-- rounds one more than the lines.
pub collect-new_lines :
    {E D : Type 0} (decode : D → ByteString → Bool → Text × D) (from_reqwest : E → RqxCoreError)
    (decoder : D) (bs : List ByteString) (fuel rounds : ℕ)
    → length bs + 1 < fuel
    → length (split_lines (concat (decoded decode decoder bs))) < rounds
    → collect_items
        (next_line decode from_reqwest quiet fuel)
        rounds
        (new_lines (LiveStream.new (map bytes bs)) decoder)
      ≡ some (split_lines (concat (decoded decode decoder bs)))
unfolding new_lines LiveStream.new
collect-new_lines decode from_reqwest decoder bs zero rounds more steps = absurd (omega arith)
collect-new_lines decode from_reqwest decoder bs (suc G) rounds more steps =
    collect-Live decode from_reqwest G rounds (new_lines (LiveStream.new (map bytes bs)) decoder) _
      (reading bs refl refl (sym (feed_all-split_lines (decoded decode decoder bs))) more) steps
