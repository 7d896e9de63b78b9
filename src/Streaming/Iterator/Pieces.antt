-- ===== src/Streaming/Iterator/Pieces.antt =====
-- The pieces that an iterator over a whole body gives: the body, cut at the size asked for, however
-- the network cut it.
use rqx.Base.{
  ℕ, zero, suc, ◌+◌, ◌<◌, Bool, true, false, List, [], ◌∷◌, ◌++◌, map, concat, Option, none, some,
  length, is_empty, ◌≡◌, ◌≢◌, refl, sym, subst, ◌∙◌, ap, inl, inr, arith, append-nil, append_assoc,
  Bool-cases,
}
use rqx.Error.{RqxCoreError}
use rqx.Streaming.Chunking.{ByteString, ByteChunker, new, feed, next_full, flush}
use rqx.Streaming.Chunking.Bytes.{
  held, IsValid, new-IsValid, IsDrained, IsFull, IsShort, Gives, next_full-Gives, held-feed,
  feed-IsValid, IsValid-of_fits, SizeFits-nil, is_empty→nil, size-feed,
}
use rqx.Streaming.LiveStream
use rqx.Streaming.LiveStream.{LiveStream, Chunk, bytes, check_open, next_chunk}
use rqx.Streaming.Iterator.Rounds.{run_rounds, collect_items}
use rqx.Streaming.Iterator.Regrouped.{
  Regrouped, Outcome, gives_full, gives_last, stops, collect_items-Regrouped,
}
use rqx.Streaming.Iterator.{ByteIterator, iter_bytes, next}

-- No other task closes the response.
abbrev pub quiet : ℕ → Bool
quiet n = false

module _ {E : Type 0} (size : Option ℕ) (F : ℕ) where
  -- An iterator that has the bytes `all` still to give: the stream is open with the chunks `bs` to
  -- come, or it has ended.
  pub data Live (it : ByteIterator E) (all : ByteString) : Type 0 where
    reading :
        (bs : List ByteString)
        → it.stream ≡ record { stream = some (map bytes bs); closed = false; close_signal = false }
        → it.finished ≡ false
        → IsValid it.chunker
        → it.chunker.size ≡ size
        → all ≡ held it.chunker ++ concat bs
        → length bs + 1 < F
        → Live it all
    ended :
        it.finished ≡ true
        → IsValid it.chunker
        → it.chunker.size ≡ size
        → all ≡ held it.chunker
        → 0 < F
        → Live it all

module _ {E : Type 0} (from_reqwest : E → RqxCoreError) (size : Option ℕ) (F : ℕ) where
  -- An iterator at the end of its stream serves what is buffered.
  round-ended :
      (it : ByteIterator E) (all : ByteString) (g : Option ByteString × ByteChunker)
      → it.finished ≡ true
      → next_full it.chunker ≡ g
      → Gives it.chunker g
      → it.chunker.size ≡ size
      → all ≡ held it.chunker
      → 0 < F
      → (fuel : ℕ) → Outcome size (Live size F) all (next from_reqwest quiet (suc fuel) it)
  unfolding next run_rounds flush
  round-ended it all (some p, c) f e g s h pos fuel =
      gives_full p (held c) (record it { chunker = c }) (ground arith)
        (subst (λ z. IsFull z p) s g.1) (h ∙ g.0)
        (ended f (IsValid-of_fits c g.2 g.3) (g.2 ∙ s) refl pos)
  round-ended it all (none, c) f e g s h pos fuel =
      let fits = SizeFits-nil it.chunker.size c.carry c.head g.4 in
      let empty : ByteChunker = record c { carry = []; head = [] } in
      let at_end : Live size F (record it { chunker = empty }) [] =
        ended f (IsValid-of_fits empty g.3 fits) (g.3 ∙ s) refl pos in
      let whole : all ≡ held c = h ∙ g.0 in
      let no_head : held c ≡ c.carry = ap (λ t. c.carry ++ t) g.1 ∙ append-nil c.carry in
      elim (Bool-cases (is_empty (held c))) [
        | inl nothing ↦
            stops (record it { chunker = empty }) (ground arith)
              (whole ∙ is_empty→nil (held c) nothing)
        | inr rest ↦
            gives_last (record it { chunker = empty }) (ground arith) (λ e'. ground arith)
              (subst (IsShort size) (sym (whole ∙ no_head)) (subst (λ z. IsShort z c.carry) s g.2))
              at_end
      ]

  -- While the stream is open an iterator serves full pieces, and asks the network for more when none
  -- is buffered.
  round-reading :
      (it : ByteIterator E) (all : ByteString) (bs : List ByteString)
      (g : Option ByteString × ByteChunker)
      → it.stream ≡ record { stream = some (map bytes bs); closed = false; close_signal = false }
      → it.finished ≡ false
      → next_full it.chunker ≡ g
      → Gives it.chunker g
      → it.chunker.size ≡ size
      → all ≡ held it.chunker ++ concat bs
      → length bs + 1 < F
      → (fuel : ℕ) → length bs < fuel
      → Outcome size (Live size F) all (next from_reqwest quiet (suc fuel) it)
  unfolding next run_rounds
  round-reading it all bs (some p, c) w f e g s h fits fuel more =
      gives_full p (held c ++ concat bs) (record it { chunker = c })
        (unfold check_open in ground arith) (subst (λ z. IsFull z p) s g.1)
        (h ∙ ap (λ t. t ++ concat bs) g.0 ∙ append_assoc p (held c) (concat bs))
        (reading bs w f (IsValid-of_fits c g.2 g.3) (g.2 ∙ s) refl fits)
  round-reading it all bs (none, c) w f e g s h fits zero more = absurd (omega arith)
  round-reading it all [] (none, c) w f e g s h fits (suc fuel) more =
      let closed_stream : LiveStream E = record {
        stream = none;
        closed = false;
        close_signal = false;
      } in
      let it' : ByteIterator E = record { stream = closed_stream; chunker = c; finished = true } in
      let again_at_end : next from_reqwest quiet (suc (suc fuel)) it
          ≡ next from_reqwest quiet (suc fuel) it' =
        unfold check_open next_chunk in ground arith in
      let valid = IsValid-of_fits c g.3 g.4 in
      subst (Outcome size (Live size F) all) (sym again_at_end) (
        round-ended it' all (next_full c) refl refl (next_full-Gives c valid) (g.3 ∙ s)
          (h ∙ append-nil (held it.chunker) ∙ g.0) (omega arith) fuel)
  round-reading it all (b ∷ bs) (none, c) w f e g s h fits (suc fuel) more =
      let open_stream : LiveStream E = record {
        stream = some (map bytes bs);
        closed = false;
        close_signal = false;
      } in
      let it' : ByteIterator E = record {
        stream = open_stream;
        chunker = feed c b;
        finished = false;
      } in
      let read_more : next from_reqwest quiet (suc (suc fuel)) it
          ≡ next from_reqwest quiet (suc fuel) it' =
        unfold check_open next_chunk in ground arith in
      let drained : IsDrained c = record {
        no_head = g.1;
        short = subst (λ z. IsShort z c.carry) (sym g.3) g.2;
      } in
      let valid = feed-IsValid c b (IsValid-of_fits c g.3 g.4) drained in
      subst (Outcome size (Live size F) all) (sym read_more) (
        round-reading it' all bs (next_full (feed c b)) refl refl refl
          (next_full-Gives (feed c b) valid) (size-feed c b ∙ g.3 ∙ s)
          (h
            ∙ ap (λ t. t ++ (b ++ concat bs)) g.0
            ∙ sym (append_assoc (held c) b (concat bs))
            ∙ ap (λ t. t ++ concat bs) (sym (held-feed c b drained)))
          (omega arith) fuel (omega arith))

module _ {E : Type 0} (from_reqwest : E → RqxCoreError) (size : Option ℕ) (G : ℕ) where
  -- Every call returns, and with the next piece of the body.
  next-Outcome :
      (it : ByteIterator E) (all : ByteString)
      → Live size (suc G) it all
      → Outcome size (Live size (suc G)) all (next from_reqwest quiet (suc G) it)
  next-Outcome it all (reading bs w f v s h fits) =
      round-reading from_reqwest size (suc G) it all bs (next_full it.chunker) w f refl
        (next_full-Gives it.chunker v) s h fits G (omega arith)
  next-Outcome it all (ended f v s h pos) =
      round-ended from_reqwest size (suc G) it all (next_full it.chunker) f refl
        (next_full-Gives it.chunker v) s h pos G

-- Whatever chunks the network delivers, and with a size that is not zero or none, the iterator
-- returns the whole body in order: every piece has the size asked for but the last, which is shorter
-- and not empty. Without a size no piece is empty. The fuel is at least two more than the chunks,
-- the rounds one more than the bytes.
pub collect-iter_bytes :
    {E : Type 0} (from_reqwest : E → RqxCoreError) (size : Option ℕ) (bs : List ByteString)
    (fuel rounds : ℕ)
    → size ≢ some 0
    → length bs + 1 < fuel
    → length (concat bs) < rounds
    → (ps : List ByteString) × (collect_items
          (next from_reqwest quiet fuel)
          rounds
          (iter_bytes (LiveStream.new (map bytes bs)) size)
        ≡ some ps)
      × Regrouped size ps (concat bs)
unfolding iter_bytes LiveStream.new
collect-iter_bytes from_reqwest size bs zero rounds pos more steps = absurd (omega arith)
collect-iter_bytes from_reqwest size bs (suc G) rounds pos more steps =
    collect_items-Regrouped size (next from_reqwest quiet (suc G)) (Live size (suc G))
      (next-Outcome from_reqwest size G) rounds (iter_bytes (LiveStream.new (map bytes bs)) size)
      (concat bs)
      (reading bs refl refl (new-IsValid size pos) (unfold new in refl) (unfold new in refl) more)
      steps pos
