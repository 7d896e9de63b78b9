-- ===== src/Streaming/Iterator/TextPieces/Whole.antt =====
-- The pieces that a text iterator over a whole body gives: the decoded text, cut at the size asked
-- for.
use rqx.Base.{
  ℕ, zero, suc, ◌+◌, ◌<◌, Text, Bool, true, false, List, [], ◌∷◌, ◌++◌, map, concat, Option, none,
  some, if◌then◌else◌, length, length-take, is_empty, take, drop, ltb, ◌≡◌, ◌≢◌, refl, sym, subst,
  ◌∙◌, ap, arith, append-nil, append_assoc, take-append-drop, inl, inr, Bool-cases,
}
use rqx.Error.{RqxCoreError}
use rqx.Streaming.Chunking.{ByteString}
use rqx.Streaming.Chunking.Bytes.{IsFull, IsShort, is_empty→nil}
use rqx.Streaming.TextChunks.{
  TextChunker, new_text, feed_text, next_full_text, flush_text, unread, next_by, drop-length,
  drop_add, kept_text,
}
use rqx.Streaming.LiveStream
use rqx.Streaming.LiveStream.{LiveStream, bytes, check_open, next_chunk}
use rqx.Streaming.Iterator.Pieces.{quiet}
use rqx.Streaming.Iterator.Rounds.{run_rounds, collect_items}
use rqx.Streaming.Iterator.Regrouped.{
  Regrouped, Outcome, gives_full, gives_last, stops, collect_items-Regrouped,
}
use rqx.Streaming.Iterator.LineByLine.Whole.{decoded}
use rqx.Streaming.Iterator.TextPieces.{TextIterator, text_iterator, decode_chunk, next_text}

-- The outcome of `next_full`: the next full piece, or a rest that is shorter.
abbrev GivesText : TextChunker → Option Text × TextChunker → Type 0
GivesText c (some p, d) = (unread c ≡ p ++ unread d) × IsFull c.size p × (d.size ≡ c.size)
GivesText c (none, d) = (unread c ≡ unread d) × IsShort c.size (unread d) × (d.size ≡ c.size)

unsized-GivesText :
    (c : TextChunker) (b : Bool)
    → is_empty (unread c) ≡ b
    → c.size ≡ none
    → GivesText c (if b then none else some (unread c), record c { consumed = length c.pending })
unsized-GivesText c true e s = (
  is_empty→nil (unread c) e ∙ sym (drop-length c.pending),
  subst (λ z. IsShort z (drop (length c.pending) c.pending)) (sym s) (drop-length c.pending),
  refl,
)
unsized-GivesText c false e s = (
  sym (ap (λ t. unread c ++ t) (drop-length c.pending) ∙ append-nil (unread c)),
  subst (λ z. IsFull z (unread c)) (sym s) (λ n. ground (arith, ap is_empty n)),
  refl,
)

sized-GivesText :
    (c : TextChunker) (before : ℕ) (b : Bool)
    → ltb before (length (unread c)) ≡ b
    → c.size ≡ some (suc before)
    → GivesText c (
        if b
        then (some (take (suc before) (unread c)), record c { consumed = c.consumed + suc before })
        else (none, c))
sized-GivesText c before true e s = (
  sym (
      ap (λ t. take (suc before) (unread c) ++ t) (drop_add c.consumed (suc before) c.pending)
      ∙ take-append-drop (suc before) (unread c)),
  subst (λ z. IsFull z (take (suc before) (unread c))) (sym s)
      (ground (arith, length-take (suc before) (unread c))),
  refl,
)
sized-GivesText c before false e s =
    (refl, subst (λ z. IsShort z (unread c)) (sym s) (ground arith), refl)

next_by-GivesText :
    (c : TextChunker) (size : Option ℕ)
    → c.size ≡ size
    → size ≢ some 0
    → GivesText c (next_by size c)
next_by-GivesText c none e pos = unsized-GivesText c (is_empty (unread c)) refl e
next_by-GivesText c (some zero) e pos = absurd (pos refl)
next_by-GivesText c (some (suc before)) e pos = sized-GivesText c before _ refl e

next_full_text-GivesText : (c : TextChunker) → c.size ≢ some 0 → GivesText c (next_full_text c)
unfolding next_full_text
next_full_text-GivesText c pos = next_by-GivesText c c.size refl pos

unread-feed_text : (c : TextChunker) (text : Text) → unread (feed_text c text) ≡ unread c ++ text
unfolding feed_text
unread-feed_text c text = ap (λ s. s ++ text) (kept_text c.consumed c.pending)

full_text :
    (size : Option ℕ)
    → size ≢ some 0
    → (c : TextChunker) → c.size ≡ size
    → GivesText c (next_full_text c)
full_text size pos c s = next_full_text-GivesText c (λ e. pos (sym s ∙ e))

module _ {E D : Type 0} (decode : D → ByteString → Bool → Text × D) (size : Option ℕ)
    (pos : size ≢ some 0) where
  -- An iterator that has the text `all` still to give: the stream is open with the chunks `bs` to
  -- come, or it has ended.
  data Live (F : ℕ) (it : TextIterator E D) (all : Text) : Type 0 where
    reading :
        (bs : List ByteString)
        → it.stream ≡ record { stream = some (map bytes bs); closed = false; close_signal = false }
        → it.finished ≡ false
        → it.chunker.size ≡ size
        → all ≡ unread it.chunker ++ concat (decoded decode it.decoder bs)
        → length bs + 1 < F
        → Live F it all
    ended :
        it.finished ≡ true
        → it.chunker.size ≡ size
        → all ≡ unread it.chunker
        → 0 < F
        → Live F it all

  module _ (from_reqwest : E → RqxCoreError) (F : ℕ) where
    round-ended :
        (it : TextIterator E D) (all : Text) (g : Option Text × TextChunker)
        → it.finished ≡ true
        → next_full_text it.chunker ≡ g
        → GivesText it.chunker g
        → it.chunker.size ≡ size
        → all ≡ unread it.chunker
        → 0 < F
        → (fuel : ℕ) → Outcome size (Live F) all (next_text decode from_reqwest quiet (suc fuel) it)
    unfolding next_text run_rounds flush_text
    round-ended it all (some p, c) f e g s h more fuel =
        gives_full p (unread c) (record it { chunker = c }) (ground arith)
          (subst (λ z. IsFull z p) s g.1) (h ∙ g.0) (ended f (g.2 ∙ s) refl more)
    round-ended it all (none, c) f e g s h more fuel =
        let empty : TextChunker = record c { pending = []; consumed = 0 } in
        let whole : all ≡ unread c = h ∙ g.0 in
        elim (Bool-cases (is_empty (unread c))) [
          | inl nothing ↦
              stops (record it { chunker = empty }) (ground arith)
                (whole ∙ is_empty→nil (unread c) nothing)
          | inr rest ↦
              gives_last (record it { chunker = empty }) (ground arith) (λ e'. ground arith)
                (subst (IsShort size) (sym whole) (subst (λ z. IsShort z (unread c)) s g.1))
                (ended f (g.2 ∙ s) refl more)
        ]

    round-reading :
        (it : TextIterator E D) (all : Text) (bs : List ByteString) (g : Option Text × TextChunker)
        → it.stream ≡ record { stream = some (map bytes bs); closed = false; close_signal = false }
        → it.finished ≡ false
        → next_full_text it.chunker ≡ g
        → GivesText it.chunker g
        → it.chunker.size ≡ size
        → all ≡ unread it.chunker ++ concat (decoded decode it.decoder bs)
        → length bs + 1 < F
        → (fuel : ℕ) → length bs < fuel
        → Outcome size (Live F) all (next_text decode from_reqwest quiet (suc fuel) it)
    unfolding next_text run_rounds decoded
    round-reading it all bs (some p, c) w f e g s h fits fuel more =
        let rest = concat (decoded decode it.decoder bs) in
        gives_full p (unread c ++ rest) (record it { chunker = c })
          (unfold check_open in ground arith) (subst (λ z. IsFull z p) s g.1)
          (h ∙ ap (λ t. t ++ rest) g.0 ∙ append_assoc p (unread c) rest)
          (reading bs w f (g.2 ∙ s) refl fits)
    round-reading it all bs (none, c) w f e g s h fits zero more = absurd (omega arith)
    round-reading it all [] (none, c) w f e g s h fits (suc fuel) more =
        let closed_stream : LiveStream E = record {
          stream = none;
          closed = false;
          close_signal = false;
        } in
        let it' =
          decode_chunk decode [] true
            (record it { stream = closed_stream; chunker = c; finished = true }) in
        let again_at_end : next_text decode from_reqwest quiet (suc (suc fuel)) it
            ≡ next_text decode from_reqwest quiet (suc fuel) it' =
          unfold check_open next_chunk in ground arith in
        let text = (decode it.decoder [] true).0 in
        let sized : it'.chunker.size ≡ size = unfold feed_text in (g.2 ∙ s) in
        subst (Outcome size (Live F) all) (sym again_at_end) (
          round-ended it' all (next_full_text it'.chunker) refl refl
            (full_text size pos it'.chunker sized) sized
            (h
              ∙ ap (λ t. t ++ (text ++ [])) g.0
              ∙ ap (λ t. unread c ++ t) (append-nil text)
              ∙ sym (unread-feed_text c text))
            (omega arith) fuel)
    round-reading it all (b ∷ bs) (none, c) w f e g s h fits (suc fuel) more =
        let open_stream : LiveStream E = record {
          stream = some (map bytes bs);
          closed = false;
          close_signal = false;
        } in
        let it' = decode_chunk decode b false (record it { stream = open_stream; chunker = c }) in
        let read_more : next_text decode from_reqwest quiet (suc (suc fuel)) it
            ≡ next_text decode from_reqwest quiet (suc fuel) it' =
          unfold check_open next_chunk in ground arith in
        let (text, d') = decode it.decoder b false in
        let rest = concat (decoded decode d' bs) in
        let sized : it'.chunker.size ≡ size = unfold feed_text in (g.2 ∙ s) in
        subst (Outcome size (Live F) all) (sym read_more) (
          round-reading it' all bs (next_full_text it'.chunker) refl f refl
            (full_text size pos it'.chunker sized) sized
            (h
              ∙ ap (λ t. t ++ (text ++ rest)) g.0
              ∙ sym (append_assoc (unread c) text rest)
              ∙ ap (λ t. t ++ rest) (sym (unread-feed_text c text)))
            (omega arith) fuel (omega arith))

module _ {E D : Type 0} (decode : D → ByteString → Bool → Text × D) (size : Option ℕ)
    (pos : size ≢ some 0) (from_reqwest : E → RqxCoreError) (G : ℕ) where
  next_text-Outcome :
      (it : TextIterator E D) (all : Text)
      → Live decode size pos (suc G) it all
      → Outcome size
          (Live decode size pos (suc G))
          all
          (next_text decode from_reqwest quiet (suc G) it)
  next_text-Outcome it all (reading bs w f s h fits) =
      round-reading decode size pos from_reqwest (suc G) it all bs (next_full_text it.chunker) w f
        refl (full_text size pos it.chunker s) s h fits G (omega arith)
  next_text-Outcome it all (ended f s h more) =
      round-ended decode size pos from_reqwest (suc G) it all (next_full_text it.chunker) f refl
        (full_text size pos it.chunker s) s h more G

-- Whatever chunks the network delivers and whatever the decoder, with a size that is not zero or
-- none, a text iterator yields the whole decoded text in order: every piece has the size asked for
-- but the last, which is shorter and not empty. Without a size no piece is empty. The fuel is at
-- least two more than the chunks, the rounds one more than the characters.
pub collect-text_iterator :
    {E D : Type 0} (decode : D → ByteString → Bool → Text × D) (from_reqwest : E → RqxCoreError)
    (decoder : D) (size : Option ℕ) (bs : List ByteString) (fuel rounds : ℕ)
    → size ≢ some 0
    → length bs + 1 < fuel
    → length (concat (decoded decode decoder bs)) < rounds
    → (ps : List Text) × (collect_items
          (next_text decode from_reqwest quiet fuel)
          rounds
          (text_iterator (LiveStream.new (map bytes bs)) decoder size)
        ≡ some ps)
      × Regrouped size ps (concat (decoded decode decoder bs))
unfolding text_iterator new_text LiveStream.new
collect-text_iterator decode from_reqwest decoder size bs zero rounds pos more steps =
    absurd (omega arith)
collect-text_iterator decode from_reqwest decoder size bs (suc G) rounds pos more steps =
    collect_items-Regrouped size (next_text decode from_reqwest quiet (suc G))
      (Live decode size pos (suc G)) (next_text-Outcome decode size pos from_reqwest G) rounds
      (text_iterator (LiveStream.new (map bytes bs)) decoder size)
      (concat (decoded decode decoder bs)) (reading bs refl refl refl refl more) steps pos
