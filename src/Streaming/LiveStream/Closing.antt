-- ===== src/Streaming/LiveStream/Closing.antt =====
-- What closing a response does to the reads that follow and to the one in flight.
use rqx.Base.{
  Bool, true, false, List, [], ◌∷◌, ◌++◌, Option, none, some, ◌≡◌, ◌≢◌, refl, ◌⊎◌, inl, inr, arith,
  ap, sym, ◌∙◌, append_assoc,
}
use rqx.Error.{RqxCoreError, Result, ok, err}
use rqx.Streaming.Chunking.{ByteString}
use rqx.Streaming.LiveStream.{
  Chunk, bytes, failed, LiveStream, close, closed_error, is_closed, next_chunk,
}

-- What the iterator and other tasks do to the stream, one at a time. `reads` says whether a close
-- comes in while it waits on the network.
pub data Op : Type 0 where
  reads : Bool → Op
  closes : Op

abbrev pub All {ℓ} : {A : Type ℓ} → (A → Type 0) → List A → Type 0
All P [] = Unit {0}
All P (x ∷ xs) = P x × All P xs

-- The bytes that a sequence of reads returned, read by read.
abbrev pub delivered : List (Result (Option ByteString)) → List ByteString
delivered [] = []
delivered (ok (some b) ∷ rs) = b ∷ delivered rs
delivered (ok none ∷ rs) = delivered rs
delivered (err e ∷ rs) = delivered rs

module _ {E : Type 0} where
  -- The chunks that the network delivers before it ends or fails.
  abbrev pub arriving : List (Chunk E) → List ByteString
  arriving [] = []
  arriving (bytes b ∷ rest) = b ∷ arriving rest
  arriving (failed e ∷ rest) = []

  abbrev pub to_come : Option (List (Chunk E)) → List ByteString
  to_come none = []
  to_come (some chunks) = arriving chunks

module _ {E : Type 0} (from_reqwest : E → RqxCoreError) where
  -- What a read returned, and the state after the operation.
  abbrev pub step : LiveStream E → Op → List (Result (Option ByteString)) × LiveStream E
  step s (reads closing) = let (r, s') = next_chunk from_reqwest closing s in (r ∷ [], s')
  step s closes = ([], close s)

  unfoldable pub run : LiveStream E → List Op → List (Result (Option ByteString)) × LiveStream E
  run s [] = ([], s)
  run s (op ∷ ops) = let (rs, s') = step s op in let (qs, t) = run s' ops in (rs ++ qs, t)

  next_chunk-closed :
      (closing : Bool) (s : LiveStream E)
      → s.closed ≡ true
      → next_chunk from_reqwest closing s ≡ (err closed_error, s)
  unfolding next_chunk
  next_chunk-closed closing s h = ground arith

  run-closed :
      (s : LiveStream E) (ops : List Op)
      → s.closed ≡ true
      → All (λ r. r ≡ err closed_error) (run s ops).0
        × ((locked : Bool) → is_closed locked (run s ops).1 ≡ true)
  unfolding run
  run-closed s [] h = (tt, λ locked. unfold is_closed in ground arith)
  run-closed s (reads closing ∷ ops) h =
      rw (next_chunk-closed closing s h)
        (let (rest, shut) = run-closed s ops h in ((refl, rest), shut))
  run-closed s (closes ∷ ops) h = run-closed (close s) ops (unfold close in refl)

  -- After `close`, from whatever state and whatever is read and closed then, every read fails, and the
  -- response reports itself closed, also while a reader holds the lock.
  pub run-close :
      (s : LiveStream E) (ops : List Op)
      → All (λ r. r ≡ err closed_error) (run (close s) ops).0
        × ((locked : Bool) → is_closed locked (run (close s) ops).1 ≡ true)
  unfolding close
  run-close s ops = run-closed (close s) ops refl

  -- A read that a close interrupts fails and drops the stream, which leaves the response closed.
  pub next_chunk-interrupted :
      (s : LiveStream E)
      → s.closed ≡ false
      → s.stream ≢ none
      → ((next_chunk from_reqwest true s).0 ≡ err closed_error)
        × ((next_chunk from_reqwest true s).1.stream ≡ none)
        × ((next_chunk from_reqwest true s).1.closed ≡ true)
  unfolding next_chunk
  next_chunk-interrupted s h k = ground arith

  -- A read returns the next chunk of what is to come, or nothing, and then nothing is to come.
  next_chunk-to_come :
      (closing : Bool) (s : LiveStream E)
      → let (r, t) = next_chunk from_reqwest closing s in
        (to_come s.stream ≡ delivered (r ∷ []) ++ to_come t.stream)
        ⊎ ((delivered (r ∷ []) ≡ []) × (to_come t.stream ≡ []))
  unfolding next_chunk
  next_chunk-to_come closing s = ground arith

  delivered-cons :
      (r : Result (Option ByteString)) (rs : List (Result (Option ByteString)))
      → delivered (r ∷ rs) ≡ delivered (r ∷ []) ++ delivered rs
  delivered-cons (ok none) rs = refl
  delivered-cons (ok (some b)) rs = refl
  delivered-cons (err e) rs = refl

  prefix-step :
      (es : List ByteString) {before after ds : List ByteString}
      → (before ≡ ds ++ after) ⊎ ((ds ≡ []) × (after ≡ []))
      → (rest : List ByteString) × (after ≡ es ++ rest)
      → (rest : List ByteString) × (before ≡ (ds ++ es) ++ rest)
  prefix-step es {ds = ds} (inl e) (rest, f) =
      (rest, e ∙ ap (λ t. ds ++ t) f ∙ sym (append_assoc ds es rest))
  prefix-step [] {before = before} (inr (e, f)) (rest, g) = (before, rw e)
  prefix-step (b ∷ es) (inr (e, f)) (rest, g) = cc

  -- Whatever is read and closed in whatever order, the reads return the first chunks of the network,
  -- in its order and whole, and nothing else.
  pub run-prefix :
      (s : LiveStream E) (ops : List Op)
      → (rest : List ByteString) × (to_come s.stream ≡ delivered (run s ops).0 ++ rest)
  unfolding run close
  run-prefix s [] = (to_come s.stream, refl)
  run-prefix s (reads closing ∷ ops) =
      let (r, t) = next_chunk from_reqwest closing s in
      rw (delivered-cons r (run t ops).0)
        (prefix-step (delivered (run t ops).0) (next_chunk-to_come closing s) (run-prefix t ops))
  run-prefix s (closes ∷ ops) =
      prefix-step (delivered (run (close s) ops).0) {before = to_come s.stream} {after = []}
        {ds = []} (inr (refl, refl)) (run-prefix (close s) ops)
