-- ===== src/StreamResponse/Async/Closing.antt =====
-- Closing a response while other tasks read it.
use rqx.Base.{Bool, true, false, List, [], ◌∷◌, ◌++◌, none, some, ◌≡◌, refl, sym, ap, ◌∙◌, arith}
use rqx.Streaming.Chunking.{ByteString}
use rqx.Streaming.LiveStream.{Chunk}
use rqx.StreamResponse.{live, buffered, StreamResponse, start_stream, close, is_closed}
use rqx.StreamResponse.Async.{
  awaits, returns, AsyncResponse, take_live, store, Step, begin_read, read_at_once, end_read,
  fail_read, close_response, iterate, Reach, stay, step, pending_response, aclose,
}

none_in : {A : Type 0} (before after : List A) (x : A) → [] ≡ before ++ x ∷ after → ⊥
none_in [] after x e = ground arith
none_in (b ∷ before) after x e = ground arith

only :
    {A : Type 0} (before after : List A) (x y : A)
    → y ∷ [] ≡ before ++ x ∷ after
    → before ++ after ≡ []
only [] after x y e = ground arith
only (b ∷ before) after x y e = absurd (none_in before after x (ground arith))

none≢some : {A : Type 0} {a : A} → none ≡ some a → ⊥
none≢some e = ground arith

module _ {E : Type 0} where
  -- At most one call of `aread` waits on the network, and the body is out of the response meanwhile.
  pub data IsExclusive (w : AsyncResponse E) : Type 0 where
    idle : w.in_flight ≡ [] → IsExclusive w
    waiting :
        (chunks : List (Chunk E)) → w.in_flight ≡ chunks ∷ [] → w.shared.body ≡ none → IsExclusive w

  body-start_stream : (r : StreamResponse E) → r.body ≡ none → (start_stream r).1.body ≡ none
  unfolding start_stream
  body-start_stream r e = ground arith

  body-close : (r : StreamResponse E) → (close r).body ≡ none
  unfolding close
  body-close r = ground arith

  -- A read that begins finds a live body, and takes it out.
  take_live-awaits :
      (r next : StreamResponse E) (chunks : List (Chunk E))
      → take_live r ≡ (awaits chunks, next)
      → (next.body ≡ none) × (r.body ≡ some (live chunks))
  unfolding take_live
  take_live-awaits r next chunks e = ground arith

  take_live-returns :
      (r next : StreamResponse E) (result : _) → take_live r ≡ (returns result, next) → next ≡ r
  unfolding take_live
  take_live-returns r next result e = ground arith

  -- Every critical section keeps it so.
  Step-IsExclusive : (w v : AsyncResponse E) → Step w v → IsExclusive w → IsExclusive v
  Step-IsExclusive w v (begin_read chunks r e) (idle i) =
      waiting chunks (ap (λ ls. chunks ∷ ls) i) (take_live-awaits w.shared r chunks e).0
  Step-IsExclusive w v (begin_read chunks r e) (waiting others f b) =
      absurd (none≢some (sym b ∙ (take_live-awaits w.shared r chunks e).1))
  Step-IsExclusive w v (read_at_once result r e) (idle i) = idle i
  Step-IsExclusive w v (read_at_once result r e) (waiting others f b) =
      waiting others f
        (ap (λ (x : StreamResponse E). x.body) (take_live-returns w.shared r result e) ∙ b)
  Step-IsExclusive w v (end_read before after chunks bytes e) (idle i) =
      absurd (none_in before after chunks (sym i ∙ e))
  Step-IsExclusive w v (end_read before after chunks bytes e) (waiting others f b) =
      idle (only before after chunks others (sym f ∙ e))
  Step-IsExclusive w v (fail_read before after chunks x e) (idle i) =
      absurd (none_in before after chunks (sym i ∙ e))
  Step-IsExclusive w v (fail_read before after chunks x e) (waiting others f b) =
      idle (only before after chunks others (sym f ∙ e))
  Step-IsExclusive w v close_response (idle i) = idle i
  Step-IsExclusive w v close_response (waiting others f b) = waiting others f (body-close w.shared)
  Step-IsExclusive w v iterate (idle i) = idle i
  Step-IsExclusive w v iterate (waiting others f b) =
      waiting others f (body-start_stream w.shared b)

  Reach-IsExclusive : {w v : AsyncResponse E} → Reach w v → IsExclusive w → IsExclusive v
  Reach-IsExclusive stay h = h
  Reach-IsExclusive (step s rest) h = Reach-IsExclusive rest (Step-IsExclusive _ _ s h)

  -- However the tasks of a response interleave, at most one call of `aread` waits on the network, and
  -- while one does the body is out of the response, so that every other call finds it closed.
  pub Reach-pending_response :
      (chunks : List (Chunk E)) (w : AsyncResponse E)
      → Reach (pending_response chunks) w
      → IsExclusive w
  Reach-pending_response chunks w r = Reach-IsExclusive r (idle refl)

  -- closed, and no read is out that could store a body
  record IsGone (w : AsyncResponse E) : Type 0 where
    pub gone : w.shared.body ≡ none
    pub quiet : w.in_flight ≡ []

  Step-IsGone : (w v : AsyncResponse E) → Step w v → IsGone w → IsGone v
  Step-IsGone w v (begin_read chunks r e) h =
      absurd (none≢some (sym h.gone ∙ (take_live-awaits w.shared r chunks e).1))
  Step-IsGone w v (read_at_once result r e) h = record {
    gone = ap (λ (x : StreamResponse E). x.body) (take_live-returns w.shared r result e) ∙ h.gone;
    quiet = h.quiet;
  }
  Step-IsGone w v (end_read before after chunks bytes e) h =
      absurd (none_in before after chunks (sym h.quiet ∙ e))
  Step-IsGone w v (fail_read before after chunks x e) h =
      absurd (none_in before after chunks (sym h.quiet ∙ e))
  Step-IsGone w v close_response h = record { gone = body-close w.shared; quiet = h.quiet }
  Step-IsGone w v iterate h = record { gone = body-start_stream w.shared h.gone; quiet = h.quiet }

  Reach-IsGone : {w v : AsyncResponse E} → Reach w v → IsGone w → IsGone v
  Reach-IsGone stay h = h
  Reach-IsGone (step s rest) h = Reach-IsGone rest (Step-IsGone _ _ s h)

  is_closed-none :
      (locked : Bool) (r : StreamResponse E) → r.body ≡ none → is_closed locked r ≡ true
  unfolding is_closed
  is_closed-none locked r e = ground arith

  -- Where no call of `aread` waits on the network when `aclose` runs, the response is closed from then
  -- on, whatever its tasks do.
  pub Reach-close :
      (w v : AsyncResponse E) (locked : Bool)
      → w.in_flight ≡ []
      → Reach (aclose w) v
      → is_closed locked v.shared ≡ true
  Reach-close w v locked idle_now r =
      let closed : IsGone (aclose w) = record { gone = body-close w.shared; quiet = idle_now } in
      let h = Reach-IsGone r closed in is_closed-none locked v.shared h.gone

  -- In every state in which a call of `aread` waits on the network, that call may still end after an
  -- `aclose`, whatever bytes the network then gives it; and it leaves the response open, holding those
  -- bytes, with the other calls still waiting.
  pub close-undone :
      (w : AsyncResponse E) (before after : List (List (Chunk E))) (chunks : List (Chunk E))
      (bytes : ByteString) (locked : Bool)
      → w.in_flight ≡ before ++ chunks ∷ after
      → (v : AsyncResponse E) × Step (aclose w) v
        × (is_closed locked v.shared ≡ false)
        × (v.shared.body ≡ some (buffered bytes))
        × (v.in_flight ≡ before ++ after)
  unfolding store is_closed
  close-undone w before after chunks bytes locked waits = (
    record { shared = store bytes (close w.shared); in_flight = before ++ after },
    end_read before after chunks bytes waits,
    refl,
    refl,
    refl,
  )
