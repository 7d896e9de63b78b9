-- ===== src/Runtime/Moves/Shutdown.antt =====
-- No runtime outlives the shutdown of crates/rqx/src/runtime.rs, however the threads interleave.
use rqx.Base.{ℕ, Bool, true, false, true≢false, Option, none, some, ◌≡◌, refl, sym, subst, ◌∙◌}
use rqx.Runtime.{
  Memory, Thread, idle, opened, building, built, lost, installed, retracting, taking, returned,
  refused, closing, swapped, stopped, update,
}
use rqx.Runtime.Moves.{Process, Reach, stay, then_step, step, Move}
use rqx.Runtime.Moves.Slots.{
  IsSlot, IsForeign, IsAllocated, Knows, Move-Keeps, Knows-kept, some≢none,
}
use rqx.Runtime.Updates.{same, apart, same?, update-same, update-other}
use rqx.Runtime.Moves.Owners.{
  Timely, Owns, holds, owned, published, elsewhere, Move-Knows, Move-Kept,
}
use rqx.Runtime.Moves.Closed.{Racing, racing, already, Timely-kept, Move-Timely, Move-Raced}

-- A thread that is in no build past its slot, in no retract and in no shutdown.
abbrev pub IsAtRest : Thread → Type 0
IsAtRest idle = Unit {0}
IsAtRest opened = Unit {0}
IsAtRest (building seen) = Unit {0}
IsAtRest (built seen i) = ⊥
IsAtRest (lost winner) = Unit {0}
IsAtRest (installed i) = ⊥
IsAtRest (retracting i) = ⊥
IsAtRest (taking i) = ⊥
IsAtRest (returned i) = Unit {0}
IsAtRest refused = Unit {0}
IsAtRest closing = ⊥
IsAtRest (swapped pointer) = ⊥
IsAtRest stopped = Unit {0}

rest-Owns : (t : Thread) (i : ℕ) → IsAtRest t → Owns t i → ⊥
rest-Owns idle i r o = o
rest-Owns opened i r o = o
rest-Owns (building seen) i r o = o
rest-Owns (built seen j) i r o = r
rest-Owns (lost winner) i r o = o
rest-Owns (installed j) i r o = r
rest-Owns (retracting j) i r o = r
rest-Owns (taking j) i r o = r
rest-Owns (returned j) i r o = o
rest-Owns refused i r o = o
rest-Owns closing i r o = o
rest-Owns (swapped pointer) i r o = r
rest-Owns stopped i r o = o

rest-Racing : (t : Thread) (i : ℕ) → IsAtRest t → Racing t i → ⊥
rest-Racing idle i r o = o
rest-Racing opened i r o = o
rest-Racing (building seen) i r o = o
rest-Racing (built seen j) i r o = o
rest-Racing (lost winner) i r o = o
rest-Racing (installed j) i r o = r
rest-Racing (retracting j) i r o = r
rest-Racing (taking j) i r o = o
rest-Racing (returned j) i r o = o
rest-Racing refused i r o = o
rest-Racing closing i r o = r
rest-Racing (swapped pointer) i r o = o
rest-Racing stopped i r o = o

module _ (pid : ℕ) where
  -- a runtime is published, or some thread will publish it, take it back or shut it down
  data IsReachable (w : Process) (i : ℕ) : Type 0 where
    in_current : w.memory.current ≡ some i → IsReachable w i
    with_thread : (t : ℕ) → Owns (w.threads t) i → IsReachable w i

  record IsSound (w : Process) : Type 0 where
    pub allocated : IsAllocated w.memory w.memory.current
    pub knows : (t : ℕ) → Knows pid w.memory (w.threads t)
    pub timely : (t : ℕ) → Timely w.memory (w.threads t)
    pub reachable : (i : ℕ) → holds pid w.memory i ≡ true → IsReachable w i
    pub raced :
        w.memory.closed ≡ true
        → (i : ℕ) → w.memory.current ≡ some i
        → (t : ℕ) × Racing (w.threads t) i

  module _ (w : Process) (t : ℕ) (next : Thread) (m : Memory)
      (v : Move pid w.memory (w.threads t) next m) (h : IsSound w) where
    abbrev after : Process
    after = record { memory = m; threads = update w.threads t next }

    -- A property of the thread that moved and of the others is one of all threads.
    all_threads :
        (Q : Thread → Type 0) → Q next → ((u : ℕ) → Q (w.threads u)) → (u : ℕ) → Q (after.threads u)
    all_threads Q mine others u = elim (same? u t) [
      | same e ↦
          subst (λ x. Q (after.threads x)) (sym e)
            (subst Q (sym (update-same w.threads t next)) mine)
      | apart n ↦ subst Q (sym (update-other w.threads t next u n)) (others u)
    ]

    -- A thread that has a property which the mover had not is another one, and keeps it.
    other_thread :
        (Q : Thread → Type 0) (u : ℕ)
        → (Q (w.threads t) → ⊥)
        → Q (w.threads u)
        → Q (after.threads u)
    other_thread Q u not_mover q = elim (same? u t) [
      | same e ↦ absurd (not_mover (subst (λ x. Q (w.threads x)) e q))
      | apart n ↦ subst Q (sym (update-other w.threads t next u n)) q
    ]

    mover : (Q : Thread → Type 0) → Q next → Q (after.threads t)
    mover Q q = subst Q (sym (update-same w.threads t next)) q

    after-IsReachable : (i : ℕ) → holds pid m i ≡ true → IsReachable after i
    after-IsReachable i held = elim (Move-Kept pid v (h.knows t) (h.timely t) i held) [
      | owned o ↦ with_thread t (mover (λ x. Owns x i) o)
      | published c ↦ in_current c
      | elsewhere before not_mover current ↦ elim (h.reachable i before) [
        | in_current c ↦ in_current (current c)
        | with_thread u o ↦ with_thread u (other_thread (λ x. Owns x i) u not_mover o)
      ]
    ]

    after-raced :
        m.closed ≡ true → (i : ℕ) → m.current ≡ some i → (u : ℕ) × Racing (after.threads u) i
    after-raced c i e = elim (Move-Raced pid v i c e) [
      | racing r ↦ (t, mover (λ x. Racing x i) r)
      | already closed current not_mover ↦
          let (u, r) = h.raced closed i current in (u, other_thread (λ x. Racing x i) u not_mover r)
    ]

    after-IsSound : IsSound after
    after-IsSound =
        let keeps = Move-Keeps pid v in
        let mine = Move-Knows pid v h.allocated (h.knows t) in
        record {
          allocated = mine.1;
          knows =
              all_threads (Knows pid m) mine.0
                (λ u. Knows-kept pid (w.threads u) keeps (h.knows u));
          timely = all_threads (Timely m) (Move-Timely pid v (h.timely t)) (λ u.
              Timely-kept pid (w.threads u) v (h.knows t) (h.timely t) (h.knows u) (h.timely u));
          reachable = after-IsReachable;
          raced = after-raced;
        }

  Reach-IsSound : {w u : Process} → Reach pid w u → IsSound w → IsSound u
  Reach-IsSound stay h = h
  Reach-IsSound {w} (then_step (step t next m v) rest) h =
      Reach-IsSound rest (after-IsSound w t next m v h)

  -- a process at its start: nothing is published but what it inherited over a fork
  pub record IsStart (w : Process) : Type 0 where
    pub idle_threads : (t : ℕ) → w.threads t ≡ idle
    pub not_closed : w.memory.closed ≡ false
    pub inherited : IsForeign pid w.memory w.memory.current
    pub none_held : (i : ℕ) → holds pid w.memory i ≡ false

  IsStart-IsSound : (w : Process) → IsStart w → IsSound w
  IsStart-IsSound w h = record {
    allocated = foreign_allocated w.memory.current h.inherited;
    knows = λ t. subst (Knows pid w.memory) (sym (h.idle_threads t)) tt;
    timely = λ t. subst (Timely w.memory) (sym (h.idle_threads t)) tt;
    reachable = λ i held. absurd (true≢false (sym held ∙ h.none_held i));
    raced = λ c i e. absurd (true≢false (sym c ∙ h.not_closed));
  }
    where
      foreign_allocated :
          (pointer : Option ℕ) → IsForeign pid w.memory pointer → IsAllocated w.memory pointer
      foreign_allocated none f = tt
      foreign_allocated (some i) (s, f, o) = (s, f)

  unpublished :
      (u : Process)
      → u.memory.closed ≡ true
      → ((t : ℕ) → IsAtRest (u.threads t))
      → IsSound u
      → (pointer : Option ℕ) → u.memory.current ≡ pointer
      → u.memory.current ≡ none
  unpublished u c rest h none e = e
  unpublished u c rest h (some i) e =
      let (t, r) = h.raced c i e in absurd (rest-Racing (u.threads t) i (rest t) r)

  unheld :
      (u : Process)
      → ((t : ℕ) → IsAtRest (u.threads t))
      → IsSound u
      → u.memory.current ≡ none
      → (i : ℕ) (held : Bool) → holds pid u.memory i ≡ held
      → holds pid u.memory i ≡ false
  unheld u rest h nothing i false e = e
  unheld u rest h nothing i true e = elim (h.reachable i e) [
    | in_current c ↦ absurd (some≢none (sym c ∙ nothing))
    | with_thread t o ↦ absurd (rest-Owns (u.threads t) i (rest t) o)
  ]

  -- From a start on, and however the threads interleave: once the runtime is closed and every thread
  -- is out of `build` past its slot, out of `retract` and out of `shutdown`, no runtime that the
  -- process built is left running, and nothing is published.
  pub Reach-shutdown :
      (w u : Process)
      → IsStart w
      → Reach pid w u
      → u.memory.closed ≡ true
      → ((t : ℕ) → IsAtRest (u.threads t))
      → (u.memory.current ≡ none) × ((i : ℕ) → holds pid u.memory i ≡ false)
  Reach-shutdown w u start r c rest =
      let h = Reach-IsSound r (IsStart-IsSound w start) in
      let nothing = unpublished u c rest h u.memory.current refl in
      (nothing, λ i. unheld u rest h nothing i (holds pid u.memory i) refl)

  -- From a start on, and however the threads interleave, a handle that a thread gets is to a runtime
  -- of its own process, never to one inherited over a fork.
  pub Reach-handle :
      (w u : Process) (t i : ℕ)
      → IsStart w
      → Reach pid w u
      → u.threads t ≡ returned i
      → IsSlot pid u.memory i true
  Reach-handle w u t i start r e =
      let h = Reach-IsSound r (IsStart-IsSound w start) in subst (Knows pid u.memory) e (h.knows t)
