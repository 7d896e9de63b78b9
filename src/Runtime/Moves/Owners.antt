-- ===== src/Runtime/Moves/Owners.antt =====
-- Who can still reach a runtime, as the threads of crates/rqx/src/runtime.rs move.
use rqx.Base.{
  ℕ, Bool, true, false, true≢false, Option, none, some, ◌≡◌, ◌≢◌, ◌⊎◌, refl, sym, subst, ap, ◌∙◌,
  arith, inl, inr, nat_beq, ◌&&◌,
}
use rqx.Runtime.{
  Slot, without, at_address, Memory, Thread, idle, opened, building, built, lost, installed,
  retracting, taking, returned, refused, closing, swapped, stopped, slot_for, take_runtime,
  new_slot, publish, mark_closed,
}
use rqx.Runtime.Moves.{
  enter, refuse, use_current, start_build, allocate, cannot_build, install, lose, use_winner, retry,
  keep, give_way, unpublish, leave_current, take_own, close, swap, stop, leave_foreign, Move,
  handles, builds, retracts, shuts, return_handle, return_error,
}
use rqx.Runtime.Updates.{update-same, update-other, same, apart, same?}
use rqx.Runtime.Moves.Slots.{
  IsForeign, IsAllocated, Knows, Keeps, Move-Keeps, Knows-kept, IsAllocated-kept, slot_for-some,
  slot_for-none, some≢none,
}

module _ (pid : ℕ) where
  -- What the thread that moves knows after its move, and that `current` stays allocated.
  pub Move-Knows :
      {m m' : Memory} {t t' : Thread}
      → Move pid m t t' m'
      → IsAllocated m m.current
      → Knows pid m t
      → Knows pid m' t' × IsAllocated m' m'.current
  unfolding publish mark_closed new_slot take_runtime
  Move-Knows (handles (enter e)) a k = (tt, a)
  Move-Knows (handles (refuse e)) a k = (tt, a)
  Move-Knows {m} (handles (use_current i e)) a k = ((slot_for-some pid m m.current i e).1, a)
  Move-Knows {m} (handles (start_build e)) a k = (slot_for-none pid m m.current e a, a)
  Move-Knows {m} {m'} {t} {t'} (builds (allocate seen i e)) a k =
      let keeps : Keeps m (new_slot pid m i) = Move-Keeps pid (builds (allocate seen i e)) in
      (
        (
          Knows-kept pid (building seen) keeps k,
          (record { pid = pid; runtime = true }, ground arith, ground arith),
        ),
        IsAllocated-kept pid m.current keeps a,
      )
  Move-Knows (builds (cannot_build seen)) a k = (tt, a)
  Move-Knows (builds (install seen i e)) a (f, (s, o, q)) = ((s, o, q), (s, o))
  Move-Knows {m} (builds (lose seen i e)) a k =
      let keeps : Keeps m (take_runtime m i) = Move-Keeps pid (builds (lose seen i e)) in
      (IsAllocated-kept pid m.current keeps a, IsAllocated-kept pid m.current keeps a)
  Move-Knows {m} (builds (use_winner winner i e)) a k = ((slot_for-some pid m winner i e).1, a)
  Move-Knows {m} (builds (retry winner e)) a k = (slot_for-none pid m winner e k, a)
  Move-Knows (builds (keep i e)) a k = (k, a)
  Move-Knows (builds (give_way i e)) a k = (k, a)
  Move-Knows (retracts (unpublish i e)) a k = (k, tt)
  Move-Knows (retracts (leave_current i e)) a k = (k, a)
  Move-Knows {m} (retracts (take_own i)) a k =
      let keeps : Keeps m (take_runtime m i) = Move-Keeps pid (retracts (take_own i)) in
      (tt, IsAllocated-kept pid m.current keeps a)
  Move-Knows (shuts close) a k = (tt, a)
  Move-Knows (shuts swap) a k = (tt, tt)
  Move-Knows {m} (shuts (stop pointer i e)) a k =
      let keeps : Keeps m (take_runtime m i) = Move-Keeps pid (shuts (stop pointer i e)) in
      (tt, IsAllocated-kept pid m.current keeps a)
  Move-Knows (shuts (leave_foreign pointer e)) a k = (tt, a)
  Move-Knows (return_handle i) a k = (tt, a)
  Move-Knows return_error a k = (tt, a)

-- the slot's runtime is still there, and the process's
abbrev held_in : ℕ → Option Slot → Bool
held_in pid none = false
held_in pid (some s) = nat_beq s.pid pid && s.runtime

abbrev pub holds : ℕ → Memory → ℕ → Bool
holds pid m i = held_in pid (m.slots i)

held_in-without : (pid : ℕ) (o : Option Slot) → held_in pid (without o) ≡ false
held_in-without pid none = refl
held_in-without pid (some s) = ground arith

pub some_inj : {A : Type 0} {a b : A} → some a ≡ some b → a ≡ b
some_inj e = ground arith

-- the slots that a thread will still publish, take back or shut down
abbrev pub Owns : Thread → ℕ → Type 0
Owns idle i = ⊥
Owns opened i = ⊥
Owns (building seen) i = ⊥
Owns (built seen j) i = i ≡ j
Owns (lost winner) i = ⊥
Owns (installed j) i = i ≡ j
Owns (retracting j) i = i ≡ j
Owns (taking j) i = i ≡ j
Owns (returned j) i = ⊥
Owns refused i = ⊥
Owns closing i = ⊥
Owns (swapped pointer) i = pointer ≡ some i
Owns stopped i = ⊥

-- what `closed` tells a thread
abbrev pub Timely : Memory → Thread → Type 0
Timely m idle = Unit {0}
Timely m opened = Unit {0}
Timely m (building seen) = Unit {0}
Timely m (built seen i) = Unit {0}
Timely m (lost winner) = Unit {0}
Timely m (installed i) = m.closed ≡ false → m.current ≡ some i
Timely m (retracting i) = m.closed ≡ true
Timely m (taking i) = m.closed ≡ true
Timely m (returned i) = Unit {0}
Timely m refused = Unit {0}
Timely m closing = m.closed ≡ true
Timely m (swapped pointer) = m.closed ≡ true
Timely m stopped = Unit {0}

-- where the runtime of a slot is, after a move of a thread from `t` to `t'`
pub data Kept (pid : ℕ) (m m' : Memory) (t t' : Thread) (i : ℕ) : Type 0 where
  owned : Owns t' i → Kept pid m m' t t' i
  published : m'.current ≡ some i → Kept pid m m' t t' i
  elsewhere :
      holds pid m i ≡ true
      → (Owns t i → ⊥)
      → (m.current ≡ some i → m'.current ≡ some i)
      → Kept pid m m' t t' i

pub pointer? : (pointer : Option ℕ) (i : ℕ) → (pointer ≡ some i) ⊎ (pointer ≢ some i)
pointer? none i = inr (λ e. some≢none (sym e))
pointer? (some j) i = elim (same? j i) [
  | same e ↦ inl (ap some e)
  | apart n ↦ inr (λ e. n (some_inj e))
]

module _ (pid : ℕ) where
  -- A slot with a runtime of the process is found, and is not foreign.
  slot_for-holds : (m : Memory) (i : ℕ) → holds pid m i ≡ true → slot_for pid m (some i) ≡ some i
  unfolding slot_for
  slot_for-holds m i h = found (m.slots i) h
    where
      found : (o : Option Slot) → held_in pid o ≡ true → at_address pid i o ≡ some i
      found none e = absurd (true≢false (sym e))
      found (some s) e = ground arith

  foreign-holds : (m : Memory) (i : ℕ) → IsForeign pid m (some i) → holds pid m i ≡ true → ⊥
  foreign-holds m i (s, f, o) h =
      absurd (true≢false (sym (ap (held_in pid) (sym f) ∙ h) ∙ rw o refl))

  -- a runtime is still there after another slot's was taken
  holds-take_runtime :
      (m : Memory) (j i : ℕ)
      → holds pid (take_runtime m j) i ≡ true
      → (holds pid m i ≡ true) × (i ≢ j)
  unfolding take_runtime
  holds-take_runtime m j i h = elim (same? i j) [
    | same e ↦
        let taken : held_in pid (without (m.slots j)) ≡ true =
          ap (held_in pid) (sym (update-same m.slots j (without (m.slots j))))
          ∙ ap (holds pid (take_runtime m j)) (sym e)
          ∙ h in
        absurd (true≢false (sym taken ∙ held_in-without pid (m.slots j)))
    | apart n ↦ (ap (held_in pid) (sym (update-other m.slots j (without (m.slots j)) i n)) ∙ h, n)
  ]

  holds-new_slot :
      (m : Memory) (j i : ℕ) → holds pid (new_slot pid m j) i ≡ true → i ≢ j → holds pid m i ≡ true
  unfolding new_slot
  holds-new_slot m j i h n = ap (held_in pid) (sym (update-other m.slots j _ i n)) ∙ h

  -- Where a runtime is after a move: with the thread that moved, published, or where it was.
  pub Move-Kept :
      {m m' : Memory} {t t' : Thread}
      → Move pid m t t' m'
      → Knows pid m t
      → Timely m t
      → (i : ℕ) → holds pid m' i ≡ true
      → Kept pid m m' t t' i
  unfolding publish mark_closed
  Move-Kept (handles (enter e)) k y i h = elsewhere h (λ o. o) (λ c. c)
  Move-Kept (handles (refuse e)) k y i h = elsewhere h (λ o. o) (λ c. c)
  Move-Kept (handles (use_current j e)) k y i h = elsewhere h (λ o. o) (λ c. c)
  Move-Kept (handles (start_build e)) k y i h = elsewhere h (λ o. o) (λ c. c)
  Move-Kept {m} (builds (allocate seen j e)) k y i h = elim (same? i j) [
    | same f ↦ owned f
    | apart n ↦ elsewhere (holds-new_slot m j i h n) (λ o. o) (λ c. unfold new_slot in c)
  ]
  Move-Kept (builds (cannot_build seen)) k y i h = elsewhere h (λ o. o) (λ c. c)
  Move-Kept {m} (builds (install seen j e)) (f, own) y i h = elim (same? i j) [
    | same g ↦ owned g
    | apart n ↦
        elsewhere h n (λ c. absurd (foreign-holds m i (subst (IsForeign pid m) (sym e ∙ c) f) h))
  ]
  Move-Kept {m} (builds (lose seen j e)) k y i h =
      let (held, n) = holds-take_runtime m j i h in elsewhere held n (λ c. unfold take_runtime in c)
  Move-Kept (builds (use_winner winner j e)) k y i h = elsewhere h (λ o. o) (λ c. c)
  Move-Kept (builds (retry winner e)) k y i h = elsewhere h (λ o. o) (λ c. c)
  Move-Kept (builds (keep j e)) k y i h = elim (same? i j) [
    | same f ↦ published (y e ∙ ap some (sym f))
    | apart n ↦ elsewhere h n (λ c. c)
  ]
  Move-Kept (builds (give_way j e)) k y i h = elim (same? i j) [
    | same f ↦ owned f
    | apart n ↦ elsewhere h n (λ c. c)
  ]
  Move-Kept (retracts (unpublish j e)) k y i h = elim (same? i j) [
    | same f ↦ owned f
    | apart n ↦ elsewhere h n (λ c. absurd (n (some_inj (sym c ∙ e))))
  ]
  Move-Kept (retracts (leave_current j e)) k y i h = elim (same? i j) [
    | same f ↦ owned f
    | apart n ↦ elsewhere h n (λ c. c)
  ]
  Move-Kept {m} (retracts (take_own j)) k y i h =
      let (held, n) = holds-take_runtime m j i h in elsewhere held n (λ c. unfold take_runtime in c)
  Move-Kept (shuts close) k y i h = elsewhere h (λ o. o) (λ c. c)
  Move-Kept {m} (shuts swap) k y i h = elim (pointer? m.current i) [
    | inl e ↦ owned e
    | inr n ↦ elsewhere h (λ o. o) (λ c. absurd (n c))
  ]
  Move-Kept {m} (shuts (stop pointer j e)) k y i h =
      let (held, n) = holds-take_runtime m j i h in
      elsewhere held (λ o. n (some_inj (sym o ∙ (slot_for-some pid m pointer j e).0)))
        (λ c. unfold take_runtime in c)
  Move-Kept {m} (shuts (leave_foreign pointer e)) k y i h =
      elsewhere h
        (λ o. absurd (some≢none (sym (slot_for-holds m i h) ∙ ap (slot_for pid m) (sym o) ∙ e)))
        (λ c. c)
  Move-Kept (return_handle j) k y i h = elsewhere h (λ o. o) (λ c. c)
  Move-Kept return_error k y i h = elsewhere h (λ o. o) (λ c. c)
