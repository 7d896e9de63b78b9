-- ===== src/Runtime/Moves/Slots.antt =====
-- What the threads know of the slots they hold pointers to, whatever the others do.
use rqx.Base.{
  ℕ, Bool, true, false, Option, none, some, ◌≡◌, refl, sym, ap, ◌∙◌, arith, inl, inr, Bool-cases,
  nat_beq, nat_beq_iff,
}
use rqx.Runtime.{
  Slot, without, at_address, Memory, Thread, idle, opened, building, built, lost, installed,
  retracting, taking, returned, refused, closing, swapped, stopped, slot_for, take_runtime,
  new_slot, publish, mark_closed, update,
}
use rqx.Runtime.Moves.{
  enter, refuse, use_current, start_build, allocate, cannot_build, install, lose, use_winner, retry,
  keep, give_way, unpublish, leave_current, take_own, close, swap, stop, leave_foreign, Move,
  handles, builds, retracts, shuts, return_handle, return_error,
}

pub some≢none : {A : Type 0} {a : A} → some a ≡ none → ⊥
some≢none e = ground arith

-- a slot of the process, or of the process it was forked from
abbrev pub IsSlot : ℕ → Memory → ℕ → Bool → Type 0
IsSlot pid m i ours = (s : Slot) × (m.slots i ≡ some s) × (nat_beq s.pid pid ≡ ours)

abbrev pub IsForeign : ℕ → Memory → Option ℕ → Type 0
IsForeign pid m none = Unit {0}
IsForeign pid m (some i) = IsSlot pid m i false

abbrev pub IsAllocated : Memory → Option ℕ → Type 0
IsAllocated m none = Unit {0}
IsAllocated m (some i) = (s : Slot) × (m.slots i ≡ some s)

-- what a thread knows
abbrev pub Knows : ℕ → Memory → Thread → Type 0
Knows pid m idle = Unit {0}
Knows pid m opened = Unit {0}
Knows pid m (building seen) = IsForeign pid m seen
Knows pid m (built seen i) = IsForeign pid m seen × IsSlot pid m i true
Knows pid m (lost winner) = IsAllocated m winner
Knows pid m (installed i) = IsSlot pid m i true
Knows pid m (retracting i) = IsSlot pid m i true
Knows pid m (taking i) = IsSlot pid m i true
Knows pid m (returned i) = IsSlot pid m i true
Knows pid m refused = Unit {0}
Knows pid m closing = Unit {0}
Knows pid m (swapped pointer) = Unit {0}
Knows pid m stopped = Unit {0}

-- Slots stay allocated and keep their process.
pub record Keeps (m m' : Memory) : Type 0 where
  pub kept :
      (i : ℕ) (s : Slot)
      → m.slots i ≡ some s
      → (s' : Slot) × (m'.slots i ≡ some s') × (s'.pid ≡ s.pid)

Keeps-same : (m m' : Memory) → m'.slots ≡ m.slots → Keeps m m'
Keeps-same m m' e = record { kept = λ i s f. (s, ap (λ g. g i) e ∙ f, refl) }

-- A slot whose entry is written keeps its process.
update-kept :
    (m : Memory) (j i : ℕ) (s : Slot) (new : Option Slot)
    → m.slots i ≡ some s
    → (i ≡ j → (s' : Slot) × (new ≡ some s') × (s'.pid ≡ s.pid))
    → (s' : Slot) × (update m.slots j new i ≡ some s') × (s'.pid ≡ s.pid)
update-kept m j i s new f written = elim (Bool-cases (nat_beq i j)) [
  | inl e ↦ let (s', n, p) = written ((nat_beq_iff i j).0 e) in (s', rw e n, p)
  | inr e ↦ (s, rw e f, refl)
]

take_runtime-Keeps : (m : Memory) (j : ℕ) → Keeps m (take_runtime m j)
unfolding take_runtime
take_runtime-Keeps m j = record {
  kept = λ i s f.
      update-kept m j i s (without (m.slots j)) f
        (λ e. (record s { runtime = false }, ap without (ap m.slots (sym e) ∙ f), refl));
}

new_slot-Keeps : (pid : ℕ) (m : Memory) (j : ℕ) → m.slots j ≡ none → Keeps m (new_slot pid m j)
unfolding new_slot
new_slot-Keeps pid m j free = record {
  kept = λ i s f. update-kept m j i s _ f (λ e. absurd (some≢none (sym f ∙ ap m.slots e ∙ free)));
}

module _ (pid : ℕ) where
  pub Move-Keeps : {m m' : Memory} {t t' : Thread} → Move pid m t t' m' → Keeps m m'
  unfolding publish mark_closed
  Move-Keeps {m} (handles (enter e)) = Keeps-same m m refl
  Move-Keeps {m} (handles (refuse e)) = Keeps-same m m refl
  Move-Keeps {m} (handles (use_current i e)) = Keeps-same m m refl
  Move-Keeps {m} (handles (start_build e)) = Keeps-same m m refl
  Move-Keeps {m} (builds (allocate seen i e)) = new_slot-Keeps pid m i e
  Move-Keeps {m} (builds (cannot_build seen)) = Keeps-same m m refl
  Move-Keeps {m} (builds (install seen i e)) = Keeps-same m (publish m (some i)) refl
  Move-Keeps {m} (builds (lose seen i e)) = take_runtime-Keeps m i
  Move-Keeps {m} (builds (use_winner winner i e)) = Keeps-same m m refl
  Move-Keeps {m} (builds (retry winner e)) = Keeps-same m m refl
  Move-Keeps {m} (builds (keep i e)) = Keeps-same m m refl
  Move-Keeps {m} (builds (give_way i e)) = Keeps-same m m refl
  Move-Keeps {m} (retracts (unpublish i e)) = Keeps-same m (publish m none) refl
  Move-Keeps {m} (retracts (leave_current i e)) = Keeps-same m m refl
  Move-Keeps {m} (retracts (take_own i)) = take_runtime-Keeps m i
  Move-Keeps {m} (shuts close) = Keeps-same m (mark_closed m) refl
  Move-Keeps {m} (shuts swap) = Keeps-same m (publish m none) refl
  Move-Keeps {m} (shuts (stop pointer i e)) = take_runtime-Keeps m i
  Move-Keeps {m} (shuts (leave_foreign pointer e)) = Keeps-same m m refl
  Move-Keeps {m} (return_handle i) = Keeps-same m m refl
  Move-Keeps {m} return_error = Keeps-same m m refl

  pub IsSlot-kept :
      {m m' : Memory} (i : ℕ) (ours : Bool)
      → Keeps m m'
      → IsSlot pid m i ours
      → IsSlot pid m' i ours
  IsSlot-kept i ours k (s, f, o) =
      let (s', f', p) = k.kept i s f in (s', f', ap (λ q. nat_beq q pid) p ∙ o)

  IsForeign-kept :
      {m m' : Memory} (pointer : Option ℕ)
      → Keeps m m'
      → IsForeign pid m pointer
      → IsForeign pid m' pointer
  IsForeign-kept none k h = tt
  IsForeign-kept (some i) k h = IsSlot-kept i false k h

  pub IsAllocated-kept :
      {m m' : Memory} (pointer : Option ℕ)
      → Keeps m m'
      → IsAllocated m pointer
      → IsAllocated m' pointer
  IsAllocated-kept none k h = tt
  IsAllocated-kept (some i) k (s, f) = let (s', f', p) = k.kept i s f in (s', f')

  -- What a thread knows stays true whatever another does.
  pub Knows-kept : {m m' : Memory} (t : Thread) → Keeps m m' → Knows pid m t → Knows pid m' t
  Knows-kept idle k h = tt
  Knows-kept opened k h = tt
  Knows-kept (building seen) k h = IsForeign-kept seen k h
  Knows-kept (built seen i) k (f, o) = (IsForeign-kept seen k f, IsSlot-kept i true k o)
  Knows-kept (lost winner) k h = IsAllocated-kept winner k h
  Knows-kept (installed i) k h = IsSlot-kept i true k h
  Knows-kept (retracting i) k h = IsSlot-kept i true k h
  Knows-kept (taking i) k h = IsSlot-kept i true k h
  Knows-kept (returned i) k h = IsSlot-kept i true k h
  Knows-kept refused k h = tt
  Knows-kept closing k h = tt
  Knows-kept (swapped pointer) k h = tt
  Knows-kept stopped k h = tt

  at_address-some :
      (m : Memory) (j i : ℕ) (o : Option Slot)
      → m.slots j ≡ o
      → at_address pid j o ≡ some i
      → (some j ≡ some i) × IsSlot pid m i true
  at_address-some m j i none f e = absurd (some≢none (sym e))
  at_address-some m j i (some s) f e = elim (Bool-cases (nat_beq s.pid pid)) [
    | inl ours ↦
        let same : j ≡ i = ground arith in (ap some same, (s, ap m.slots (sym same) ∙ f, ours))
    | inr other ↦ ground arith
  ]

  -- `slot_for` finds the process's slots and no others.
  pub slot_for-some :
      (m : Memory) (pointer : Option ℕ) (i : ℕ)
      → slot_for pid m pointer ≡ some i
      → (pointer ≡ some i) × IsSlot pid m i true
  unfolding slot_for
  slot_for-some m none i e = absurd (some≢none (sym e))
  slot_for-some m (some j) i e = at_address-some m j i (m.slots j) refl e

  pub slot_for-none :
      (m : Memory) (pointer : Option ℕ)
      → slot_for pid m pointer ≡ none
      → IsAllocated m pointer
      → IsForeign pid m pointer
  unfolding slot_for
  slot_for-none m none e a = tt
  slot_for-none m (some j) e (s, f) = (s, f, ground arith)
