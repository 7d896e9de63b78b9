-- ===== src/Runtime/Moves/Progress.antt =====
-- The calls of crates/rqx/src/runtime.rs end: no thread waits for another.
use rqx.Base.{
  ℕ, zero, suc, ◌≤◌, Option, none, some, ◌≡◌, ◌≢◌, refl, inl, inr, Bool-cases, Option-cases, arith,
}
use rqx.Runtime.{
  Memory, Thread, idle, opened, building, built, lost, installed, retracting, taking, returned,
  refused, closing, swapped, stopped, slot_for, take_runtime, new_slot, publish, mark_closed,
}
use rqx.Runtime.Moves.Slots.{some≢none}
use rqx.Runtime.Moves.Owners.{pointer?}
use rqx.Runtime.Moves.{
  enter, refuse, use_current, start_build, allocate, cannot_build, install, lose, use_winner, retry,
  keep, give_way, unpublish, leave_current, take_own, close, swap, stop, leave_foreign, Move,
  handles, builds, retracts, shuts,
}

abbrev pub IsOver : Thread → Type 0
IsOver idle = ⊥
IsOver opened = ⊥
IsOver (building seen) = ⊥
IsOver (built seen i) = ⊥
IsOver (lost winner) = ⊥
IsOver (installed i) = ⊥
IsOver (retracting i) = ⊥
IsOver (taking i) = ⊥
IsOver (returned i) = Unit {0}
IsOver refused = Unit {0}
IsOver closing = ⊥
IsOver (swapped pointer) = ⊥
IsOver stopped = Unit {0}

module _ (pid : ℕ) where
  pub data Ends : ℕ → Memory → Thread → Type 0 where
    over : {n : ℕ} {m : Memory} {t : Thread} → IsOver t → Ends n m t
    more :
        {n : ℕ} {m : Memory} {t : Thread} (next : Thread) (m' : Memory)
        → Move pid m t next m'
        → ((u : Thread) (l : Memory) → Move pid m t u l → Ends n l u)
        → Ends (suc n) m t

-- two pointers are the same or not
data SamePointer (p q : Option ℕ) : Type 0 where
  same_pointer : p ≡ q → SamePointer p q
  other_pointer : p ≢ q → SamePointer p q

same_pointer? : (p q : Option ℕ) → SamePointer p q
same_pointer? none none = same_pointer refl
same_pointer? p (some j) = elim (pointer? p j) [ inl e ↦ same_pointer e | inr n ↦ other_pointer n ]
same_pointer? (some i) none = other_pointer some≢none

module _ {pid : ℕ} where
  Ends-mono : {n k : ℕ} {m : Memory} {t : Thread} → Ends pid n m t → n ≤ k → Ends pid k m t
  Ends-mono (over o) h = over o
  Ends-mono {k = zero} (more u l v f) h = absurd (omega arith)
  Ends-mono {k = suc k} (more u l v f) h =
      more u l v λ u' l' v'. Ends-mono (f u' l' v') (omega arith)

  taking-Ends : (m : Memory) (i : ℕ) → Ends pid 1 m (taking i)
  taking-Ends m i = more refused (take_runtime m i) (retracts (take_own i)) after
    where
      after : (u : Thread) (l : Memory) → Move pid m (taking i) u l → Ends pid 0 l u
      after u l (handles x) = elim x [ ]
      after u l (builds x) = elim x [ ]
      after u l (retracts (take_own j)) = over tt
      after u l (shuts x) = elim x [ ]

  retracting-Ends : (m : Memory) (i : ℕ) → Ends pid 2 m (retracting i)
  retracting-Ends m i = elim (pointer? m.current i) [
    | inl e ↦ more (taking i) (publish m none) (retracts (unpublish i e)) after
    | inr n ↦ more (taking i) m (retracts (leave_current i n)) after
  ]
    where
      after : (u : Thread) (l : Memory) → Move pid m (retracting i) u l → Ends pid 1 l u
      after u l (handles x) = elim x [ ]
      after u l (builds x) = elim x [ ]
      after u l (retracts (unpublish j e)) = taking-Ends (publish m none) j
      after u l (retracts (leave_current j n)) = taking-Ends m j
      after u l (shuts x) = elim x [ ]

  installed-Ends : (m : Memory) (i : ℕ) → Ends pid 3 m (installed i)
  installed-Ends m i = elim (Bool-cases m.closed) [
    | inl e ↦ more (retracting i) m (builds (give_way i e)) after
    | inr e ↦ more (returned i) m (builds (keep i e)) after
  ]
    where
      after : (u : Thread) (l : Memory) → Move pid m (installed i) u l → Ends pid 2 l u
      after u l (handles x) = elim x [ ]
      after u l (builds (keep j e)) = over tt
      after u l (builds (give_way j e)) = retracting-Ends m j
      after u l (retracts x) = elim x [ ]
      after u l (shuts x) = elim x [ ]

  -- with a slot of its own, when what it saw is still current
  built_current-Ends :
      (m : Memory) (seen : Option ℕ) (i : ℕ) → m.current ≡ seen → Ends pid 4 m (built seen i)
  built_current-Ends m seen i fresh =
      more (installed i) (publish m (some i)) (builds (install seen i fresh)) after
    where
      after : (u : Thread) (l : Memory) → Move pid m (built seen i) u l → Ends pid 3 l u
      after u l (handles x) = elim x [ ]
      after u l (builds (install seen' j e)) = installed-Ends (publish m (some j)) j
      after u l (builds (lose seen' j n)) = absurd (n fresh)
      after u l (retracts x) = elim x [ ]
      after u l (shuts x) = elim x [ ]

  building_current-Ends :
      (m : Memory) (seen : Option ℕ) → m.current ≡ seen → Ends pid 5 m (building seen)
  building_current-Ends m seen fresh = more refused m (builds (cannot_build seen)) after
    where
      after : (u : Thread) (l : Memory) → Move pid m (building seen) u l → Ends pid 4 l u
      after u l (handles x) = elim x [ ]
      after u l (builds (allocate seen' j e)) =
          built_current-Ends (new_slot pid m j) seen' j (unfold new_slot in fresh)
      after u l (builds (cannot_build seen')) = over tt
      after u l (retracts x) = elim x [ ]
      after u l (shuts x) = elim x [ ]

  opened-Ends : (m : Memory) → Ends pid 6 m opened
  opened-Ends m = elim (Option-cases (slot_for pid m m.current)) [
    | inl e ↦ more (building m.current) m (handles (start_build e)) after
    | inr (i, e) ↦ more (returned i) m (handles (use_current i e)) after
  ]
    where
      after : (u : Thread) (l : Memory) → Move pid m opened u l → Ends pid 5 l u
      after u l (handles (use_current i e)) = over tt
      after u l (handles (start_build e)) = building_current-Ends m m.current refl
      after u l (builds x) = elim x [ ]
      after u l (retracts x) = elim x [ ]
      after u l (shuts x) = elim x [ ]

  -- a lost race, given what a build takes from the winner on
  lost-Ends :
      (n : ℕ) (m : Memory) (winner : Option ℕ)
      → Ends pid n m (building winner)
      → Ends pid (suc n) m (lost winner)
  lost-Ends n m winner again = elim (Option-cases (slot_for pid m winner)) [
    | inl e ↦ more (building winner) m (builds (retry winner e)) after
    | inr (i, e) ↦ more (returned i) m (builds (use_winner winner i e)) after
  ]
    where
      after : (u : Thread) (l : Memory) → Move pid m (lost winner) u l → Ends pid n l u
      after u l (handles x) = elim x [ ]
      after u l (builds (use_winner winner' j e)) = over tt
      after u l (builds (retry winner' e)) = again
      after u l (retracts x) = elim x [ ]
      after u l (shuts x) = elim x [ ]

  built-Ends : (m : Memory) (seen : Option ℕ) (i : ℕ) → Ends pid 7 m (built seen i)
  built-Ends m seen i = elim (same_pointer? m.current seen) [
    | same_pointer e ↦ Ends-mono (built_current-Ends m seen i e) (omega arith)
    | other_pointer n ↦ more (lost m.current) (take_runtime m i) (builds (lose seen i n)) (after n)
  ]
    where
      after :
          m.current ≢ seen
          → (u : Thread) (l : Memory) → Move pid m (built seen i) u l
          → Ends pid 6 l u
      after n u l (handles x) = elim x [ ]
      after n u l (builds (install seen' j e)) = absurd (n e)
      after n u l (builds (lose seen' j n')) =
          lost-Ends 5 (take_runtime m j) m.current
            (building_current-Ends (take_runtime m j) m.current (unfold take_runtime in refl))
      after n u l (retracts x) = elim x [ ]
      after n u l (shuts x) = elim x [ ]

  building-Ends : (m : Memory) (seen : Option ℕ) → Ends pid 8 m (building seen)
  building-Ends m seen = more refused m (builds (cannot_build seen)) after
    where
      after : (u : Thread) (l : Memory) → Move pid m (building seen) u l → Ends pid 7 l u
      after u l (handles x) = elim x [ ]
      after u l (builds (allocate seen' j e)) = built-Ends (new_slot pid m j) seen' j
      after u l (builds (cannot_build seen')) = over tt
      after u l (retracts x) = elim x [ ]
      after u l (shuts x) = elim x [ ]

  swapped-Ends : (m : Memory) (pointer : Option ℕ) → Ends pid 1 m (swapped pointer)
  swapped-Ends m pointer = elim (Option-cases (slot_for pid m pointer)) [
    | inl e ↦ more stopped m (shuts (leave_foreign pointer e)) after
    | inr (i, e) ↦ more stopped (take_runtime m i) (shuts (stop pointer i e)) after
  ]
    where
      after : (u : Thread) (l : Memory) → Move pid m (swapped pointer) u l → Ends pid 0 l u
      after u l (handles x) = elim x [ ]
      after u l (builds x) = elim x [ ]
      after u l (retracts x) = elim x [ ]
      after u l (shuts (stop pointer' i e)) = over tt
      after u l (shuts (leave_foreign pointer' e)) = over tt

  closing-Ends : (m : Memory) → Ends pid 2 m closing
  closing-Ends m = more (swapped m.current) (publish m none) (shuts swap) after
    where
      after : (u : Thread) (l : Memory) → Move pid m closing u l → Ends pid 1 l u
      after u l (handles x) = elim x [ ]
      after u l (builds x) = elim x [ ]
      after u l (retracts x) = elim x [ ]
      after u l (shuts swap) = swapped-Ends (publish m none) m.current

  idle-Ends : (m : Memory) → Ends pid 7 m idle
  idle-Ends m = more closing (mark_closed m) (shuts close) after
    where
      after : (u : Thread) (l : Memory) → Move pid m idle u l → Ends pid 6 l u
      after u l (handles (enter e)) = opened-Ends m
      after u l (handles (refuse e)) = over tt
      after u l (builds x) = elim x [ ]
      after u l (retracts x) = elim x [ ]
      after u l (shuts close) = Ends-mono (closing-Ends (mark_closed m)) (omega arith)

-- Wherever a thread stands and whatever the others have left in memory, it can move on, and when it
-- moves alone its call is over after at most nine moves: it waits for no other thread.
pub Thread-Ends : (pid : ℕ) (m : Memory) (t : Thread) → Ends pid 9 m t
Thread-Ends pid m idle = Ends-mono (idle-Ends m) (omega arith)
Thread-Ends pid m opened = Ends-mono (opened-Ends m) (omega arith)
Thread-Ends pid m (building seen) = Ends-mono (building-Ends m seen) (omega arith)
Thread-Ends pid m (built seen i) = Ends-mono (built-Ends m seen i) (omega arith)
Thread-Ends pid m (lost winner) = lost-Ends 8 m winner (building-Ends m winner)
Thread-Ends pid m (installed i) = Ends-mono (installed-Ends m i) (omega arith)
Thread-Ends pid m (retracting i) = Ends-mono (retracting-Ends m i) (omega arith)
Thread-Ends pid m (taking i) = Ends-mono (taking-Ends m i) (omega arith)
Thread-Ends pid m (returned i) = over tt
Thread-Ends pid m refused = over tt
Thread-Ends pid m closing = Ends-mono (closing-Ends m) (omega arith)
Thread-Ends pid m (swapped pointer) = Ends-mono (swapped-Ends m pointer) (omega arith)
Thread-Ends pid m stopped = over tt
