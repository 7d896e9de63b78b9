-- ===== src/Runtime/Moves/Closed.antt =====
-- What `closed` tells the threads of crates/rqx/src/runtime.rs, and who takes a late slot back.
use rqx.Base.{ℕ, Bool, true, false, true≢false, some, ◌≡◌, refl, sym, subst, ap, ◌∙◌, nat_beq}
use rqx.Runtime.{
  Slot, Memory, Thread, idle, opened, building, built, lost, installed, retracting, taking,
  returned, refused, closing, swapped, stopped, take_runtime, new_slot, publish, mark_closed,
}
use rqx.Runtime.Moves.{
  enter, refuse, use_current, start_build, allocate, cannot_build, install, lose, use_winner, retry,
  keep, give_way, unpublish, leave_current, take_own, close, swap, stop, leave_foreign, Move,
  handles, builds, retracts, shuts, return_handle, return_error,
}
use rqx.Runtime.Moves.Slots.{IsSlot, IsForeign, Knows, some≢none}
use rqx.Runtime.Updates.{same, apart, same?}
use rqx.Runtime.Moves.Owners.{Timely, some_inj}

-- the threads that take a slot back out of `current`
abbrev pub Racing : Thread → ℕ → Type 0
Racing idle i = ⊥
Racing opened i = ⊥
Racing (building seen) i = ⊥
Racing (built seen j) i = ⊥
Racing (lost winner) i = ⊥
Racing (installed j) i = i ≡ j
Racing (retracting j) i = i ≡ j
Racing (taking j) i = ⊥
Racing (returned j) i = ⊥
Racing refused i = ⊥
Racing closing i = Unit {0}
Racing (swapped pointer) i = ⊥
Racing stopped i = ⊥

-- who takes `i` back, after a move of a thread from `t` to `t'`
pub data Raced (m : Memory) (t t' : Thread) (i : ℕ) : Type 0 where
  racing : Racing t' i → Raced m t t' i
  already : m.closed ≡ true → m.current ≡ some i → (Racing t i → ⊥) → Raced m t t' i

module _ (pid : ℕ) where
  -- The runtime stays closed.
  pub closed-Move :
      {m m' : Memory} {t t' : Thread} → Move pid m t t' m' → m.closed ≡ true → m'.closed ≡ true
  unfolding publish mark_closed new_slot take_runtime
  closed-Move (handles (enter e)) c = c
  closed-Move (handles (refuse e)) c = c
  closed-Move (handles (use_current i e)) c = c
  closed-Move (handles (start_build e)) c = c
  closed-Move (builds (allocate seen i e)) c = c
  closed-Move (builds (cannot_build seen)) c = c
  closed-Move (builds (install seen i e)) c = c
  closed-Move (builds (lose seen i e)) c = c
  closed-Move (builds (use_winner winner i e)) c = c
  closed-Move (builds (retry winner e)) c = c
  closed-Move (builds (keep i e)) c = c
  closed-Move (builds (give_way i e)) c = c
  closed-Move (retracts (unpublish i e)) c = c
  closed-Move (retracts (leave_current i e)) c = c
  closed-Move (retracts (take_own i)) c = c
  closed-Move (shuts close) c = refl
  closed-Move (shuts swap) c = c
  closed-Move (shuts (stop pointer i e)) c = c
  closed-Move (shuts (leave_foreign pointer e)) c = c
  closed-Move (return_handle i) c = c
  closed-Move return_error c = c

  abbrev clash : {b : Bool} {A : Type 0} → b ≡ true → b ≡ false → A
  clash e f = absurd (true≢false (sym e ∙ f))

  -- Until the runtime is closed, a slot of the process stays in `current`.
  current-Move :
      {m m' : Memory} {t t' : Thread}
      → Move pid m t t' m'
      → Knows pid m t
      → Timely m t
      → (i : ℕ) → IsSlot pid m i true
      → m.current ≡ some i
      → m'.closed ≡ false
      → m'.current ≡ some i
  unfolding publish mark_closed new_slot take_runtime
  current-Move (handles (enter e)) k y i s c o = c
  current-Move (handles (refuse e)) k y i s c o = c
  current-Move (handles (use_current j e)) k y i s c o = c
  current-Move (handles (start_build e)) k y i s c o = c
  current-Move (builds (allocate seen j e)) k y i s c o = c
  current-Move (builds (cannot_build seen)) k y i s c o = c
  current-Move {m} (builds (install seen j e)) (f, own) y i (s, g, ours) c o =
      let (s', g', foreign) = subst (IsForeign pid m) (sym e ∙ c) f in
      let one : s ≡ s' = some_inj (sym g ∙ g') in
      clash ours (ap (λ (x : Slot). nat_beq x.pid pid) one ∙ foreign)
  current-Move (builds (lose seen j e)) k y i s c o = c
  current-Move (builds (use_winner winner j e)) k y i s c o = c
  current-Move (builds (retry winner e)) k y i s c o = c
  current-Move (builds (keep j e)) k y i s c o = c
  current-Move (builds (give_way j e)) k y i s c o = c
  current-Move (retracts (unpublish j e)) k y i s c o = clash y o
  current-Move (retracts (leave_current j e)) k y i s c o = c
  current-Move (retracts (take_own j)) k y i s c o = c
  current-Move (shuts close) k y i s c o = c
  current-Move (shuts swap) k y i s c o = clash y o
  current-Move (shuts (stop pointer j e)) k y i s c o = c
  current-Move (shuts (leave_foreign pointer e)) k y i s c o = c
  current-Move (return_handle j) k y i s c o = c
  current-Move return_error k y i s c o = c

  open_before :
      {m m' : Memory} {t t' : Thread} → Move pid m t t' m' → m'.closed ≡ false → m.closed ≡ false
  open_before {m} v o = before m.closed refl
    where
      before : (b : Bool) → m.closed ≡ b → m.closed ≡ false
      before false e = e
      before true e = clash (closed-Move v e) o

  -- What a thread was told stays true whatever another does.
  pub Timely-kept :
      {m m' : Memory} {t t' : Thread} (u : Thread)
      → Move pid m t t' m'
      → Knows pid m t
      → Timely m t
      → Knows pid m u
      → Timely m u
      → Timely m' u
  Timely-kept idle v k y ku yu = tt
  Timely-kept opened v k y ku yu = tt
  Timely-kept (building seen) v k y ku yu = tt
  Timely-kept (built seen i) v k y ku yu = tt
  Timely-kept (lost winner) v k y ku yu = tt
  Timely-kept (installed i) v k y ku yu = λ o. current-Move v k y i ku (yu (open_before v o)) o
  Timely-kept (retracting i) v k y ku yu = closed-Move v yu
  Timely-kept (taking i) v k y ku yu = closed-Move v yu
  Timely-kept (returned i) v k y ku yu = tt
  Timely-kept refused v k y ku yu = tt
  Timely-kept closing v k y ku yu = closed-Move v yu
  Timely-kept (swapped pointer) v k y ku yu = closed-Move v yu
  Timely-kept stopped v k y ku yu = tt

  -- What a thread is told by its own move.
  pub Move-Timely : {m m' : Memory} {t t' : Thread} → Move pid m t t' m' → Timely m t → Timely m' t'
  unfolding publish mark_closed new_slot take_runtime
  Move-Timely (handles (enter e)) y = tt
  Move-Timely (handles (refuse e)) y = tt
  Move-Timely (handles (use_current i e)) y = tt
  Move-Timely (handles (start_build e)) y = tt
  Move-Timely (builds (allocate seen i e)) y = tt
  Move-Timely (builds (cannot_build seen)) y = tt
  Move-Timely (builds (install seen i e)) y = λ o. refl
  Move-Timely (builds (lose seen i e)) y = tt
  Move-Timely (builds (use_winner winner i e)) y = tt
  Move-Timely (builds (retry winner e)) y = tt
  Move-Timely (builds (keep i e)) y = tt
  Move-Timely (builds (give_way i e)) y = e
  Move-Timely (retracts (unpublish i e)) y = y
  Move-Timely (retracts (leave_current i e)) y = y
  Move-Timely (retracts (take_own i)) y = tt
  Move-Timely (shuts close) y = refl
  Move-Timely (shuts swap) y = y
  Move-Timely (shuts (stop pointer i e)) y = tt
  Move-Timely (shuts (leave_foreign pointer e)) y = tt
  Move-Timely (return_handle i) y = tt
  Move-Timely return_error y = tt

  -- Once the runtime is closed, somebody takes a slot in `current` back.
  pub Move-Raced :
      {m m' : Memory} {t t' : Thread}
      → Move pid m t t' m'
      → (i : ℕ) → m'.closed ≡ true
      → m'.current ≡ some i
      → Raced m t t' i
  unfolding publish mark_closed new_slot take_runtime
  Move-Raced (handles (enter e)) i o c = already o c (λ r. r)
  Move-Raced (handles (refuse e)) i o c = already o c (λ r. r)
  Move-Raced (handles (use_current j e)) i o c = already o c (λ r. r)
  Move-Raced (handles (start_build e)) i o c = already o c (λ r. r)
  Move-Raced (builds (allocate seen j e)) i o c = already o c (λ r. r)
  Move-Raced (builds (cannot_build seen)) i o c = already o c (λ r. r)
  Move-Raced (builds (install seen j e)) i o c = racing (some_inj (sym c))
  Move-Raced (builds (lose seen j e)) i o c = already o c (λ r. r)
  Move-Raced (builds (use_winner winner j e)) i o c = already o c (λ r. r)
  Move-Raced (builds (retry winner e)) i o c = already o c (λ r. r)
  Move-Raced (builds (keep j e)) i o c = clash o e
  Move-Raced (builds (give_way j e)) i o c = elim (same? i j) [
    | same f ↦ racing f
    | apart n ↦ already o c n
  ]
  Move-Raced (retracts (unpublish j e)) i o c = absurd (some≢none (sym c))
  Move-Raced (retracts (leave_current j e)) i o c = already o c (λ f. e (c ∙ ap some f))
  Move-Raced (retracts (take_own j)) i o c = already o c (λ r. r)
  Move-Raced (shuts close) i o c = racing tt
  Move-Raced (shuts swap) i o c = absurd (some≢none (sym c))
  Move-Raced (shuts (stop pointer j e)) i o c = already o c (λ r. r)
  Move-Raced (shuts (leave_foreign pointer e)) i o c = already o c (λ r. r)
  Move-Raced (return_handle j) i o c = already o c (λ r. r)
  Move-Raced return_error i o c = already o c (λ r. r)
