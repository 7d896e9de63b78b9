-- ===== src/Runtime.antt =====
-- crates/rqx/src/runtime.rs: the process's tokio runtime, which threads build on first use, replace
-- after a fork and shut down at exit. The threads share `current` and `closed` (`Memory`); each move
-- is one access of an atomic or of a slot's mutex, and the moves of the threads interleave freely.
-- A slot's address is a number, and a freed slot's address is not used again.
pub mod Updates
pub mod Moves
use rqx.Base.{ℕ, Bool, true, false, Option, none, some, if◌then◌else◌, nat_beq}

pub record Slot : Type 0 where
  pub pid : ℕ
  -- whether the tokio runtime is still in the mutex
  pub runtime : Bool

pub record Memory : Type 0 where
  pub current : Option ℕ
  pub closed : Bool
  pub slots : ℕ → Option Slot

abbrev pub update {ℓ} : {A : Type ℓ} → (ℕ → A) → ℕ → A → ℕ → A
update f i a j = if nat_beq j i then a else f j

-- where a thread stands
pub data Thread : Type 0 where
  idle : Thread
  -- `handle`, past the test of `closed`
  opened : Thread
  -- `build`, with what it last saw in `current`
  building : Option ℕ → Thread
  -- `build`, with what it saw and its own slot, not yet published
  built : Option ℕ → ℕ → Thread
  -- `build`, when another thread's slot stood in `current`
  lost : Option ℕ → Thread
  -- `build`, with its slot published
  installed : ℕ → Thread
  -- `retract`, before and after its slot leaves `current`
  retracting taking : ℕ → Thread
  -- a handle to the slot's runtime, or an error
  returned : ℕ → Thread
  refused : Thread
  -- `shutdown`, past the store to `closed`, and past the swap
  closing : Thread
  swapped : Option ℕ → Thread
  stopped : Thread

abbrev if_pid : ℕ → ℕ → Slot → Option ℕ
if_pid pid i s = if nat_beq s.pid pid then some i else none

abbrev at_address : ℕ → ℕ → Option Slot → Option ℕ
at_address pid i none = none
at_address pid i (some s) = if_pid pid i s

-- the slot behind a pointer, if it belongs to the process
unfoldable pub slot_for : ℕ → Memory → Option ℕ → Option ℕ
slot_for pid m none = none
slot_for pid m (some i) = at_address pid i (m.slots i)

abbrev without : Option Slot → Option Slot
without none = none
without (some s) = some (record s { runtime = false })

-- the runtime is taken out of a slot and shut down
unfoldable pub take_runtime : Memory → ℕ → Memory
take_runtime m i = record m { slots = update m.slots i (without (m.slots i)) }

-- `Box::into_raw` of a new slot
unfoldable pub new_slot : ℕ → Memory → ℕ → Memory
new_slot pid m i = record m {
  slots = update m.slots i (some (record { pid = pid; runtime = true }));
}

unfoldable pub publish : Memory → Option ℕ → Memory
publish m pointer = record m { current = pointer }

unfoldable pub mark_closed : Memory → Memory
mark_closed m = record m { closed = true }
