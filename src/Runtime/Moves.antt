-- ===== src/Runtime/Moves.antt =====
-- The moves of the threads of crates/rqx/src/runtime.rs, function by function. `Option.none` in
-- `current` is the null pointer.
pub mod Slots
pub mod Owners
pub mod Closed
pub mod Shutdown
pub mod Progress
use rqx.Base.{ℕ, Bool, true, false, Option, none, some, ◌≡◌, ◌≢◌}
use rqx.Runtime.{
  Memory, Thread, idle, opened, building, built, lost, installed, retracting, taking, returned,
  refused, closing, swapped, stopped, slot_for, take_runtime, new_slot, publish, mark_closed,
  update,
}

module _ (pid : ℕ) where
  -- `handle`
  pub data HandleMove (m : Memory) : Thread → Thread → Memory → Type 0 where
    enter : m.closed ≡ false → HandleMove m idle opened m
    refuse : m.closed ≡ true → HandleMove m idle refused m
    use_current : (i : ℕ) → slot_for pid m m.current ≡ some i → HandleMove m opened (returned i) m
    start_build : slot_for pid m m.current ≡ none → HandleMove m opened (building m.current) m

  -- `build`
  pub data BuildMove (m : Memory) : Thread → Thread → Memory → Type 0 where
    allocate :
        (seen : Option ℕ) (i : ℕ)
        → m.slots i ≡ none
        → BuildMove m (building seen) (built seen i) (new_slot pid m i)
    cannot_build : (seen : Option ℕ) → BuildMove m (building seen) refused m
    install :
        (seen : Option ℕ) (i : ℕ)
        → m.current ≡ seen
        → BuildMove m (built seen i) (installed i) (publish m (some i))
    -- the slot is freed, and its runtime dropped
    lose :
        (seen : Option ℕ) (i : ℕ)
        → m.current ≢ seen
        → BuildMove m (built seen i) (lost m.current) (take_runtime m i)
    use_winner :
        (winner : Option ℕ) (i : ℕ)
        → slot_for pid m winner ≡ some i
        → BuildMove m (lost winner) (returned i) m
    retry :
        (winner : Option ℕ)
        → slot_for pid m winner ≡ none
        → BuildMove m (lost winner) (building winner) m
    keep : (i : ℕ) → m.closed ≡ false → BuildMove m (installed i) (returned i) m
    give_way : (i : ℕ) → m.closed ≡ true → BuildMove m (installed i) (retracting i) m

  -- `retract`
  pub data RetractMove (m : Memory) : Thread → Thread → Memory → Type 0 where
    unpublish :
        (i : ℕ) → m.current ≡ some i → RetractMove m (retracting i) (taking i) (publish m none)
    leave_current : (i : ℕ) → m.current ≢ some i → RetractMove m (retracting i) (taking i) m
    take_own : (i : ℕ) → RetractMove m (taking i) refused (take_runtime m i)

  -- `shutdown`
  pub data ShutdownMove (m : Memory) : Thread → Thread → Memory → Type 0 where
    close : ShutdownMove m idle closing (mark_closed m)
    swap : ShutdownMove m closing (swapped m.current) (publish m none)
    stop :
        (pointer : Option ℕ) (i : ℕ)
        → slot_for pid m pointer ≡ some i
        → ShutdownMove m (swapped pointer) stopped (take_runtime m i)
    leave_foreign :
        (pointer : Option ℕ)
        → slot_for pid m pointer ≡ none
        → ShutdownMove m (swapped pointer) stopped m

  pub data Move (m : Memory) : Thread → Thread → Memory → Type 0 where
    handles : {t t' : Thread} {m' : Memory} → HandleMove m t t' m' → Move m t t' m'
    builds : {t t' : Thread} {m' : Memory} → BuildMove m t t' m' → Move m t t' m'
    retracts : {t t' : Thread} {m' : Memory} → RetractMove m t t' m' → Move m t t' m'
    shuts : {t t' : Thread} {m' : Memory} → ShutdownMove m t t' m' → Move m t t' m'
    -- a call is over, and its thread is free for another
    return_handle : (i : ℕ) → Move m (returned i) idle m
    return_error : Move m refused idle m

-- the memory, and every thread of the process
pub record Process : Type 0 where
  pub memory : Memory
  pub threads : ℕ → Thread

module _ (pid : ℕ) where
  pub data Step (w : Process) : Process → Type 0 where
    step :
        (t : ℕ) (next : Thread) (m : Memory)
        → Move pid w.memory (w.threads t) next m
        → Step w (record { memory = m; threads = update w.threads t next })

  pub data Reach : Process → Process → Type 0 where
    stay : {w : Process} → Reach w w
    then_step : {w v u : Process} → Step w v → Reach v u → Reach w u
