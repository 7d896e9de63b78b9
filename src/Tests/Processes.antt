-- ===== src/Tests/Processes.antt =====
-- The theorems on the runtime, at a race of two threads: thread 0 builds a runtime while thread 1
-- shuts down.
use rqx.Base.{ℕ, Bool, true, false, none, some, ◌≡◌, refl, if◌then◌else◌, nat_beq}
use rqx.Runtime.{
  Memory, Thread, idle, opened, building, built, lost, installed, retracting, taking, returned,
  refused, closing, swapped, stopped, slot_for, take_runtime, new_slot, publish, mark_closed,
  update,
}
use rqx.Runtime.Moves.{
  Process, Reach, stay, then_step, step, enter, start_build, allocate, install, keep, give_way,
  unpublish, take_own, close, swap, leave_foreign, handles, builds, retracts, shuts,
}
use rqx.Runtime.Moves.Slots.{IsSlot}
use rqx.Runtime.Moves.Owners.{holds}
use rqx.Runtime.Moves.Progress.{Ends, Thread-Ends}
use rqx.Runtime.Moves.Shutdown.{IsStart, IsAtRest, Reach-shutdown, Reach-handle}

abbrev process : Process
process = record {
  memory = record { current = none; closed = false; slots = λ i. none };
  threads = λ t. idle;
}

process-IsStart : IsStart 7 process
process-IsStart = record {
  idle_threads = λ t. refl;
  not_closed = refl;
  inherited = tt;
  none_held = λ i. refl;
}

-- a process in which thread `t` has moved
abbrev moved : Process → ℕ → Thread → Memory → Process
moved w t next m = record { memory = m; threads = update w.threads t next }

abbrev entered : Process
entered = moved process 0 opened process.memory

abbrev started : Process
started = moved entered 0 (building none) entered.memory

abbrev allocated : Process
allocated = moved started 0 (built none 3) (new_slot 7 started.memory 3)

abbrev told : Process
told = moved allocated 1 closing (mark_closed allocated.memory)

abbrev exchanged : Process
exchanged = moved told 1 (swapped none) (publish told.memory none)

abbrev late : Process
late = moved exchanged 0 (installed 3) (publish exchanged.memory (some 3))

abbrev warned : Process
warned = moved late 0 (retracting 3) late.memory

abbrev withdrawn : Process
withdrawn = moved warned 0 (taking 3) (publish warned.memory none)

abbrev released : Process
released = moved withdrawn 0 refused (take_runtime withdrawn.memory 3)

abbrev ended : Process
ended = moved released 1 stopped released.memory

process-ended : Reach 7 process ended
unfolding slot_for new_slot publish mark_closed take_runtime
process-ended = then_step (step 0 opened process.memory (handles (enter refl))) (
    then_step (step 0 (building none) entered.memory (handles (start_build refl))) (
      then_step
        (step 0 (built none 3) (new_slot 7 started.memory 3) (builds (allocate none 3 refl)))
        (then_step (step 1 closing (mark_closed allocated.memory) (shuts close)) (
          then_step (step 1 (swapped none) (publish told.memory none) (shuts swap)) (
            then_step
              (step 0 (installed 3) (publish exchanged.memory (some 3))
                (builds (install none 3 refl)))
              (then_step (step 0 (retracting 3) late.memory (builds (give_way 3 refl))) (
                then_step
                  (step 0 (taking 3) (publish warned.memory none) (retracts (unpublish 3 refl)))
                  (then_step
                    (step 0 refused (take_runtime withdrawn.memory 3) (retracts (take_own 3)))
                    (then_step (step 1 stopped released.memory (shuts (leave_foreign none refl)))
                      stay)))))))))

ended-IsAtRest : (t : ℕ) → IsAtRest (ended.threads t)
ended-IsAtRest t = by_test (nat_beq t 0) (nat_beq t 1)
  where
    by_test :
        (zeroth first : Bool)
        → IsAtRest (
            if first
            then stopped
            else if zeroth
            then refused
            else if zeroth
            then taking 3
            else if zeroth
            then retracting 3
            else if zeroth
            then installed 3
            else if first
            then swapped none
            else if first
            then closing
            else if zeroth
            then built none 3
            else if zeroth
            then building none
            else if zeroth
            then opened
            else idle)
    by_test true true = tt
    by_test true false = tt
    by_test false true = tt
    by_test false false = tt

Reach-shutdown_example : (ended.memory.current ≡ none) × ((i : ℕ) → holds 7 ended.memory i ≡ false)
unfolding publish take_runtime new_slot mark_closed
Reach-shutdown_example =
    Reach-shutdown 7 process ended process-IsStart process-ended refl ended-IsAtRest

abbrev published : Process
published = moved allocated 0 (installed 3) (publish allocated.memory (some 3))

abbrev served : Process
served = moved published 0 (returned 3) published.memory

process-served : Reach 7 process served
unfolding slot_for new_slot publish mark_closed take_runtime
process-served = then_step (step 0 opened process.memory (handles (enter refl))) (
    then_step (step 0 (building none) entered.memory (handles (start_build refl))) (
      then_step
        (step 0 (built none 3) (new_slot 7 started.memory 3) (builds (allocate none 3 refl)))
        (then_step
          (step 0 (installed 3) (publish allocated.memory (some 3)) (builds (install none 3 refl)))
          (then_step (step 0 (returned 3) published.memory (builds (keep 3 refl))) stay))))

Reach-handle_example : IsSlot 7 served.memory 3 true
Reach-handle_example = Reach-handle 7 process served 0 3 process-IsStart process-served refl

-- a thread that lost a race against the process that it was forked from
abbrev inherited : Memory
inherited = new_slot 6 (publish published.memory (some 4)) 4

Thread-Ends_example : Ends 7 9 inherited (lost (some 4))
Thread-Ends_example = Thread-Ends 7 inherited (lost (some 4))
