-- ===== src/Kernel/Schedule.antt =====
-- Assign4/kernel.c, `schedule` and `run`. A round of the scheduler's loop also looks for Control-C,
-- which ends the virtual machine; that is left to the environment.
use systems_programming.Prelude.{ℕ, zero, suc, ◌+◌, ◌%◌, Option, none, some, if◌then◌else◌}
use systems_programming.Kernel.State.{Hardware, Kernel, is_runnable}

module _ {Memory : Type 0} (hw : Hardware Memory) where
  -- `none` is the failed assertion that the process is runnable.
  unfoldable pub run : ℕ → Kernel Memory → Option (Kernel Memory)
  run p k =
      if is_runnable (k.processes p).state
      then some (record k { current = p; active_pagetable = (k.processes p).pagetable })
      else none

  -- `while (1)` with fuel, from the process after `pid`; `none` means that no round found a process.
  unfoldable pub schedule_from : ℕ → ℕ → Kernel Memory → Option (Kernel Memory)
  schedule_from zero pid k = none
  schedule_from (suc fuel) pid k =
      let next = (pid + 1) % hw.nproc in
      let rest = schedule_from fuel next k in
      if is_runnable (k.processes next).state then run next k else rest

  unfoldable pub schedule : ℕ → Kernel Memory → Option (Kernel Memory)
  schedule fuel k = schedule_from fuel (k.processes k.current).pid k
