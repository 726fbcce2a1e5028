-- ===== src/Kernel/Reach.antt =====
-- Assign4/kernel.c: the states in which a process runs, from the start of the machine on.
use mathlib.Core.Path.{subst}
use systems_programming.Prelude.{ℕ, ◌<◌, ◌≡◌, sym, ◌∙◌, Option, some, List, arith, ap}
use systems_programming.Kernel.State.{Hardware, Kernel, Registers, runnable}
use systems_programming.Kernel.Alloc.{AddressLaws}
use systems_programming.Kernel.Exception.{resumes, exception}
use systems_programming.Kernel.Resume.{OutcomePost, exception-OutcomePost}
use systems_programming.Kernel.Loader.{Images}
use systems_programming.Kernel.Boot.{kernel}
use systems_programming.Kernel.Pageinfo.{PageLaws}
use systems_programming.Kernel.Booting.{ProcessInitLaws, BootPost, kernel-BootPost}

module _ {Memory : Type 0} (hw : Hardware Memory) (images : Images Memory)
    (command : Option (List ℕ)) (k0 : Kernel Memory) where
  -- A process runs: the kernel has started, the running process has changed the memory in any way, or
  -- it took an exception and the kernel resumed a process.
  pub data Reachable : Kernel Memory → Type 0 where
    boots : {k : Kernel Memory} → kernel hw images command k0 ≡ some k → Reachable k
    computes : {k : Kernel Memory} (m : Memory) → Reachable k → Reachable (record k { memory = m })
    traps :
        {k k' : Kernel Memory} (reg : Registers)
        → Reachable k
        → exception hw reg k ≡ resumes k'
        → Reachable k'

  module _ (laws : AddressLaws hw) (pages : PageLaws hw) (init : ProcessInitLaws images)
      (two : 1 < hw.nproc) where
    boots-OutcomePost :
        {k : Kernel Memory} → kernel hw images command k0 ≡ some k → OutcomePost hw (resumes k)
    boots-OutcomePost {k} e =
        let p =
          subst (BootPost hw images laws init command k0) e
            (kernel-BootPost hw images laws init pages command k0) in
        let one : (k.processes 1).state ≡ runnable = p.states 1 ∙ ground arith in
        (
          p.orderly,
          ap (λ i. (k.processes i).state) p.first ∙ one,
          p.table ∙ ap (λ i. (k.processes i).pagetable) (sym p.first),
          omega (arith, p.first, two),
        )

    -- Whatever the processes do, in every state in which one runs the table is orderly, and the
    -- current process is a runnable one of the table under its own page table. The address macros
    -- and process_init obey their laws, and the table has room for process 1.
    pub Reachable-OutcomePost : (k : Kernel Memory) → Reachable k → OutcomePost hw (resumes k)
    Reachable-OutcomePost k (boots e) = boots-OutcomePost e
    Reachable-OutcomePost k (computes {k = k1} m r) =
        let (o, run, table, lt) = Reachable-OutcomePost k1 r in
        (
          record { own_slot = o.own_slot; zero_free = o.zero_free; owners = o.owners },
          run,
          table,
          lt,
        )
    Reachable-OutcomePost k (traps {k = k1} reg r e) =
        let (o, run, table, lt) = Reachable-OutcomePost k1 r in
        subst (OutcomePost hw) e (exception-OutcomePost hw reg k1 laws o run lt)
