-- ===== src/Kernel/Resume.antt =====
-- Assign4/kernel.c, `exception`: the process that it resumes, and the invariant.
use systems_programming.Prelude.{ℕ, ◌<◌, ◌≡◌, refl, none, arith, Bool-cases, Option-cases, inl, inr}
use systems_programming.Kernel.State.{Hardware, Kernel, Registers, runnable, is_runnable}
use systems_programming.Kernel.Alloc.{AddressLaws}
use systems_programming.Kernel.Ownership.{is_runnable→eq}
use systems_programming.Kernel.Invariant.{Orderly}
use systems_programming.Kernel.Schedule.{run, schedule}
use systems_programming.Kernel.RoundRobin.{schedule-Picked, schedule-spins}
use systems_programming.Kernel.Trap.{NextPost, dispatch-NextPost, Orderly-same}
use systems_programming.Kernel.Check.{virtual_memory_check}
use systems_programming.Kernel.Display.{show_memory}
use systems_programming.Kernel.Drawing.{drawn_on, Drawing, show_memory-Drawing}
use systems_programming.Kernel.Exception.{
  Next, breaks, reschedules, panics, out_of_bounds, Outcome, resumes, spins, stops, save, pick_next,
  resume, finish_exception, exception, dispatch,
}

module _ {Memory : Type 0} (hw : Hardware Memory) where
  -- How an exception may end.
  abbrev pub OutcomePost : Outcome Memory → Type 0
  OutcomePost (resumes k') =
      Orderly hw k'
      × ((k'.processes k'.current).state ≡ runnable)
      × (k'.active_pagetable ≡ (k'.processes k'.current).pagetable)
      × (k'.current < hw.nproc)
  OutcomePost (spins k') = Orderly hw k' × ((fuel : ℕ) → schedule hw fuel k' ≡ none)
  OutcomePost (stops n) = Unit

  pick_next-OutcomePost :
      (k : Kernel Memory) → Orderly hw k → k.current < hw.nproc → OutcomePost (pick_next hw k)
  unfolding pick_next
  pick_next-OutcomePost k o lt =
      let pid_lt : (k.processes k.current).pid < hw.nproc = rw (o.own_slot k.current) lt in
      elim (Option-cases (schedule hw hw.nproc k)) [
        | inl e ↦ rw (e, pick_next) (o, schedule-spins hw k pid_lt e)
        | inr (k', e) ↦
            let p = schedule-Picked hw hw.nproc k e in
            rw (e, pick_next)
              (rw p.result (
                Orderly-same hw k _ (λ q. refl) (λ q. refl) (λ j. refl) o,
                is_runnable→eq _ p.can_run,
                refl,
                omega arith,
              ))
      ]

  resume-OutcomePost :
      (k : Kernel Memory) → Orderly hw k → k.current < hw.nproc → OutcomePost (resume hw k)
  unfolding resume run
  resume-OutcomePost k o lt = elim (Bool-cases (is_runnable (k.processes k.current).state)) [
    | inl e ↦
        rw (e, resume, run)
          (Orderly-same hw k _ (λ q. refl) (λ q. refl) (λ j. refl) o, is_runnable→eq _ e, refl, lt)
    | inr e ↦ rw (e, resume) (pick_next-OutcomePost k o lt)
  ]

  finish_exception-OutcomePost :
      (current : ℕ) (n : Next Memory)
      → current < hw.nproc
      → NextPost hw current n
      → OutcomePost (finish_exception hw n)
  unfolding finish_exception
  finish_exception-OutcomePost current (breaks k) lt p =
      resume-OutcomePost k p.0 (omega (arith, p.1))
  finish_exception-OutcomePost current (reschedules k) lt p =
      pick_next-OutcomePost k p.0 (omega (arith, p.1))
  finish_exception-OutcomePost current panics lt p = tt
  finish_exception-OutcomePost current out_of_bounds lt p = tt

  shown-OutcomePost :
      (reg : Registers) (k : Kernel Memory)
      → AddressLaws hw
      → Orderly hw k
      → (k.processes k.current).state ≡ runnable
      → k.current < hw.nproc
      → (shown : Kernel Memory) → Drawing k shown
      → OutcomePost (finish_exception hw (dispatch hw reg.intno reg shown))
  shown-OutcomePost reg k laws o run lt shown d = rw d.result (
      finish_exception-OutcomePost k.current _ lt (
        dispatch-NextPost hw reg.intno reg (drawn_on k d.console d.animation) laws
          (Orderly-same hw k _ (λ q. refl) (λ q. refl) (λ j. refl) o) run))

  -- An exception taken by a running process of an orderly table resumes a runnable process of the
  -- table, under its own page table, with the table still orderly; or leaves the table orderly with
  -- no process that any number of scheduler rounds would find; or stops the kernel.
  pub exception-OutcomePost :
      (reg : Registers) (k : Kernel Memory)
      → AddressLaws hw
      → Orderly hw k
      → (k.processes k.current).state ≡ runnable
      → k.current < hw.nproc
      → OutcomePost (exception hw reg k)
  unfolding exception
  exception-OutcomePost reg k laws o run lt =
      let saved = save hw reg k in
      let o' : Orderly hw saved =
        Orderly-same hw k saved (λ q. ground arith) (λ q. ground arith) (λ j. refl) o in
      elim (Bool-cases (virtual_memory_check hw saved)) [
        | inl e ↦ elim (Option-cases (show_memory hw saved)) [
          | inl undrawn ↦ rw (e, undrawn, exception) tt
          | inr (shown, drawn) ↦
              rw (e, drawn, exception)
                (shown-OutcomePost reg saved laws o' (ground (arith, run)) lt shown
                  (show_memory-Drawing hw saved shown drawn))
        ]
        | inr e ↦ rw (e, exception) tt
      ]
