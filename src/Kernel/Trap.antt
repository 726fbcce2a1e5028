-- ===== src/Kernel/Trap.antt =====
-- Assign4/kernel.c, `exception`: what the handler guarantees of the process it resumes.
use Prim.Native.Nat.{bit_and}
use native.Mathlib.Decide.{ℕ_discrete}
use systems_programming.Prelude.{
  ℕ, ◌≡◌, ◌≢◌, refl, sym, ap, ◌∙◌, ◌==◌, arith, Bool-cases, Option-cases, inl, inr,
}
use systems_programming.Kernel.State.{
  Hardware, Kernel, Registers, Interrupt, sys_panic, sys_getpid, sys_yield, sys_page_alloc, timer,
  pagefault, sys_fork, sys_exit, other, pid_owner, runnable, broken, set_state, set_eax,
}
use systems_programming.Kernel.Pages.{alloc_free_page}
use systems_programming.Kernel.Alloc.{AddressLaws, Allocated, alloc_free_page-Allocated}
use systems_programming.Kernel.Released.{free_current_process-Released}
use systems_programming.Kernel.Fork.{Forked, child_pid, minus_one, fault, fork_process}
use systems_programming.Kernel.Forking.{ForkPost, Spawned-Orderly, fork_process-ForkPost}
use systems_programming.Kernel.Invariant.{Orderly, Orderly-but, Released-Orderly}
use systems_programming.Kernel.Schedule.{run}
use systems_programming.Kernel.Exception.{
  Next, breaks, reschedules, panics, out_of_bounds, page_alloc, page_fault, after_fork, dispatch,
  user_page, minus_one_eax,
}

module _ {Memory : Type 0} (hw : Hardware Memory) where
  -- Only pids, states and owners matter to the invariant.
  pub Orderly-same :
      (k k' : Kernel Memory)
      → ((q : ℕ) → (k'.processes q).pid ≡ (k.processes q).pid)
      → ((q : ℕ) → (k'.processes q).state ≡ (k.processes q).state)
      → ((j : ℕ) → (k'.pageinfo j).owner ≡ (k.pageinfo j).owner)
      → Orderly hw k
      → Orderly hw k'
  Orderly-same k k' pids states same o = record {
    own_slot = λ i. pids i ∙ o.own_slot i;
    zero_free = states 0 ∙ o.zero_free;
    owners = λ j q h own nz f. o.owners j q h (sym (same j) ∙ own) nz (sym (states q) ∙ f);
  }

  set_eax-Orderly : (k : Kernel Memory) (i v : ℕ) → Orderly hw k → Orderly hw (set_eax k i v)
  set_eax-Orderly k i v o = Orderly-same k _ (λ q. ground arith) (λ q. ground arith) (λ j. refl) o

  current-ne_zero :
      (k : Kernel Memory) → Orderly hw k → (k.processes k.current).state ≡ runnable → k.current ≢ 0
  current-ne_zero k o run e = ground (arith, o.zero_free, run, e)

  -- A table whose current process cannot be slot 0, and whose other processes are as before.
  broken-Orderly :
      (k : Kernel Memory)
      → Orderly hw k
      → (k.processes k.current).state ≡ runnable
      → Orderly hw (set_state k k.current broken)
  broken-Orderly k o run = record {
    own_slot = λ i. ground (arith, o.own_slot i);
    zero_free = ground (arith, o.zero_free, run);
    owners = λ j q h own nz f. o.owners j q h own nz (ground (arith, f));
  }

  Allocated-Orderly :
      (k : Kernel Memory) (addr : ℕ) (k' : Kernel Memory)
      → Orderly hw k
      → (k.processes k.current).state ≡ runnable
      → Allocated hw k (pid_owner (k.processes k.current).pid) addr k'
      → Orderly hw k'
  Allocated-Orderly k addr k' o run a = rw a.result (record {
    own_slot = o.own_slot;
    zero_free = o.zero_free;
    owners = λ j q h own nz f. elim (ℕ_discrete a.page j) [
      | yes e ↦ ground (arith, own, e, o.own_slot k.current, run, f)
      | no ne ↦ o.owners j q h (ground (arith, own, ne)) nz f
    ];
  })

  page_alloc-Orderly :
      (k : Kernel Memory)
      → AddressLaws hw
      → Orderly hw k
      → (k.processes k.current).state ≡ runnable
      → Orderly hw (page_alloc hw k) × ((page_alloc hw k).current ≡ k.current)
  unfolding page_alloc
  page_alloc-Orderly k laws o run =
      let owner = pid_owner (k.processes k.current).pid in
      elim (Option-cases (alloc_free_page hw k owner)) [
        | inl e ↦ rw (e, page_alloc) (set_eax-Orderly k k.current minus_one_eax o, refl)
        | inr ((page, k1), e) ↦
            let a = alloc_free_page-Allocated hw k owner laws e in
            let o1 = Allocated-Orderly k page k1 o run a in
            let cur : k1.current ≡ k.current = ap (λ (s : Kernel Memory). s.current) a.result in
            elim (Bool-cases (user_page hw (k.processes k.current).registers.eax)) [
              | inl valid ↦
                  rw (e, page_alloc, valid)
                    (Orderly-same k1 _ (λ q. ground arith) (λ q. ground arith) (λ j. refl) o1, cur)
              | inr invalid ↦
                  rw (e, page_alloc, invalid) (set_eax-Orderly k1 k1.current minus_one_eax o1, cur)
            ]
      ]

  -- What the switch hands over.
  abbrev pub NextPost : ℕ → Next Memory → Type 0
  NextPost current (breaks k') = Orderly hw k' × (k'.current ≡ current)
  NextPost current (reschedules k') = Orderly hw k' × (k'.current ≡ current)
  NextPost current panics = Unit
  NextPost current out_of_bounds = Unit

  page_fault-NextPost :
      (reg : Registers) (k : Kernel Memory)
      → Orderly hw k
      → (k.processes k.current).state ≡ runnable
      → NextPost k.current (page_fault hw reg k)
  unfolding page_fault
  page_fault-NextPost reg k o run = elim (Bool-cases (bit_and reg.err hw.pfe_user == 0)) [
    | inl e ↦ rw (e, page_fault) tt
    | inr e ↦ rw (e, page_fault) (broken-Orderly k o run, refl)
  ]

  after_fork-NextPost :
      (k : Kernel Memory) (f : Forked Memory)
      → Orderly hw k
      → ForkPost hw k f
      → NextPost k.current (after_fork hw f)
  unfolding after_fork
  after_fork-NextPost k (child_pid child k') o s =
      (set_eax-Orderly k' k'.current child (Spawned-Orderly hw k child k' o s), s.same_current)
  after_fork-NextPost k (minus_one k') o r =
      (set_eax-Orderly k' k'.current minus_one_eax r.orderly, r.same_current)
  after_fork-NextPost k fault o r = tt

  pub dispatch-NextPost :
      (i : Interrupt) (reg : Registers) (k : Kernel Memory)
      → AddressLaws hw
      → Orderly hw k
      → (k.processes k.current).state ≡ runnable
      → NextPost k.current (dispatch hw i reg k)
  unfolding dispatch
  dispatch-NextPost sys_panic reg k laws o run = tt
  dispatch-NextPost sys_getpid reg k laws o run =
      (set_eax-Orderly k k.current (k.processes k.current).pid o, refl)
  dispatch-NextPost sys_yield reg k laws o run = (o, refl)
  dispatch-NextPost sys_page_alloc reg k laws o run = page_alloc-Orderly k laws o run
  dispatch-NextPost timer reg k laws o run =
      (Orderly-same k _ (λ q. refl) (λ q. refl) (λ j. refl) o, refl)
  dispatch-NextPost pagefault reg k laws o run = page_fault-NextPost reg k o run
  dispatch-NextPost sys_fork reg k laws o run =
      after_fork-NextPost k (fork_process hw k) o (fork_process-ForkPost hw laws k o run)
  dispatch-NextPost sys_exit reg k laws o run =
      let nz = current-ne_zero k o run in
      let r = free_current_process-Released hw k k.current nz (o.own_slot k.current) in
      (Released-Orderly hw k k.current _ nz (Orderly-but hw k.current k o) r, r.same_current)
  dispatch-NextPost (other n) reg k laws o run = tt
