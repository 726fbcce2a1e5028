-- ===== src/Kernel/Forking.antt =====
-- Assign4/kernel.c, `fork_process`: what a caller sees of success and of failure.
use native.Mathlib.Decide.{ℕ_discrete}
use systems_programming.Prelude.{
  ℕ, ◌+◌, ◌-◌, ◌≤◌, ◌<◌, ◌≡◌, ◌≢◌, refl, sym, ap, ◌∙◌, true, false, Option, none, some, inl, inr,
  arith, Option-cases,
}
use systems_programming.Prelude.Search.{find_from-some}
use systems_programming.Kernel.State.{
  Hardware, Kernel, pid_owner, po_free, PageInfo, ProcState, Proc, free, runnable, is_free,
}
use systems_programming.Kernel.Pages.{find_free_process_slot}
use systems_programming.Kernel.Release.{free_current_process}
use systems_programming.Kernel.Ownership.{Physical}
use systems_programming.Kernel.Released.{free_current_process-Released}
use systems_programming.Kernel.Alloc.{AddressLaws}
use systems_programming.Kernel.ForkFrame.{
  Claims, Claims-trans, Extends, After, fork_pages-After, copy_pagetable-Extends,
}
use systems_programming.Kernel.Fork.{
  Copying, copied, no_memory, bad_page, Forked, child_pid, minus_one, fault, adopt_table,
  start_child, finish_fork, fork_into, fork_process, fork_rounds,
}
use systems_programming.Kernel.Invariant.{Orderly, OrderlyBut, Released-Orderly}

is_free→eq : (s : ProcState) → is_free s ≡ true → s ≡ free
is_free→eq free h = refl
is_free→eq runnable h = ground arith
is_free→eq ProcState.blocked h = ground arith
is_free→eq ProcState.broken h = ground arith

module _ {Memory : Type 0} (hw : Hardware Memory) where
  -- A process may be started in slot `child`: it is the first free one.
  pub record FreeSlot (k : Kernel Memory) (child : ℕ) : Type 0 where
    pub from_one : 1 ≤ child
    pub in_table : child < 1 + (hw.nproc - 1)
    pub was_free : (k.processes child).state ≡ free
    pub first : (p : ℕ) → 1 ≤ p → p < child → is_free (k.processes p).state ≡ false

  pub find_free_process_slot-FreeSlot :
      (k : Kernel Memory) {child : ℕ} → find_free_process_slot hw k ≡ some child → FreeSlot k child
  unfolding find_free_process_slot
  find_free_process_slot-FreeSlot k {child} h =
      let f = find_from-some _ _ 1 h in
      record {
        from_one = f.lower;
        in_table = f.upper;
        was_free = is_free→eq (k.processes child).state f.passes;
        first = f.before;
      }

  -- The child runs with the parent's registers but eax 0; nothing else in the table changes, and the
  -- pages keep their owners but for free ones that the child takes.
  pub record Spawned (k : Kernel Memory) (child : ℕ) (k' : Kernel Memory) : Type 0 where
    pub slot : FreeSlot k child
    pub started : (k'.processes child).state ≡ runnable
    pub own_pid : (k'.processes child).pid ≡ child
    pub registers :
        (k'.processes child).registers ≡ record (k.processes k.current).registers { eax = 0 }
    pub others : (q : ℕ) → q ≢ child → k'.processes q ≡ k.processes q
    pub same_current : k'.current ≡ k.current
    pub claims : (j : ℕ) → Claims child (k.pageinfo j) (k'.pageinfo j)

  pub Spawned-Orderly :
      (k : Kernel Memory) (child : ℕ) (k' : Kernel Memory)
      → Orderly hw k
      → Spawned k child k'
      → Orderly hw k'
  Spawned-Orderly k child k' o s = record {
    own_slot = λ i. elim (ℕ_discrete i child) [
      | yes e ↦ rw e s.own_pid
      | no ne ↦ rw (s.others i ne) (o.own_slot i)
    ];
    zero_free = rw (s.others 0 (λ z. omega (arith, s.slot.from_one))) o.zero_free;
    owners = λ j q h own nz f. elim (ℕ_discrete q child) [
      | yes e ↦ ground (arith, s.started)
      | no ne ↦
          let was : (k.processes q).state ≡ free = rw (← s.others q ne) f in
          elim (s.claims j) [
            | inl same ↦ o.owners j q h (sym same ∙ own) nz was
            | inr taken ↦ ground (arith, taken.1, own, ne)
          ]
    ];
  }

  spawn :
      (k : Kernel Memory) (child : ℕ) (k1 k2 : Kernel Memory) (table : ℕ)
      → FreeSlot k child
      → (k.processes k.current).state ≡ runnable
      → Extends child k k1
      → Extends child (adopt_table hw child table k1) k2
      → Spawned k child (start_child hw child k2)
  spawn k child k1 k2 table slot run e f =
      let cur : k2.current ≡ k.current = f.same_current ∙ e.same_current in
      let at = λ (q : ℕ). ap (λ (p : ℕ → Proc). p q) f.same_processes in
      let at1 = λ (q : ℕ). ap (λ (p : ℕ → Proc). p q) e.same_processes in
      let ne : k.current ≢ child = (λ z. ground (arith, run, slot.was_free, z)) in
      record {
        slot = slot;
        started = ground arith;
        own_pid = ground (arith, at child);
        registers = ground (arith, cur, at k2.current, at1 k.current, ne);
        others = λ q n. ground (arith, at q, at1 q, n);
        same_current = cur;
        claims = λ j.
            Claims-trans child (k.pageinfo j) (k1.pageinfo j) (k2.pageinfo j) (e.claims j)
              (f.claims j);
      }

  -- A failed fork changes no process that was in use, gives no slot away, and takes no page from
  -- anybody.
  pub record Refused (k k' : Kernel Memory) : Type 0 where
    pub states : (q : ℕ) → (k'.processes q).state ≡ (k.processes q).state
    pub in_use : (q : ℕ) → (k.processes q).state ≢ free → k'.processes q ≡ k.processes q
    pub same_current : k'.current ≡ k.current
    pub owners :
        (j : ℕ)
        → Physical hw j
        → (k.pageinfo j).owner ≢ po_free
        → (k'.pageinfo j).owner ≡ (k.pageinfo j).owner
    pub orderly : Orderly hw k'

  refuse :
      (k : Kernel Memory) (child : ℕ) (k2 : Kernel Memory)
      → FreeSlot k child
      → Orderly hw k
      → ((q : ℕ) → q ≢ child → k2.processes q ≡ k.processes q)
      → (k2.processes child).pid ≡ child
      → (k2.processes child).state ≡ free
      → k2.current ≡ k.current
      → ((j : ℕ) → Claims child (k.pageinfo j) (k2.pageinfo j))
      → Refused k (free_current_process hw k2 child)
  refuse k child k2 slot o others own fr cur claims =
      let nz : child ≢ 0 = (λ z. omega (arith, slot.from_one)) in
      let r = free_current_process-Released hw k2 child nz own in
      record {
        states = λ q. elim (ℕ_discrete q child) [
          | yes e ↦ rw (e, r.slot_free) (sym slot.was_free)
          | no ne ↦ ap (λ (p : Proc). p.state) (r.others q ne ∙ others q ne)
        ];
        in_use = λ q used. r.others q (not_child q used) ∙ others q (not_child q used);
        same_current = r.same_current ∙ cur;
        owners = λ j h used.
            let kept = owner_kept j used in
            let mine : (k2.pageinfo j).owner ≢ pid_owner child =
              (λ e. o.owners j child h (sym kept ∙ e) nz slot.was_free) in
            ap (λ (i : PageInfo). i.owner) (r.kept j mine) ∙ kept;
        orderly = Released-Orderly hw k2 child _ nz but r;
      }
    where
      not_child : (q : ℕ) → (k.processes q).state ≢ free → q ≢ child
      not_child q used e = used (rw e slot.was_free)

      owner_kept :
          (j : ℕ) → (k.pageinfo j).owner ≢ po_free → (k2.pageinfo j).owner ≡ (k.pageinfo j).owner
      owner_kept j used = elim (claims j) [ inl e ↦ e | inr taken ↦ absurd (used taken.0) ]

      but : OrderlyBut hw child k2
      but = record {
        own_slot = λ i. elim (ℕ_discrete i child) [
          | yes e ↦ rw e own
          | no ne ↦ rw (others i ne) (o.own_slot i)
        ];
        zero_free = rw (others 0 (λ z. omega (arith, slot.from_one))) o.zero_free;
        owners = λ j q h e nz ne f. elim (claims j) [
          | inl same ↦ o.owners j q h (sym same ∙ e) nz (rw (← others q ne) f)
          | inr taken ↦ ground (arith, taken.1, e, ne)
        ];
      }

  pub refuse_nothing : (k : Kernel Memory) → Orderly hw k → Refused k k
  refuse_nothing k o = record {
    states = λ q. refl;
    in_use = λ q used. refl;
    same_current = refl;
    owners = λ j h used. refl;
    orderly = o;
  }

  -- What a call of `fork_process` in state `k` may return; a fault claims nothing.
  abbrev pub ForkPost : Kernel Memory → Forked Memory → Type 0
  ForkPost k (child_pid child k') = Spawned k child k'
  ForkPost k (minus_one k') = Refused k k'
  ForkPost k fault = Unit

  module _ (laws : AddressLaws hw) (k : Kernel Memory) (o : Orderly hw k)
      (run : (k.processes k.current).state ≡ runnable) where
    finish_fork-ForkPost :
        (child table : ℕ) (k1 : Kernel Memory) (c : Copying Memory)
        → FreeSlot k child
        → Extends child k k1
        → After hw laws child (adopt_table hw child table k1) c
        → ForkPost k (finish_fork hw child c)
    unfolding finish_fork
    finish_fork-ForkPost child table k1 (copied k2) slot e f =
        spawn k child k1 k2 table slot run e f
    finish_fork-ForkPost child table k1 (no_memory k2) slot e f =
        let at = λ (q : ℕ). ap (λ (p : ℕ → Proc). p q) f.same_processes in
        let at1 = λ (q : ℕ). ap (λ (p : ℕ → Proc). p q) e.same_processes in
        refuse k child k2 slot o (λ q n. ground (arith, at q, at1 q, n)) (ground (arith, at child))
          (ground (arith, at child, at1 child, slot.was_free)) (f.same_current ∙ e.same_current)
          (λ j.
            Claims-trans child (k.pageinfo j) (k1.pageinfo j) (k2.pageinfo j) (e.claims j)
              (f.claims j))
    finish_fork-ForkPost child table k1 bad_page slot e f = tt

    fork_into-ForkPost :
        (child : ℕ) (table : Option ℕ) (k1 : Kernel Memory)
        → FreeSlot k child
        → Extends child k k1
        → ForkPost k (fork_into hw child (table, k1))
    unfolding fork_into
    fork_into-ForkPost child none k1 slot e =
        let at1 = λ (q : ℕ). ap (λ (p : ℕ → Proc). p q) e.same_processes in
        refuse k child k1 slot o (λ q n. at1 q) (rw (at1 child) (o.own_slot child))
          (rw (at1 child) slot.was_free) e.same_current e.claims
    fork_into-ForkPost child (some table) k1 slot e = finish_fork-ForkPost child table k1 _ slot e (
        fork_pages-After hw laws (fork_rounds hw) child hw.proc_start_addr
          (adopt_table hw child table k1))

    -- `fork_process` called by a running process of an orderly table either starts a child in the
    -- first free slot, with the parent's registers but eax 0, or returns -1 with every process in
    -- use as before, every owned page with its owner and the table still orderly; a fault claims
    -- nothing.
    pub fork_process-ForkPost : ForkPost k (fork_process hw k)
    unfolding fork_process
    fork_process-ForkPost = elim (Option-cases (find_free_process_slot hw k)) [
      | inl e ↦ rw (e, fork_process) (refuse_nothing k o)
      | inr (child, e) ↦
          rw (e, fork_process)
            (fork_into-ForkPost child _ _ (find_free_process_slot-FreeSlot k e)
              (copy_pagetable-Extends hw laws child k (k.processes k.current).pagetable))
    ]
