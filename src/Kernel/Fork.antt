-- ===== src/Kernel/Fork.antt =====
-- Assign4/kernel.c, `fork_process`.
use systems_programming.Prelude.{
  ℕ, zero, suc, ◌+◌, ◌-◌, ◌/◌, Option, none, some, ltb, if◌then◌else◌, update,
}
use systems_programming.Kernel.State.{Hardware, Kernel, pid_owner, runnable, inc_int8, is_writable}
use systems_programming.Kernel.Pages.{find_free_process_slot, alloc_free_page, copy_pagetable}
use systems_programming.Kernel.Release.{free_current_process}

-- How copying the pages goes on. `bad_page` is an access to `pageinfo` out of its bounds.
pub data Copying (Memory : Type 0) : Type 0 where
  copied : Kernel Memory → Copying Memory
  no_memory : Kernel Memory → Copying Memory
  bad_page : Copying Memory

abbrev pub and_then :
    {Memory : Type 0} → Copying Memory → (Kernel Memory → Copying Memory) → Copying Memory
and_then (copied k) next = next k
and_then (no_memory k) next = no_memory k
and_then bad_page next = bad_page

-- What `fork_process` returns: the child's pid, or -1.
pub data Forked (Memory : Type 0) : Type 0 where
  child_pid : ℕ → Kernel Memory → Forked Memory
  minus_one : Kernel Memory → Forked Memory
  fault : Forked Memory

module _ {Memory : Type 0} (hw : Hardware Memory) where
  -- The branch for a writable page: a page of its own for the child.
  unfoldable pub copy_page : ℕ → ℕ → ℕ → ℕ → Kernel Memory → Copying Memory
  copy_page child va pa perm k = elim (alloc_free_page hw k (pid_owner child)) [
    | none ↦ no_memory k
    | some (page, k1) ↦
        let m = hw.copy_memory k1.memory page pa hw.page_size in
        copied (record k1 {
          memory = hw.map_pages m (k1.processes child).pagetable va page hw.page_size perm;
        })
  ]

  -- The other branch: the child shares the page, and its count goes up.
  unfoldable pub share_page : ℕ → ℕ → ℕ → ℕ → Option ℕ → Kernel Memory → Copying Memory
  share_page child va pa perm none k = bad_page
  share_page child va pa perm (some pn) k =
      if ltb pn (hw.page_number hw.memsize_physical)
      then copied (record k {
        memory = hw.map_pages k.memory (k.processes child).pagetable va pa hw.page_size perm;
        pageinfo =
            update k.pageinfo pn
              (record (k.pageinfo pn) { refcount = inc_int8 (k.pageinfo pn).refcount });
      })
      else bad_page

  unfoldable pub fork_page : ℕ → ℕ → Kernel Memory → Copying Memory
  fork_page child va k =
      let vam = hw.lookup k.memory (k.processes k.current).pagetable va in
      if is_writable hw.pte_w vam.perm
      then copy_page child va vam.pa vam.perm k
      else share_page child va vam.pa vam.perm vam.pn k

  -- The rounds of `for (va = PROC_START_ADDR; va < MEMSIZE_VIRTUAL; va += PAGESIZE)`.
  unfoldable pub fork_rounds : ℕ
  fork_rounds = (hw.memsize_virtual - hw.proc_start_addr + hw.page_size - 1) / hw.page_size

  unfoldable pub fork_pages : ℕ → ℕ → ℕ → Kernel Memory → Copying Memory
  fork_pages zero child va k = copied k
  fork_pages (suc left) child va k =
      and_then (fork_page child va k) (λ k'. fork_pages left child (va + hw.page_size) k')

  -- copy->p_pagetable = chld_pgtb; copy->p_pid = chld_pid;
  abbrev pub adopt_table : ℕ → ℕ → Kernel Memory → Kernel Memory
  adopt_table child table k = record k {
    processes =
        update k.processes child (record (k.processes child) { pagetable = table; pid = child });
  }

  -- The last lines: the parent's registers with eax 0, and the child runnable.
  abbrev pub start_child : ℕ → Kernel Memory → Kernel Memory
  start_child child k = record k {
    processes = update k.processes child (record (k.processes child) {
      registers = record (k.processes k.current).registers { eax = 0 };
      state = runnable;
    });
  }

  unfoldable pub finish_fork : ℕ → Copying Memory → Forked Memory
  finish_fork child (copied k) = child_pid child (start_child child k)
  finish_fork child (no_memory k) = minus_one (free_current_process hw k child)
  finish_fork child bad_page = fault

  unfoldable pub fork_into : ℕ → Option ℕ × Kernel Memory → Forked Memory
  fork_into child (none, k) = minus_one (free_current_process hw k child)
  fork_into child (some table, k) =
      finish_fork child
        (fork_pages fork_rounds child hw.proc_start_addr (adopt_table child table k))

  unfoldable pub fork_process : Kernel Memory → Forked Memory
  fork_process k = elim (find_free_process_slot hw k) [
    | none ↦ minus_one k
    | some child ↦
        fork_into child (copy_pagetable hw k (k.processes k.current).pagetable (pid_owner child))
  ]
