-- ===== src/Kernel/Exception.antt =====
-- Assign4/kernel.c, `exception`. `console_show_cursor` and `check_keyboard` change no state of the
-- model and are left out.
use Prim.Native.Nat.{bit_and}
use systems_programming.Prelude.{
  ℕ, ◌+◌, ◌-◌, ◌%◌, ◌^◌, Bool, ◌&&◌, none, some, ◌==◌, ltb, leb, if◌then◌else◌, update,
}
use systems_programming.Kernel.State.{
  Hardware, Kernel, Registers, Interrupt, sys_panic, sys_getpid, sys_yield, sys_page_alloc, timer,
  pagefault, sys_fork, sys_exit, other, pid_owner, broken, is_runnable, set_state, set_eax, user_rw,
}
use systems_programming.Kernel.Pages.{alloc_free_page}
use systems_programming.Kernel.Release.{free_current_process}
use systems_programming.Kernel.Fork.{Forked, child_pid, minus_one, fault, fork_process}
use systems_programming.Kernel.Schedule.{run, schedule}
use systems_programming.Kernel.Check.{virtual_memory_check}
use systems_programming.Kernel.Display.{show_memory}

-- How the switch leaves: by `break`, into `schedule`, by `panic`, or on an access out of bounds.
pub data Next (Memory : Type 0) : Type 0 where
  breaks : Kernel Memory → Next Memory
  reschedules : Kernel Memory → Next Memory
  panics : Next Memory
  out_of_bounds : Next Memory

-- How the exception ends: a process runs, nothing can run and the scheduler spins, or the kernel
-- stops at a failed assertion, a panic or an access out of bounds.
pub data Outcome (Memory : Type 0) : Type 0 where
  resumes : Kernel Memory → Outcome Memory
  spins : Kernel Memory → Outcome Memory
  stops : Next Memory → Outcome Memory

-- reg_eax = -1
abbrev pub minus_one_eax : ℕ
minus_one_eax = 2 ^ 32 - 1

module _ {Memory : Type 0} (hw : Hardware Memory) where
  -- current->p_registers = *reg; set_pagetable(kernel_pagetable);
  abbrev pub save : Registers → Kernel Memory → Kernel Memory
  save reg k = record k {
    processes = update k.processes k.current (record (k.processes k.current) { registers = reg });
    active_pagetable = hw.kernel_pagetable;
  }

  abbrev pub user_page : ℕ → Bool
  user_page addr =
      addr % hw.page_size == 0 && leb hw.proc_start_addr addr && ltb addr hw.memsize_virtual

  -- case INT_SYS_PAGE_ALLOC: the page is allocated before the address is looked at.
  unfoldable pub page_alloc : Kernel Memory → Kernel Memory
  page_alloc k =
      let addr = (k.processes k.current).registers.eax in
      elim (alloc_free_page hw k (pid_owner (k.processes k.current).pid)) [
        | none ↦ set_eax k k.current minus_one_eax
        | some (page, k1) ↦
            if user_page addr
            then set_eax
                (record k1 {
                  memory =
                      hw.map_pages k1.memory (k1.processes k1.current).pagetable addr page
                        hw.page_size (user_rw hw);
                })
                k1.current 0
            else set_eax k1 k1.current minus_one_eax
      ]

  unfoldable pub page_fault : Registers → Kernel Memory → Next Memory
  page_fault reg k =
      if bit_and reg.err hw.pfe_user == 0 then panics else breaks (set_state k k.current broken)

  unfoldable pub after_fork : Forked Memory → Next Memory
  after_fork (child_pid child k) = breaks (set_eax k k.current child)
  after_fork (minus_one k) = breaks (set_eax k k.current minus_one_eax)
  after_fork fault = out_of_bounds

  unfoldable pub dispatch : Interrupt → Registers → Kernel Memory → Next Memory
  dispatch sys_panic reg k = panics
  dispatch sys_getpid reg k = breaks (set_eax k k.current (k.processes k.current).pid)
  dispatch sys_yield reg k = reschedules k
  dispatch sys_page_alloc reg k = breaks (page_alloc k)
  dispatch timer reg k = reschedules (record k { ticks = (k.ticks + 1) % 2 ^ 32 })
  dispatch pagefault reg k = page_fault reg k
  dispatch sys_fork reg k = after_fork (fork_process hw k)
  dispatch sys_exit reg k = breaks (free_current_process hw k k.current)
  dispatch (other n) reg k = panics

  -- One round of the table shows whether anything can run; if not, `schedule` never returns.
  unfoldable pub pick_next : Kernel Memory → Outcome Memory
  pick_next k = elim (schedule hw hw.nproc k) [ none ↦ spins k | some k' ↦ resumes k' ]

  unfoldable pub resume : Kernel Memory → Outcome Memory
  resume k =
      if is_runnable (k.processes k.current).state
      then elim (run hw k.current k) [ none ↦ stops panics | some k' ↦ resumes k' ]
      else pick_next k

  unfoldable pub finish_exception : Next Memory → Outcome Memory
  finish_exception (breaks k) = resume k
  finish_exception (reschedules k) = pick_next k
  finish_exception panics = stops panics
  finish_exception out_of_bounds = stops out_of_bounds

  -- Where the drawing stops, at a failed assertion or a read past the colors, the kernel stops.
  unfoldable pub exception : Registers → Kernel Memory → Outcome Memory
  exception reg k =
      let saved = save reg k in
      if virtual_memory_check hw saved
      then elim (show_memory hw saved) [
        | none ↦ stops out_of_bounds
        | some shown ↦ finish_exception (dispatch reg.intno reg shown)
      ]
      else stops panics
