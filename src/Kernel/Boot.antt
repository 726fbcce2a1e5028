-- ===== src/Kernel/Boot.antt =====
-- Assign4/kernel.c: `pageinfo_init`, `process_setup` and `kernel`, which starts the machine. `none`
-- is a failed assertion. hardware_init, timer_init and console_clear change no state of the model.
use Prim.Native.Nat.{bit_or}
use systems_programming.Prelude.{
  ℕ, zero, suc, ◌+◌, ◌-◌, ◌/◌, Bool, ◌&&◌, ◌||◌, Option, none, some, List, [], ◌∷◌, ◌==◌, ltb, leb,
  if◌then◌else◌, update,
}
use systems_programming.Kernel.State.{
  Hardware, Kernel, Owner, reserved, kernel_owned, pid_owner, po_free, PageInfo, Registers, other,
  free, runnable, set_state, set_page, user_rw,
}
use systems_programming.Kernel.Pages.{alloc_free_page, copy_pagetable}
use systems_programming.Kernel.Schedule.{run}
use systems_programming.Kernel.Loader.{
  Images, Loaded, loaded, minus_one, asserts, program_load, sub32,
}

abbrev pub zero_registers : Registers
zero_registers = record { eax = 0; esp = 0; eip = 0; intno = other 0; err = 0 }

abbrev pub fork_command : List ℕ
fork_command = b'f' ∷ b'o' ∷ b'r' ∷ b'k' ∷ []

abbrev pub forkexit_command : List ℕ
forkexit_command = b'f' ∷ b'o' ∷ b'r' ∷ b'k' ∷ b'e' ∷ b'x' ∷ b'i' ∷ b't' ∷ []

abbrev same_text : List ℕ → List ℕ → Bool
same_text [] [] = Bool.true
same_text (a ∷ xs) (b ∷ ys) = a == b && same_text xs ys
same_text _ _ = Bool.false

-- command && strcmp(command, text) == 0
abbrev pub is_command : List ℕ → Option (List ℕ) → Bool
is_command text none = Bool.false
is_command text (some command) = same_text command text

module _ {Memory : Type 0} (hw : Hardware Memory) where
  unfoldable pub initial_owner : ℕ → Owner
  initial_owner addr =
      if hw.is_reserved addr
      then reserved
      else if leb hw.kernel_start_addr addr && ltb addr hw.kernel_end
          || addr == hw.kernel_stack_top - hw.page_size
      then kernel_owned
      else po_free

  -- refcount = (owner != PO_FREE)
  unfoldable pub initial_page : Owner → PageInfo
  initial_page reserved = record { owner = reserved; refcount = 1 }
  initial_page kernel_owned = record { owner = kernel_owned; refcount = 1 }
  initial_page (pid_owner q) = record { owner = pid_owner q; refcount = if q == 0 then 0 else 1 }

  unfoldable pub init_pages : ℕ → ℕ → Kernel Memory → Kernel Memory
  init_pages zero addr k = k
  init_pages (suc left) addr k =
      init_pages left (addr + hw.page_size)
        (set_page k (hw.page_number addr) (initial_page (initial_owner addr)))

  -- The rounds of `for (addr = 0; addr < MEMSIZE_PHYSICAL; addr += PAGESIZE)`.
  unfoldable pub memory_rounds : ℕ
  memory_rounds = (hw.memsize_physical + hw.page_size - 1) / hw.page_size

  unfoldable pub pageinfo_init : Kernel Memory → Kernel Memory
  pageinfo_init k = init_pages memory_rounds 0 k

  -- The process descriptors, cleared and numbered; the source's array ends at NPROC.
  unfoldable pub clear_processes : Kernel Memory → Kernel Memory
  clear_processes k = record k {
    processes = λ i. record { pid = i; state = free; pagetable = 0; registers = zero_registers };
  }

module _ {Memory : Type 0} (hw : Hardware Memory) (images : Images Memory) where
  -- processes[pid].p_pagetable = ...; and its page is counted once. `none` is NULL.
  unfoldable pub give_table : ℕ → Option ℕ × Kernel Memory → Kernel Memory
  give_table pid (answer, k) =
      let table : ℕ = elim answer [ none ↦ 0 | some t ↦ t ] in
      let k1 : Kernel Memory = record k {
        processes = update k.processes pid (record (k.processes pid) { pagetable = table });
      } in
      set_page k1 (hw.page_number table)
        (record (k1.pageinfo (hw.page_number table)) { refcount = 1 })

  unfoldable pub setup_table : ℕ → Kernel Memory → Kernel Memory
  setup_table pid k =
      let k1 : Kernel Memory = record k {
        processes = update k.processes pid (images.process_init (k.processes pid) 0);
      } in
      give_table pid (copy_pagetable hw k1 hw.kernel_pagetable (pid_owner pid))

  unfoldable pub map_stack : ℕ → ℕ → Kernel Memory → Kernel Memory
  map_stack pid stack_page k = record k {
    memory =
        hw.map_pages k.memory (k.processes pid).pagetable
          (sub32 (k.processes pid).registers.esp hw.page_size) stack_page hw.page_size (user_rw hw);
  }

  abbrev pub set_esp : ℕ → ℕ → Kernel Memory → Kernel Memory
  set_esp pid esp k = record k {
    processes =
        update k.processes pid (record (k.processes pid) {
          registers = record (k.processes pid).registers { esp = esp };
        });
  }

  -- A stack page below the end of the range; page 0 where there is no memory for one.
  unfoldable pub setup_stack : ℕ → Kernel Memory → Kernel Memory
  setup_stack pid k =
      let k1 = set_esp pid hw.memsize_virtual k in
      elim (alloc_free_page hw k1 (pid_owner pid)) [
        | none ↦ map_stack pid 0 k1
        | some (stack_page, k2) ↦ map_stack pid stack_page k2
      ]

  unfoldable pub finish_setup : ℕ → Loaded Memory → Option (Kernel Memory)
  finish_setup pid (loaded k) = some (set_state (setup_stack pid k) pid runnable)
  finish_setup pid (minus_one k) = none
  finish_setup pid asserts = none

  unfoldable pub process_setup : ℕ → ℕ → Kernel Memory → Option (Kernel Memory)
  process_setup pid program k =
      finish_setup pid (program_load hw images pid program (setup_table pid k))

  -- `for (pid_t i = 1; i <= 4; ++i) process_setup(i, i - 1);`
  unfoldable pub setup_range : ℕ → ℕ → Kernel Memory → Option (Kernel Memory)
  setup_range zero i k = some k
  setup_range (suc left) i k = elim (process_setup i (i - 1) k) [
    | none ↦ none
    | some k1 ↦ setup_range left (i + 1) k1
  ]

  unfoldable pub setup_command : Option (List ℕ) → Kernel Memory → Option (Kernel Memory)
  setup_command command k =
      if is_command fork_command command
      then process_setup 1 4 k
      else if is_command forkexit_command command
      then process_setup 1 5 k
      else setup_range 4 1 k

  -- The kernel's own mappings: no access for applications, but to the console.
  unfoldable pub map_kernel : Kernel Memory → Kernel Memory
  map_kernel k =
      let m =
        hw.map_pages k.memory hw.kernel_pagetable 0 0 hw.proc_start_addr
          (bit_or hw.pte_p hw.pte_w) in
      record k {
        memory =
            hw.map_pages m hw.kernel_pagetable images.console images.console hw.page_size
              (user_rw hw);
      }

  unfoldable pub kernel : Option (List ℕ) → Kernel Memory → Option (Kernel Memory)
  kernel command k =
      elim (setup_command command (map_kernel (clear_processes hw (pageinfo_init hw k)))) [
        | none ↦ none
        | some k1 ↦ run hw 1 k1
      ]
