-- ===== src/Kernel/Tests.antt =====
-- Assign4/kernel.c: a small machine, runs of the kernel on it, and the theorems at its states.
use Prim.Native.Nat.{bit_and}
use systems_programming.Prelude.{
  ℕ, zero, suc, ◌+◌, ◌*◌, ◌/◌, ◌<◌, ◌≡◌, refl, true, some, arith, ◌==◌, if◌then◌else◌, ltb, List,
  [], ◌∷◌,
}
use systems_programming.Prelude.Search.{find_from}
use systems_programming.Kernel.State.{
  Hardware, Kernel, Proc, PageInfo, Registers, Interrupt, sys_getpid, sys_fork, pid_owner, reserved,
  kernel_owned, po_free, free, runnable, Vamapping, set_eax,
}
use systems_programming.Kernel.Pages.{
  is_free_page, alloc_free_page, find_free_physical_page, physical_page_alloc,
  find_free_process_slot, copy_pagetable,
}
use systems_programming.Kernel.Alloc.{AddressLaws}
use systems_programming.Kernel.Released.{Released}
use systems_programming.Kernel.Fork.{
  Forked, child_pid, minus_one, fault, fork_process, fork_into, finish_fork, fork_pages,
  fork_rounds, fork_page, copy_page, share_page,
}
use systems_programming.Kernel.Forking.{ForkPost, fork_process-ForkPost}
use systems_programming.Kernel.Invariant.{Orderly}
use systems_programming.Kernel.Schedule.{schedule}
use systems_programming.Kernel.RoundRobin.{Picked, schedule-total}
use systems_programming.Kernel.Exception.{exception, page_alloc}
use systems_programming.Kernel.Resume.{OutcomePost, exception-OutcomePost}
use systems_programming.Kernel.Syscalls.{PageTaken, page_alloc-PageTaken}

-- Memory is the table of mappings by page table and address. Pages have 4096 bytes; there are 8.
abbrev pub Mappings : Type 0
Mappings = ℕ → ℕ → Vamapping

abbrev pub small : Hardware Mappings
small = record {
  nproc = 4;
  npages = 8;
  page_size = 4096;
  memsize_physical = 8 * 4096;
  memsize_virtual = 6 * 4096;
  proc_start_addr = 4 * 4096;
  kernel_start_addr = 4096;
  kernel_end = 4097;
  kernel_stack_top = 8192;
  kernel_pagetable = 4096;
  pte_p = 1;
  pte_w = 2;
  pte_u = 4;
  pfe_user = 4;
  entry_size = 4;
  pagetable_entries = 4;
  page_number = λ a. a / 4096;
  page_address = λ n. n * 4096;
  pte_addr = λ a. a;
  is_reserved = λ a. a == 0;
  lookup = λ m t va. m t va;
  map_pages = λ m t va pa n perm t' va'.
      if t == t'
      then if va == va' then record { pn = some (pa / 4096); pa = pa; perm = perm } else m t' va'
      else m t' va';
  copy_memory = λ m d s n. m;
  clear_entries = λ m a. m;
  load_entry = λ m t i. 0;
  store_entry = λ m t i v. m;
  screen = record {
    cpos = λ row column. row * 80 + column;
    label = λ row n c. c;
    title = λ c. c;
    title_for = λ q c. c;
  };
}

small_aligned : (i : ℕ) → i < 8 → bit_and (i * 4096) 0xFFF ≡ 0
small_aligned zero h = refl
small_aligned (suc zero) h = refl
small_aligned (suc (suc zero)) h = refl
small_aligned (suc (suc (suc zero))) h = refl
small_aligned (suc (suc (suc (suc zero)))) h = refl
small_aligned (suc (suc (suc (suc (suc zero))))) h = refl
small_aligned (suc (suc (suc (suc (suc (suc zero)))))) h = refl
small_aligned (suc (suc (suc (suc (suc (suc (suc zero))))))) h = refl
small_aligned (suc (suc (suc (suc (suc (suc (suc (suc n)))))))) h = absurd (omega arith)

pub small_laws : AddressLaws small
small_laws = record {
  number_address = λ i h. omega arith;
  aligned = λ i h. small_aligned i h;
  inside = λ i h. omega arith;
  nonzero = λ i h nz. omega arith;
}

abbrev pub registers : ℕ → Interrupt → Registers
registers eax i = record { eax = eax; esp = 24576; eip = 16384; intno = i; err = 0 }

-- Process 1 runs, with its page table in page 2, a page of its own and a read-only page.
abbrev table : ℕ → Proc
table i =
    if i == 1
    then record { pid = i; state = runnable; pagetable = 8192; registers = registers 7 sys_fork }
    else record { pid = i; state = free; pagetable = 0; registers = registers 0 sys_getpid }

abbrev pages : ℕ → PageInfo
pages i =
    if i == 0
    then record { owner = reserved; refcount = 1 }
    else if i == 1
    then record { owner = kernel_owned; refcount = 1 }
    else if ltb i 5
    then record { owner = pid_owner 1; refcount = 1 }
    else record { owner = po_free; refcount = 0 }

abbrev mappings : Mappings
mappings t va =
    if va == 16384
    then record { pn = some 3; pa = 12288; perm = 7 }
    else record { pn = some 4; pa = 16384; perm = 5 }

abbrev pub booted : Kernel Mappings
booted = record {
  processes = table;
  current = 1;
  ticks = 0;
  pageinfo = pages;
  memory = mappings;
  active_pagetable = 4096;
  console = λ i. 0;
  animation = record { last_ticks = 0; showing = 1 };
}

booted-Orderly : Orderly small booted
booted-Orderly = record {
  own_slot = λ i. ground arith;
  zero_free = refl;
  owners = λ j q h own nz f. ground arith;
}

abbrev summary : Forked Mappings → List ℕ
summary (child_pid c k) = c ∷ (k.pageinfo 4).refcount ∷ (k.pageinfo 7).refcount ∷ []
summary (minus_one k) = []
summary fault = []

-- The child takes pages 5 to 7, and the read-only page 4 has two references.
fork_test : summary (fork_process small booted) ≡ 2 ∷ 2 ∷ 1 ∷ []
unfolding fork_process fork_into finish_fork fork_pages fork_rounds fork_page copy_page share_page
    copy_pagetable alloc_free_page find_free_physical_page physical_page_alloc
    find_free_process_slot find_from
fork_test = refl

fork_process-ForkPost_example : ForkPost small booted (fork_process small booted)
fork_process-ForkPost_example = fork_process-ForkPost small small_laws booted booted-Orderly refl

exception-OutcomePost_example : OutcomePost small (exception small (registers 7 sys_fork) booted)
exception-OutcomePost_example =
    exception-OutcomePost small (registers 7 sys_fork) booted small_laws booted-Orderly refl
      (omega arith)

schedule-total_example :
    (k' : Kernel Mappings) × (schedule small 4 booted ≡ some k') × Picked small 4 1 booted k'
schedule-total_example = schedule-total small booted 1 (omega arith) (omega arith) refl

-- A process that asks for the last page of the virtual range.
abbrev asking : Kernel Mappings
asking = set_eax booted 1 20480

asking_page : is_free_page small (asking.pageinfo 5) ≡ true
asking_page = refl

page_alloc-PageTaken_example :
    (t : PageTaken small asking (page_alloc small asking) 0) × ((page_alloc small asking).memory
      ≡ small.map_pages mappings 8192 20480 (t.page * 4096) 4096 7)
page_alloc-PageTaken_example =
    page_alloc-PageTaken small asking 5 small_laws (omega arith) refl refl
