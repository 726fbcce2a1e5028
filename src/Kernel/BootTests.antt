-- ===== src/Kernel/BootTests.antt =====
-- Assign4/kernel.c and k-loader.c: the start of a small machine, and the theorems at it.
use systems_programming.Prelude.{ℕ, ◌≡◌, refl, Option, none, some, List, [], ◌∷◌, arith}
use systems_programming.Prelude.Search.{find_from}
use systems_programming.Kernel.State.{Kernel, pid_owner, runnable, sys_getpid}
use systems_programming.Kernel.Pages.{
  alloc_free_page, find_free_physical_page, physical_page_alloc, copy_pagetable,
}
use systems_programming.Kernel.Schedule.{run}
use systems_programming.Kernel.Exception.{resumes}
use systems_programming.Kernel.Resume.{OutcomePost}
use systems_programming.Kernel.Loader.{
  ElfProgram, Images, alloc_pages, segment_rounds, protect_pages, fill_segment, copyseg,
  load_segments, program_load,
}
use systems_programming.Kernel.Boot.{
  initial_owner, initial_page, init_pages, memory_rounds, pageinfo_init, clear_processes,
  give_table, setup_table, map_stack, setup_stack, finish_setup, process_setup, setup_range,
  setup_command, map_kernel, kernel, fork_command,
}
use systems_programming.Kernel.Pageinfo.{PageLaws}
use systems_programming.Kernel.Booting.{ProcessInitLaws, BootPost, kernel-BootPost}
use systems_programming.Kernel.Reach.{Reachable, boots, computes, Reachable-OutcomePost}
use systems_programming.Kernel.Tests.{Mappings, small, small_laws, registers}

small_pages : PageLaws small
small_pages = record { number = λ a. refl; positive = omega arith }

-- Every program has a segment of one page at 16384.
abbrev segment : ElfProgram
segment = record {
  p_type = 1;
  p_offset = 64;
  p_va = 16384;
  p_filesz = 10;
  p_memsz = 100;
  p_flags = 0;
}

abbrev images : Images Mappings
images = record {
  elf_magic = 7;
  elf_ptype_load = 1;
  elf_pflag_write = 2;
  image_begin = λ i. 0;
  image_header = λ i. record { e_magic = 7; e_entry = 16400; program_headers = segment ∷ [] };
  clear_memory = λ m a n. m;
  process_init = λ p flags. p;
  console = 0;
}

images_init : ProcessInitLaws images
images_init = record { same_pid = λ p flags. refl; same_state = λ p flags. refl }

-- The machine before it starts.
abbrev off : Kernel Mappings
off = record {
  processes =
      λ i. record { pid = 9; state = runnable; pagetable = 0; registers = registers 0 sys_getpid };
  current = 0;
  ticks = 0;
  pageinfo = λ j. record { owner = pid_owner 3; refcount = 5 };
  memory = λ t va. record { pn = none; pa = 0; perm = 0 };
  active_pagetable = 0;
  console = λ i. 0;
  animation = record { last_ticks = 0; showing = 1 };
}

kernel-BootPost_example :
    BootPost small images small_laws images_init
      (some fork_command)
      off
      (kernel small images (some fork_command) off)
kernel-BootPost_example =
    kernel-BootPost small images small_laws images_init small_pages (some fork_command) off

abbrev summary : Option (Kernel Mappings) → List ℕ
summary none = []
summary (some k) =
    k.current
    ∷ (k.processes 1).pagetable
    ∷ (k.processes 1).registers.eip
    ∷ (k.pageinfo 4).refcount
    ∷ (k.memory 8192 20480).pa
    ∷ (k.memory 8192 16384).perm
    ∷ []

-- The page table is page 2, the program is in page 4, read-only, and the stack in page 5.
boot_test :
    summary (kernel small images (some fork_command) off) ≡ 1 ∷ 8192 ∷ 16400 ∷ 1 ∷ 20480 ∷ 5 ∷ []
unfolding kernel setup_command setup_range process_setup finish_setup setup_stack map_stack
    setup_table give_table map_kernel clear_processes pageinfo_init memory_rounds init_pages
    initial_page initial_owner run program_load load_segments copyseg fill_segment protect_pages
    alloc_pages segment_rounds copy_pagetable alloc_free_page find_free_physical_page
    physical_page_alloc find_from
boot_test = refl

unfoldable state : Option (Kernel Mappings) → Kernel Mappings
state none = off
state (some k) = k

-- The machine when it has started.
abbrev up : Kernel Mappings
up = state (kernel small images (some fork_command) off)

up-Reachable : Reachable small images (some fork_command) off up
unfolding state kernel setup_command setup_range process_setup finish_setup setup_stack map_stack
    setup_table give_table map_kernel clear_processes pageinfo_init memory_rounds init_pages
    initial_page initial_owner run program_load load_segments copyseg fill_segment protect_pages
    alloc_pages segment_rounds copy_pagetable alloc_free_page find_free_physical_page
    physical_page_alloc find_from
up-Reachable = boots refl

Reachable-OutcomePost_example :
    OutcomePost small
      (resumes (record up { memory = λ t va. record { pn = none; pa = 3; perm = 0 } }))
Reachable-OutcomePost_example =
    Reachable-OutcomePost small images (some fork_command) off small_laws small_pages images_init
      (omega arith) (record up { memory = λ t va. record { pn = none; pa = 3; perm = 0 } })
      (computes (λ t va. record { pn = none; pa = 3; perm = 0 }) up-Reachable)
