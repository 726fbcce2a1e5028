-- ===== src/Kernel/Loader.antt =====
-- Assign4/k-loader.c: loading a program. `Images` holds what elf.h, lib.h and the linked program
-- images give. Addresses are 32-bit patterns.
use Prim.Native.Nat.{bit_and, bit_or}
use systems_programming.Prelude.{
  ℕ, zero, suc, ◌+◌, ◌-◌, ◌/◌, ◌%◌, ◌^◌, ◌&&◌, none, some, List, [], ◌∷◌, ◌==◌, ltb, if◌then◌else◌,
  update,
}
use systems_programming.Kernel.State.{Hardware, Kernel, Proc, pid_owner, user_rw}
use systems_programming.Kernel.Pages.{physical_page_alloc}

-- `elf_program`
pub record ElfProgram : Type 0 where
  pub p_type : ℕ
  pub p_offset : ℕ
  pub p_va : ℕ
  pub p_filesz : ℕ
  pub p_memsz : ℕ
  pub p_flags : ℕ

-- `elf_header`, with the program headers that `e_phoff` and `e_phnum` point out.
pub record ElfHeader : Type 0 where
  pub e_magic : ℕ
  pub e_entry : ℕ
  pub program_headers : List ElfProgram

pub record Images (Memory : Type 0) : Type 0 where
  pub elf_magic : ℕ
  pub elf_ptype_load : ℕ
  pub elf_pflag_write : ℕ
  -- ramimages[i].begin, and the header there
  pub image_begin : ℕ → ℕ
  pub image_header : ℕ → ElfHeader
  -- memset(dst, 0, n)
  pub clear_memory : Memory → ℕ → ℕ → Memory
  -- process_init(p, flags)
  pub process_init : Proc → ℕ → Proc
  pub console : ℕ

-- sizeof(ramimages) / sizeof(ramimages[0])
abbrev pub nprograms : ℕ
nprograms = 6

-- 0, -1, or a failed assertion.
pub data Loaded (Memory : Type 0) : Type 0 where
  loaded : Kernel Memory → Loaded Memory
  minus_one : Kernel Memory → Loaded Memory
  asserts : Loaded Memory

abbrev pub load_then :
    {Memory : Type 0} → Loaded Memory → (Kernel Memory → Loaded Memory) → Loaded Memory
load_then (loaded k) next = next k
load_then (minus_one k) next = minus_one k
load_then asserts next = asserts

-- A difference of addresses.
abbrev pub sub32 : ℕ → ℕ → ℕ
sub32 a b = (a + 2 ^ 32 - b) % 2 ^ 32

module _ {Memory : Type 0} (hw : Hardware Memory) (images : Images Memory) where
  -- The rounds of `for (page_va = va; page_va < end_mem; page_va += PAGESIZE)`.
  unfoldable pub segment_rounds : ℕ → ℕ → ℕ
  segment_rounds va end_mem = (end_mem - va + hw.page_size - 1) / hw.page_size

  unfoldable pub alloc_pages : ℕ → ℕ → ℕ → Kernel Memory → Loaded Memory
  alloc_pages zero p page_va k = loaded k
  alloc_pages (suc left) p page_va k =
      elim (physical_page_alloc hw k page_va (pid_owner (k.processes p).pid)) [
        | none ↦ minus_one k
        | some k1 ↦ alloc_pages left p (page_va + hw.page_size) (record k1 {
          memory =
              hw.map_pages k1.memory (k1.processes p).pagetable page_va page_va hw.page_size
                (user_rw hw);
        })
      ]

  -- The second loop: the pages of a segment that is not writable become read-only.
  unfoldable pub protect_pages : ℕ → ℕ → ℕ → ℕ → Memory → Memory
  protect_pages zero table flags page_va m = m
  protect_pages (suc left) table flags page_va m =
      protect_pages left table flags (page_va + hw.page_size) (
        if bit_and flags images.elf_pflag_write == 0
        then hw.map_pages m table page_va page_va hw.page_size (bit_or hw.pte_p hw.pte_u)
        else m)

  -- Between the loops: `lcr3`, the copy, and the clearing of the rest.
  unfoldable pub fill_segment : ℕ → ℕ → ℕ → ℕ → ℕ → Kernel Memory → Kernel Memory
  fill_segment p va src end_file end_mem k = record k {
    active_pagetable = (k.processes p).pagetable;
    memory =
        images.clear_memory (hw.copy_memory k.memory va src (sub32 end_file va)) end_file
          (sub32 end_mem end_file);
  }

  unfoldable pub copyseg : ℕ → ElfProgram → ℕ → Kernel Memory → Loaded Memory
  copyseg p ph src k =
      let end_file = (ph.p_va + ph.p_filesz) % 2 ^ 32 in
      let end_mem = (ph.p_va + ph.p_memsz) % 2 ^ 32 in
      let va = ph.p_va - ph.p_va % hw.page_size in
      let rounds = segment_rounds va end_mem in
      load_then (alloc_pages rounds p va k) (λ k1.
        let k2 = fill_segment p va src end_file end_mem k1 in
        loaded (record k2 {
          memory = protect_pages rounds (k2.processes p).pagetable ph.p_flags va k2.memory;
        }))

  unfoldable pub load_segments : ℕ → ℕ → List ElfProgram → Kernel Memory → Loaded Memory
  load_segments p begin [] k = loaded k
  load_segments p begin (ph ∷ rest) k =
      load_then
        (if ph.p_type == images.elf_ptype_load
          then copyseg p ph ((begin + ph.p_offset) % 2 ^ 32) k
          else loaded k)
        (λ k1. load_segments p begin rest k1)

  abbrev pub set_eip : ℕ → ℕ → Kernel Memory → Kernel Memory
  set_eip p entry k = record k {
    processes =
        update k.processes p
          (record (k.processes p) { registers = record (k.processes p).registers { eip = entry } });
  }

  unfoldable pub program_load : ℕ → ℕ → Kernel Memory → Loaded Memory
  program_load p program_id k =
      let eh = images.image_header program_id in
      if ltb program_id nprograms && eh.e_magic == images.elf_magic
      then load_then (load_segments p (images.image_begin program_id) eh.program_headers k)
          (λ k1. loaded (set_eip p eh.e_entry k1))
      else asserts
