-- ===== src/Kernel/Pages.antt =====
-- Assign4/kernel.c: finding and allocating physical pages, and copying a page table.
use Prim.Native.Nat.{bit_and, bit_or}
use systems_programming.Prelude.{
  ℕ, ◌-◌, ◌*◌, Bool, not, ◌&&◌, ◌||◌, Option, none, some, ◌==◌, leb, if◌then◌else◌,
}
use systems_programming.Prelude.Search.{find_from}
use systems_programming.Kernel.State.{
  Hardware, Kernel, Owner, owner_eq, po_free, PageInfo, is_free, set_page, user_rw,
}

module _ {Memory : Type 0} (hw : Hardware Memory) where
  unfoldable pub find_free_process_slot : Kernel Memory → Option ℕ
  find_free_process_slot k = find_from (λ i. is_free (k.processes i).state) (hw.nproc - 1) 1

  abbrev pub is_free_page : PageInfo → Bool
  is_free_page info = owner_eq info.owner po_free && info.refcount == 0

  -- The address of the first free page, 0 (NULL) if there is none.
  unfoldable pub find_free_physical_page : Kernel Memory → ℕ
  find_free_physical_page k = elim (find_from (λ i. is_free_page (k.pageinfo i)) hw.npages 0) [
    | none ↦ 0
    | some i ↦ hw.page_address i
  ]

  -- `none` is the return value -1, with nothing changed.
  unfoldable pub physical_page_alloc : Kernel Memory → ℕ → Owner → Option (Kernel Memory)
  physical_page_alloc k addr owner =
      if not (bit_and addr 0xFFF == 0)
        || leb hw.memsize_physical addr
        || not ((k.pageinfo (hw.page_number addr)).refcount == 0)
      then none
      else some (set_page k (hw.page_number addr) (record { owner = owner; refcount = 1 }))

  -- `none` is NULL, with nothing changed.
  unfoldable pub alloc_free_page : Kernel Memory → Owner → Option (ℕ × Kernel Memory)
  alloc_free_page k owner =
      let addr = find_free_physical_page k in
      if addr == 0
      then none
      else elim (physical_page_alloc k addr owner) [ none ↦ none | some k' ↦ some (addr, k') ]

  -- The second allocation may fail after the first: the state is returned with the answer.
  unfoldable pub copy_pagetable : Kernel Memory → ℕ → Owner → Option ℕ × Kernel Memory
  copy_pagetable k pagetable owner = elim (alloc_free_page k owner) [
    | none ↦ (none, k)
    | some (l1, k1) ↦ elim (alloc_free_page k1 owner) [
      | none ↦ (none, k1)
      | some (l2, k2) ↦
          let m1 = hw.clear_entries (hw.clear_entries k2.memory l1) l2 in
          let m2 = hw.store_entry m1 l1 0 (bit_or l2 (user_rw hw)) in
          let kernel_l2 = hw.pte_addr (hw.load_entry m2 pagetable 0) in
          let size = hw.page_number hw.proc_start_addr * hw.entry_size in
          (some l1, record k2 { memory = hw.copy_memory m2 l2 kernel_l2 size })
    ]
  ]
