-- ===== src/Kernel/Release.antt =====
-- Assign4/kernel.c: giving a process's pages back, `find_page_owner` and `free_current_process`.
use systems_programming.Prelude.{
  ℕ, zero, suc, ◌+◌, ◌-◌, Bool, ◌&&◌, Option, none, some, ◌==◌, if◌then◌else◌,
}
use systems_programming.Prelude.Search.{find_from}
use systems_programming.Kernel.State.{
  Hardware, Kernel, pid_owner, owner_eq, po_free, PageInfo, free, blocked, is_runnable, dec_int8,
  int8_above, set_state, set_page,
}

module _ {Memory : Type 0} (hw : Hardware Memory) where
  -- Does some virtual page of `pid` map to the physical page?
  unfoldable pub maps_page : Kernel Memory → ℕ → ℕ → Bool
  maps_page k pagenum pid =
      elim (find_from
        (λ v.
          (hw.lookup k.memory (k.processes pid).pagetable (hw.page_address v)).pa
          == hw.page_address pagenum)
        hw.npages 0) [ none ↦ Bool.false | some v ↦ Bool.true ]

  unfoldable pub find_page_owner : Kernel Memory → ℕ → Option ℕ
  find_page_owner k pagenum =
      find_from (λ pid. is_runnable (k.processes pid).state && maps_page k pagenum pid)
        (hw.nproc - 1) 1

  -- The entry of a page of the process after the loop's body.
  unfoldable pub release_page : Kernel Memory → ℕ → PageInfo → PageInfo
  release_page k i info =
      if int8_above 1 info.refcount
      then elim (find_page_owner k i) [
        | none ↦ record { owner = po_free; refcount = 0 }
        | some pid ↦ record { owner = pid_owner pid; refcount = dec_int8 info.refcount }
      ]
      else if info.refcount == 1
      then record { owner = po_free; refcount = dec_int8 info.refcount }
      else record info { owner = po_free }

  unfoldable pub release_body : ℕ → ℕ → Kernel Memory → Kernel Memory
  release_body pid i k =
      if owner_eq (k.pageinfo i).owner (pid_owner pid)
      then set_page k i (release_page k i (k.pageinfo i))
      else k

  -- for (int i = 0; i < PAGENUMBER(MEMSIZE_PHYSICAL); ++i), from `i` with `left` rounds to go
  unfoldable pub release_pages : ℕ → ℕ → ℕ → Kernel Memory → Kernel Memory
  release_pages pid zero i k = k
  release_pages pid (suc left) i k = release_pages pid left (i + 1) (release_body pid i k)

  -- `slot` is the index of the process that `p` points to.
  unfoldable pub free_current_process : Kernel Memory → ℕ → Kernel Memory
  free_current_process k slot =
      let started = set_state k slot blocked in
      let pid = (k.processes slot).pid in
      set_state (release_pages pid (hw.page_number hw.memsize_physical) 0 started) slot free
