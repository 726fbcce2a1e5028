-- ===== src/Kernel/Syscalls.antt =====
-- Assign4/kernel.c: what single system calls give the process.
use systems_programming.Prelude.{
  ℕ, ◌≡◌, ◌≢◌, ◌<◌, refl, true, false, arith, Bool-cases, inl, inr, if◌then◌else◌,
}
use systems_programming.Kernel.State.{Hardware, Kernel, pid_owner, user_rw}
use systems_programming.Kernel.Pages.{is_free_page}
use systems_programming.Kernel.Alloc.{AddressLaws, alloc_free_page-Allocated, alloc_free_page-total}
use systems_programming.Kernel.Exception.{page_alloc, user_page, minus_one_eax}

module _ {Memory : Type 0} (hw : Hardware Memory) where
  abbrev current_eax : Kernel Memory → ℕ
  current_eax k = (k.processes k.current).registers.eax

  -- The page that a call to allocate takes, and what the caller sees.
  pub record PageTaken (k k' : Kernel Memory) (eax : ℕ) : Type 0 where
    pub page : ℕ
    pub in_memory : page < hw.npages
    pub was_free : is_free_page hw (k.pageinfo page) ≡ true
    pub taken :
        k'.pageinfo page ≡ record { owner = pid_owner (k.processes k.current).pid; refcount = 1 }
    pub others : (j : ℕ) → j ≢ page → k'.pageinfo j ≡ k.pageinfo j
    pub returned : current_eax k' ≡ eax

  -- With a free page and page 0 in use, the allocating call takes a page for the process and returns
  -- 0 at a page-aligned address of the process's range, with that page mapped there.
  pub page_alloc-valid :
      (k : Kernel Memory) (i : ℕ)
      → AddressLaws hw
      → i < hw.npages
      → is_free_page hw (k.pageinfo i) ≡ true
      → is_free_page hw (k.pageinfo 0) ≡ false
      → user_page hw (current_eax k) ≡ true
      → (t : PageTaken k (page_alloc hw k) 0) × ((page_alloc hw k).memory
          ≡ hw.map_pages k.memory
              (k.processes k.current).pagetable
              (current_eax k)
              (hw.page_address t.page)
              hw.page_size
              (user_rw hw))
  unfolding page_alloc
  page_alloc-valid k i laws lt fr used valid =
      let o = pid_owner (k.processes k.current).pid in
      let (addr, k1, e) = alloc_free_page-total hw k i o laws lt fr used in
      let a = alloc_free_page-Allocated hw k o laws e in
      rw (e, page_alloc, valid, a.result, a.address)
        (
          record {
            page = a.page;
            in_memory = a.in_memory;
            was_free = a.was_free;
            taken = ground arith;
            others = λ j ne. ground arith;
            returned = ground arith;
          },
          refl,
        )

  -- At any other address it returns -1, and still takes the page: nothing maps it, and only the end
  -- of the process gives it back.
  pub page_alloc-leaks :
      (k : Kernel Memory) (i : ℕ)
      → AddressLaws hw
      → i < hw.npages
      → is_free_page hw (k.pageinfo i) ≡ true
      → is_free_page hw (k.pageinfo 0) ≡ false
      → user_page hw (current_eax k) ≡ false
      → PageTaken k (page_alloc hw k) minus_one_eax × ((page_alloc hw k).memory ≡ k.memory)
  unfolding page_alloc
  page_alloc-leaks k i laws lt fr used invalid =
      let o = pid_owner (k.processes k.current).pid in
      let (addr, k1, e) = alloc_free_page-total hw k i o laws lt fr used in
      let a = alloc_free_page-Allocated hw k o laws e in
      rw (e, page_alloc, invalid, a.result)
        (
          record {
            page = a.page;
            in_memory = a.in_memory;
            was_free = a.was_free;
            taken = ground arith;
            others = λ j ne. ground arith;
            returned = ground arith;
          },
          refl,
        )

  -- With a free page and page 0 in use, the allocating call takes a page for the process. At a
  -- page-aligned address of the process's range it returns 0, with that page mapped there; at any other
  -- it returns -1, and still takes the page: nothing maps it.
  pub page_alloc-PageTaken :
      (k : Kernel Memory) (i : ℕ)
      → AddressLaws hw
      → i < hw.npages
      → is_free_page hw (k.pageinfo i) ≡ true
      → is_free_page hw (k.pageinfo 0) ≡ false
      → let valid = user_page hw (current_eax k) in
        (t : PageTaken k (page_alloc hw k) (if valid then 0 else minus_one_eax)) × ((page_alloc hw
            k).memory
          ≡ (if valid
              then hw.map_pages k.memory
                  (k.processes k.current).pagetable
                  (current_eax k)
                  (hw.page_address t.page)
                  hw.page_size
                  (user_rw hw)
              else k.memory))
  page_alloc-PageTaken k i laws lt fr used = elim (Bool-cases (user_page hw (current_eax k))) [
    | inl valid ↦ rw valid (page_alloc-valid k i laws lt fr used valid)
    | inr invalid ↦ rw invalid (page_alloc-leaks k i laws lt fr used invalid)
  ]
