-- ===== src/Kernel/Alloc.antt =====
-- Assign4/kernel.c: what an allocation finds and changes.
use Prim.Native.Nat.{bit_and}
use mathlib.Core.Path.{subst}
use systems_programming.Prelude.{
  ℕ, ◌+◌, ◌<◌, ◌≡◌, ◌≢◌, refl, ap, ◌∙◌, true, false, some, inl, inr, arith, Option-cases,
}
use systems_programming.Prelude.Search.{find_from, find_from-some, find_from-total, IsFirst}
use systems_programming.Kernel.State.{Hardware, Kernel, Owner, PageInfo, set_page}
use systems_programming.Kernel.Pages.{
  is_free_page, find_free_physical_page, physical_page_alloc, alloc_free_page,
}

-- PAGENUMBER and PAGEADDRESS on the pages of physical memory: they are inverse, addresses are
-- aligned and inside the memory, and page 0 alone has address 0.
pub record AddressLaws {Memory : Type 0} (hw : Hardware Memory) : Type 0 where
  pub number_address : (i : ℕ) → i < hw.npages → hw.page_number (hw.page_address i) ≡ i
  pub aligned : (i : ℕ) → i < hw.npages → bit_and (hw.page_address i) 0xFFF ≡ 0
  pub inside : (i : ℕ) → i < hw.npages → hw.page_address i < hw.memsize_physical
  pub nonzero : (i : ℕ) → i < hw.npages → i ≢ 0 → hw.page_address i ≢ 0

module _ {Memory : Type 0} (hw : Hardware Memory) where
  -- The page with number `i` was free, and is now the owner's alone.
  pub record Allocated (k : Kernel Memory) (o : Owner) (addr : ℕ) (k' : Kernel Memory)
      : Type 0 where
    pub page : ℕ
    pub in_memory : page < hw.npages
    pub was_free : is_free_page hw (k.pageinfo page) ≡ true
    pub first : (j : ℕ) → j < page → is_free_page hw (k.pageinfo j) ≡ false
    pub address : addr ≡ hw.page_address page
    pub result : k' ≡ set_page k page (record { owner = o; refcount = 1 })

  find_free_physical_page-some :
      (k : Kernel Memory)
      → find_free_physical_page hw k ≢ 0
      → (i : ℕ) × (find_free_physical_page hw k ≡ hw.page_address i)
        × IsFirst (λ j. is_free_page hw (k.pageinfo j)) 0 (0 + hw.npages) i
  unfolding find_free_physical_page
  find_free_physical_page-some k ne =
      elim (Option-cases (find_from (λ j. is_free_page hw (k.pageinfo j)) hw.npages 0)) [
        | inl e ↦ absurd (ne (rw (e, find_free_physical_page) refl))
        | inr (i, e) ↦ (i, rw (e, find_free_physical_page) refl, find_from-some _ _ 0 e)
      ]

  pub physical_page_alloc-some :
      (k : Kernel Memory) (addr : ℕ) (o : Owner) {k' : Kernel Memory}
      → physical_page_alloc hw k addr o ≡ some k'
      → k' ≡ set_page k (hw.page_number addr) (record { owner = o; refcount = 1 })
  unfolding physical_page_alloc
  physical_page_alloc-some k addr o h = ground arith

  -- A page that `alloc_free_page` returns was the first free one, and nothing else changes.
  pub alloc_free_page-Allocated :
      (k : Kernel Memory) (o : Owner) {addr : ℕ} {k' : Kernel Memory}
      → AddressLaws hw
      → alloc_free_page hw k o ≡ some (addr, k')
      → Allocated k o addr k'
  unfolding alloc_free_page
  alloc_free_page-Allocated k o {addr} {k'} laws h =
      let found : find_free_physical_page hw k ≢ 0 = λ z. ground arith in
      let e : addr ≡ find_free_physical_page hw k =
        elim (Option-cases (physical_page_alloc hw k (find_free_physical_page hw k) o)) [
          | inl none_e ↦ absurd (ground arith)
          | inr (k2, some_e) ↦ ground arith
        ] in
      let given : physical_page_alloc hw k (find_free_physical_page hw k) o ≡ some k' =
        elim (Option-cases (physical_page_alloc hw k (find_free_physical_page hw k) o)) [
          | inl none_e ↦ absurd (ground arith)
          | inr (k2, some_e) ↦ ground arith
        ] in
      let (i, at, f) = find_free_physical_page-some k found in
      record {
        page = i;
        in_memory = omega (arith, f.upper);
        was_free = f.passes;
        first = λ j h. f.before j (omega arith) h;
        address = e ∙ at;
        result =
            physical_page_alloc-some k (find_free_physical_page hw k) o given
            ∙ ap (λ n. set_page k n (record { owner = o; refcount = 1 }))
                (ap hw.page_number at ∙ laws.number_address i (omega (arith, f.upper)));
      }

  find_free_physical_page-total :
      (k : Kernel Memory) (i : ℕ)
      → i < hw.npages
      → is_free_page hw (k.pageinfo i) ≡ true
      → is_free_page hw (k.pageinfo 0) ≡ false
      → (j : ℕ) × (find_free_physical_page hw k ≡ hw.page_address j)
        × (j < hw.npages)
        × (j ≢ 0)
        × (is_free_page hw (k.pageinfo j) ≡ true)
  unfolding find_free_physical_page
  find_free_physical_page-total k i lt fr zero_used =
      let (j, e) =
        find_from-total (λ n. is_free_page hw (k.pageinfo n)) hw.npages 0 i (omega arith)
          (omega arith) fr in
      let f = find_from-some (λ n. is_free_page hw (k.pageinfo n)) hw.npages 0 e in
      (
        j,
        rw (e, find_free_physical_page) refl,
        omega (arith, f.upper),
        (λ z.
            ground
              (arith, zero_used, subst (λ n. is_free_page hw (k.pageinfo n) ≡ true) z f.passes)),
        f.passes,
      )

  is_free_page-refcount : (info : PageInfo) → is_free_page hw info ≡ true → info.refcount ≡ 0
  is_free_page-refcount info h = ground arith

  physical_page_alloc-free :
      (k : Kernel Memory) (j : ℕ) (o : Owner)
      → AddressLaws hw
      → j < hw.npages
      → is_free_page hw (k.pageinfo j) ≡ true
      → (k' : Kernel Memory) × (physical_page_alloc hw k (hw.page_address j) o ≡ some k')
  unfolding physical_page_alloc
  physical_page_alloc-free k j o laws lt fr = (
    set_page k (hw.page_number (hw.page_address j)) (record { owner = o; refcount = 1 }),
    rw (laws.number_address j lt, physical_page_alloc)
        (ground (
          arith,
          laws.number_address j lt,
          laws.aligned j lt,
          laws.inside j lt,
          is_free_page-refcount (k.pageinfo j) fr,
        )),
  )

  -- Where page 0 is in use and some page is free, the allocation succeeds.
  pub alloc_free_page-total :
      (k : Kernel Memory) (i : ℕ) (o : Owner)
      → AddressLaws hw
      → i < hw.npages
      → is_free_page hw (k.pageinfo i) ≡ true
      → is_free_page hw (k.pageinfo 0) ≡ false
      → (addr : ℕ) × (k' : Kernel Memory) × (alloc_free_page hw k o ≡ some (addr, k'))
  unfolding alloc_free_page
  alloc_free_page-total k i o laws lt fr zero_used =
      let (j, at, jlt, jnz, jfree) = find_free_physical_page-total k i lt fr zero_used in
      let (k', e) = physical_page_alloc-free k j o laws jlt jfree in
      (hw.page_address j, k', rw (at, alloc_free_page) (ground (arith, e, laws.nonzero j jlt jnz)))
