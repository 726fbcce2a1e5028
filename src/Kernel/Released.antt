-- ===== src/Kernel/Released.antt =====
-- Assign4/kernel.c, `free_current_process`: the whole effect of the call.
use native.Mathlib.Decide.{dec_lt}
use systems_programming.Prelude.{
  ℕ, ◌<◌, ◌≤◌, ◌==◌, some, none, ◌≡◌, ◌≢◌, refl, ◌∙◌, ◌⊎◌, true, false, inl, inr, arith,
  Option-cases,
}
use systems_programming.Prelude.Search.{find_from, find_from-some, find_from-none}
use systems_programming.Kernel.State.{
  Hardware, Kernel, pid_owner, po_free, free, blocked, runnable, dec_int8, int8_above, set_state,
}
use systems_programming.Kernel.Release.{
  maps_page, find_page_owner, release_page, free_current_process,
}
use systems_programming.Kernel.Ownership.{
  Physical, owner_eq→eq, owner_eq_refl, find_page_owner-ne, free_current_process-pageinfo,
  free_current_process-outside, free_current_process-processes, free_current_process-current,
  free_current_process-disowns,
}

module _ {Memory : Type 0} (hw : Hardware Memory) where
  -- Process `q` can run, and maps physical page `j` at virtual page `v`.
  abbrev pub MapsAt : Kernel Memory → ℕ → ℕ → ℕ → Type 0
  MapsAt k q v j =
      ((k.processes q).state ≡ runnable)
      × (v < hw.npages)
      × ((hw.lookup k.memory (k.processes q).pagetable (hw.page_address v)).pa ≡ hw.page_address j)

  -- What became of a shared page: it is free, and no process other than `slot` that can run maps it;
  -- or one of those has it.
  abbrev pub HandedOn : Kernel Memory → ℕ → Kernel Memory → ℕ → Type 0
  HandedOn k slot k' j =
      ((k'.pageinfo j ≡ record { owner = po_free; refcount = 0 })
        × ((q v : ℕ) → q ≢ slot → 1 ≤ q → q < hw.nproc → ¬ (MapsAt k q v j)))
      ⊎ ((q : ℕ) × (q ≢ slot)
          × (1 ≤ q)
          × (q < hw.nproc)
          × ((v : ℕ) × MapsAt k q v j)
          × (k'.pageinfo j
              ≡ record { owner = pid_owner q; refcount = dec_int8 (k.pageinfo j).refcount }))

  pub record Released (k : Kernel Memory) (slot : ℕ) (k' : Kernel Memory) : Type 0 where
    pub slot_free : k'.processes slot ≡ record (k.processes slot) { state = free }
    pub others : (q : ℕ) → q ≢ slot → k'.processes q ≡ k.processes q
    pub disowned : (j : ℕ) → Physical hw j → (k'.pageinfo j).owner ≢ pid_owner slot
    pub kept : (j : ℕ) → (k.pageinfo j).owner ≢ pid_owner slot → k'.pageinfo j ≡ k.pageinfo j
    pub freed :
        (j : ℕ)
        → Physical hw j
        → (k.pageinfo j).owner ≡ pid_owner slot
        → (k.pageinfo j).refcount ≡ 1
        → k'.pageinfo j ≡ record { owner = po_free; refcount = 0 }
    pub shared :
        (j : ℕ)
        → Physical hw j
        → (k.pageinfo j).owner ≡ pid_owner slot
        → int8_above 1 (k.pageinfo j).refcount ≡ true
        → HandedOn k slot k' j
    pub stale :
        (j : ℕ)
        → Physical hw j
        → (k.pageinfo j).owner ≡ pid_owner slot
        → int8_above 1 (k.pageinfo j).refcount ≡ false
        → (k.pageinfo j).refcount ≢ 1
        → k'.pageinfo j ≡ record (k.pageinfo j) { owner = po_free }
    pub same_current : k'.current ≡ k.current

  free_current_process-kept :
      (k : Kernel Memory) (slot j : ℕ)
      → (k.processes slot).pid ≡ slot
      → (k.pageinfo j).owner ≢ pid_owner slot
      → (free_current_process hw k slot).pageinfo j ≡ k.pageinfo j
  free_current_process-kept k slot j own ne = elim (dec_lt j (hw.page_number hw.memsize_physical)) [
    | yes h ↦
        free_current_process-pageinfo hw k slot j h
        ∙ rw own (ground (arith, owner_eq→eq (k.pageinfo j).owner (pid_owner slot)))
    | no h ↦ free_current_process-outside hw k slot j h
  ]

  free_current_process-owned :
      (k : Kernel Memory) (slot j : ℕ)
      → (k.processes slot).pid ≡ slot
      → Physical hw j
      → (k.pageinfo j).owner ≡ pid_owner slot
      → (free_current_process hw k slot).pageinfo j
        ≡ release_page hw (set_state k slot blocked) j (k.pageinfo j)
  free_current_process-owned k slot j own h o =
      free_current_process-pageinfo hw k slot j h ∙ rw (own, o) (ground (arith, owner_eq_refl slot))

  release_page-one :
      (k : Kernel Memory) (slot j : ℕ)
      → (k.pageinfo j).refcount ≡ 1
      → release_page hw (set_state k slot blocked) j (k.pageinfo j)
        ≡ record { owner = po_free; refcount = 0 }
  unfolding release_page
  release_page-one k slot j e = ground arith

  release_page-stale :
      (k : Kernel Memory) (slot j : ℕ)
      → int8_above 1 (k.pageinfo j).refcount ≡ false
      → (k.pageinfo j).refcount ≢ 1
      → release_page hw (set_state k slot blocked) j (k.pageinfo j)
        ≡ record (k.pageinfo j) { owner = po_free }
  unfolding release_page
  release_page-stale k slot j below ne = rw (below, release_page) (ground arith)

  maps_page-some :
      (k : Kernel Memory) (j q : ℕ)
      → maps_page hw k j q ≡ true
      → (v : ℕ) × (v < hw.npages)
        × ((hw.lookup k.memory (k.processes q).pagetable (hw.page_address v)).pa
            ≡ hw.page_address j)
  unfolding maps_page
  maps_page-some k j q e =
      elim (Option-cases (
        find_from
          (λ v.
            (hw.lookup k.memory (k.processes q).pagetable (hw.page_address v)).pa
            == hw.page_address j)
          hw.npages 0)) [
            | inl n ↦ absurd (ground (arith, e, n))
            | inr (v, n) ↦
                let f = find_from-some _ _ 0 n in
                (v, omega (arith, f.upper), ground (arith, f.passes))
          ]

  maps_page-none :
      (k : Kernel Memory) (j q v : ℕ)
      → maps_page hw k j q ≡ false
      → v < hw.npages
      → (hw.lookup k.memory (k.processes q).pagetable (hw.page_address v)).pa ≢ hw.page_address j
  unfolding maps_page
  maps_page-none k j q v e lt at =
      elim (Option-cases (
        find_from
          (λ v.
            (hw.lookup k.memory (k.processes q).pagetable (hw.page_address v)).pa
            == hw.page_address j)
          hw.npages 0)) [
            | inl n ↦ ground (arith, find_from-none _ _ 0 n v (omega arith) (omega (arith, lt)), at)
            | inr (w, n) ↦ ground (arith, e, n)
          ]

  -- The process that is found maps the page.
  found-MapsAt :
      (k : Kernel Memory) (slot j : ℕ) {q : ℕ}
      → find_page_owner hw (set_state k slot blocked) j ≡ some q
      → (q ≢ slot) × (1 ≤ q) × (q < hw.nproc) × ((v : ℕ) × MapsAt k q v j)
  unfolding find_page_owner
  found-MapsAt k slot j {q} e =
      let (ne, run, lo) = find_page_owner-ne hw k slot j e in
      let f = find_from-some _ _ 1 e in
      let (v, lt, at) = maps_page-some (set_state k slot blocked) j q (ground (arith, f.passes)) in
      (ne, lo, omega (arith, f.upper, lo), (v, (run, lt, ground (arith, at, ne))))

  -- Where none is found, none maps it.
  nobody-MapsAt :
      (k : Kernel Memory) (slot j q v : ℕ)
      → find_page_owner hw (set_state k slot blocked) j ≡ none
      → q ≢ slot
      → 1 ≤ q
      → q < hw.nproc
      → ¬ (MapsAt k q v j)
  unfolding find_page_owner
  nobody-MapsAt k slot j q v e ne lo hi (run, lt, at) =
      let miss = find_from-none _ _ 1 e q lo (omega (arith, hi, lo)) in
      maps_page-none (set_state k slot blocked) j q v (ground (arith, miss, ne, run)) lt
        (ground (arith, at, ne))

  release_page-shared :
      (k : Kernel Memory) (slot j : ℕ)
      → (free_current_process hw k slot).pageinfo j
        ≡ release_page hw (set_state k slot blocked) j (k.pageinfo j)
      → int8_above 1 (k.pageinfo j).refcount ≡ true
      → HandedOn k slot (free_current_process hw k slot) j
  unfolding release_page
  release_page-shared k slot j e above =
      elim (Option-cases (find_page_owner hw (set_state k slot blocked) j)) [
        | inl nobody ↦ inl (e ∙ rw (above, nobody) refl, λ q v. nobody-MapsAt k slot j q v nobody)
        | inr (q, found) ↦
            let (ne, lo, hi, maps) = found-MapsAt k slot j found in
            inr (q, ne, lo, hi, maps, e ∙ rw (above, found) refl)
      ]

  pub free_current_process-Released :
      (k : Kernel Memory) (slot : ℕ)
      → slot ≢ 0
      → (k.processes slot).pid ≡ slot
      → Released k slot (free_current_process hw k slot)
  free_current_process-Released k slot nz own = record {
    slot_free = rw (free_current_process-processes hw k slot) (ground arith);
    others = λ q ne. rw (free_current_process-processes hw k slot) (ground arith);
    disowned = λ j h. free_current_process-disowns hw k slot j nz own h;
    kept = λ j ne. free_current_process-kept k slot j own ne;
    freed =
        λ j h o one. free_current_process-owned k slot j own h o ∙ release_page-one k slot j one;
    shared = λ j h o above.
        release_page-shared k slot j (free_current_process-owned k slot j own h o) above;
    stale = λ j h o below ne.
        free_current_process-owned k slot j own h o ∙ release_page-stale k slot j below ne;
    same_current = free_current_process-current hw k slot;
  }
