-- ===== src/Kernel/Loading.antt =====
-- Assign4/k-loader.c and kernel.c, `process_setup`: what a loading process leaves alone.
use systems_programming.Prelude.{
  ℕ, zero, suc, ◌+◌, ◌≡◌, refl, sym, ap, ◌∙◌, ◌⊎◌, some, inl, inr, List, [], ◌∷◌, ◌==◌, ◌&&◌, ltb,
  arith, Bool-cases, Option-cases,
}
use systems_programming.Kernel.State.{Hardware, Kernel, Proc, Owner, pid_owner, user_rw}
use systems_programming.Kernel.Pages.{physical_page_alloc}
use systems_programming.Kernel.Alloc.{physical_page_alloc-some}
use systems_programming.Kernel.ForkFrame.{Extends}
use systems_programming.Kernel.Loader.{
  ElfProgram, Images, Loaded, loaded, minus_one, asserts, load_then, alloc_pages, copyseg,
  fill_segment, load_segments, program_load, set_eip, nprograms,
}

module _ {Memory : Type 0} where
  -- Every process keeps its number and state, and pages only go to process `child`.
  pub record Grants (child : ℕ) (k k' : Kernel Memory) : Type 0 where
    pub same_pid : (i : ℕ) → (k'.processes i).pid ≡ (k.processes i).pid
    pub same_state : (i : ℕ) → (k'.processes i).state ≡ (k.processes i).state
    pub owner :
        (j : ℕ)
        → ((k'.pageinfo j).owner ≡ (k.pageinfo j).owner) ⊎ ((k'.pageinfo j).owner ≡ pid_owner child)

  pub Grants-trans :
      (child : ℕ) {k k1 k2 : Kernel Memory}
      → Grants child k k1
      → Grants child k1 k2
      → Grants child k k2
  Grants-trans child {k} {k1} {k2} e f = record {
    same_pid = λ i. f.same_pid i ∙ e.same_pid i;
    same_state = λ i. f.same_state i ∙ e.same_state i;
    owner = λ j. go (e.owner j) (f.owner j);
  }
    where
      go :
          {a b c : Owner}
          → ((b ≡ a) ⊎ (b ≡ pid_owner child))
          → ((c ≡ b) ⊎ (c ≡ pid_owner child))
          → ((c ≡ a) ⊎ (c ≡ pid_owner child))
      go (inl p) (inl q) = inl (q ∙ p)
      go (inr p) (inl q) = inr (q ∙ p)
      go p (inr q) = inr q

  -- The pages stay, and each process keeps its number and state.
  pub Grants-same :
      (child : ℕ) (k k' : Kernel Memory)
      → ((i : ℕ) → (k'.processes i).pid ≡ (k.processes i).pid)
      → ((i : ℕ) → (k'.processes i).state ≡ (k.processes i).state)
      → ((j : ℕ) → (k'.pageinfo j).owner ≡ (k.pageinfo j).owner)
      → Grants child k k'
  Grants-same child k k' p s o = record { same_pid = p; same_state = s; owner = λ j. inl (o j) }

  pub Extends-Grants : (child : ℕ) {k k' : Kernel Memory} → Extends child k k' → Grants child k k'
  Extends-Grants child {k} {k'} e = record {
    same_pid = λ i. ap (λ (f : ℕ → Proc). (f i).pid) e.same_processes;
    same_state = λ i. ap (λ (f : ℕ → Proc). (f i).state) e.same_processes;
    owner = λ j. elim (e.claims j) [ inl same ↦ inl same | inr taken ↦ inr taken.1 ];
  }

  -- What a loading says of the state that it leaves.
  abbrev pub LoadedPost : ℕ → Kernel Memory → Loaded Memory → Type 0
  LoadedPost child k (loaded k') = Grants child k k'
  LoadedPost child k (minus_one k') = Grants child k k'
  LoadedPost child k asserts = Unit

  pub LoadedPost-trans :
      (child : ℕ) (k k1 : Kernel Memory) (r : Loaded Memory)
      → Grants child k k1
      → LoadedPost child k1 r
      → LoadedPost child k r
  LoadedPost-trans child k k1 (loaded k2) g h = Grants-trans child g h
  LoadedPost-trans child k k1 (minus_one k2) g h = Grants-trans child g h
  LoadedPost-trans child k k1 asserts g h = h

  pub LoadedPost-then :
      (child : ℕ) (k : Kernel Memory) (r : Loaded Memory) (next : Kernel Memory → Loaded Memory)
      → LoadedPost child k r
      → ((k1 : Kernel Memory) → Grants child k k1 → LoadedPost child k (next k1))
      → LoadedPost child k (load_then r next)
  LoadedPost-then child k (loaded k1) next g f = f k1 g
  LoadedPost-then child k (minus_one k1) next g f = g
  LoadedPost-then child k asserts next g f = g

module _ {Memory : Type 0} (hw : Hardware Memory) (images : Images Memory) where
  -- A page that is given out goes to `child`.
  physical_page_alloc-Grants :
      (child : ℕ) (k : Kernel Memory) (addr : ℕ) {k' : Kernel Memory}
      → physical_page_alloc hw k addr (pid_owner child) ≡ some k'
      → Grants child k k'
  physical_page_alloc-Grants child k addr {k'} h =
      rw (physical_page_alloc-some hw k addr (pid_owner child) h) (record {
        same_pid = λ i. refl;
        same_state = λ i. refl;
        owner = λ j. elim (Bool-cases (hw.page_number addr == j)) [
          | inl e ↦ inr (ground (arith, e))
          | inr e ↦ inl (ground (arith, e))
        ];
      })

  alloc_pages-LoadedPost :
      (left p page_va : ℕ) (k : Kernel Memory)
      → (k.processes p).pid ≡ p
      → LoadedPost p k (alloc_pages hw images left p page_va k)
  unfolding alloc_pages
  alloc_pages-LoadedPost zero p page_va k own =
      Grants-same p k k (λ i. refl) (λ i. refl) (λ j. refl)
  alloc_pages-LoadedPost (suc left) p page_va k own =
      elim (Option-cases (physical_page_alloc hw k page_va (pid_owner (k.processes p).pid))) [
        | inl e ↦ rw (e, alloc_pages) (Grants-same p k k (λ i. refl) (λ i. refl) (λ j. refl))
        | inr (k1, e) ↦
            let g =
              physical_page_alloc-Grants p k page_va
                (ap (λ x. physical_page_alloc hw k page_va (pid_owner x)) (sym own) ∙ e) in
            let mapped : Kernel Memory = record k1 {
              memory =
                  hw.map_pages k1.memory (k1.processes p).pagetable page_va page_va hw.page_size
                    (user_rw hw);
            } in
            let g1 : Grants p k mapped = record {
              same_pid = g.same_pid;
              same_state = g.same_state;
              owner = g.owner;
            } in
            rw (e, alloc_pages)
              (LoadedPost-trans p k mapped _ g1 (
                alloc_pages-LoadedPost left p (page_va + hw.page_size) mapped (g.same_pid p ∙ own)))
      ]

  set_eip-Grants : (p entry : ℕ) (k : Kernel Memory) → Grants p k (set_eip hw images p entry k)
  set_eip-Grants p entry k =
      Grants-same p k (set_eip hw images p entry k) (λ i. ground arith) (λ i. ground arith)
        (λ j. refl)

  copyseg-LoadedPost :
      (p : ℕ) (ph : ElfProgram) (src : ℕ) (k : Kernel Memory)
      → (k.processes p).pid ≡ p
      → LoadedPost p k (copyseg hw images p ph src k)
  unfolding copyseg fill_segment
  copyseg-LoadedPost p ph src k own =
      LoadedPost-then p k _ _ (alloc_pages-LoadedPost _ p _ k own)
        (λ k1 g. record { same_pid = g.same_pid; same_state = g.same_state; owner = g.owner })

  load_segments-LoadedPost :
      (p begin : ℕ) (segments : List ElfProgram) (k : Kernel Memory)
      → (k.processes p).pid ≡ p
      → LoadedPost p k (load_segments hw images p begin segments k)
  unfolding load_segments
  load_segments-LoadedPost p begin [] k own = Grants-same p k k (λ i. refl) (λ i. refl) (λ j. refl)
  load_segments-LoadedPost p begin (ph ∷ rest) k own =
      LoadedPost-then p k _ (λ k1. load_segments hw images p begin rest k1)
        (elim (Bool-cases (ph.p_type == images.elf_ptype_load)) [
          | inl e ↦ rw e (copyseg-LoadedPost p ph _ k own)
          | inr e ↦ rw e (Grants-same p k k (λ i. refl) (λ i. refl) (λ j. refl))
        ])
        (λ k1 g.
          LoadedPost-trans p k k1 _ g
            (load_segments-LoadedPost p begin rest k1 (g.same_pid p ∙ own)))

  -- Loading a program gives pages to its process only.
  pub program_load-LoadedPost :
      (p program_id : ℕ) (k : Kernel Memory)
      → (k.processes p).pid ≡ p
      → LoadedPost p k (program_load hw images p program_id k)
  unfolding program_load
  program_load-LoadedPost p program_id k own =
      let eh = images.image_header program_id in
      elim (Bool-cases (ltb program_id nprograms && eh.e_magic == images.elf_magic)) [
        | inl e ↦
            rw (e, program_load)
              (LoadedPost-then p k _ (λ k1. loaded (set_eip hw images p eh.e_entry k1))
                (load_segments-LoadedPost p (images.image_begin program_id) eh.program_headers k
                  own)
                (λ k1 g. Grants-trans p g (set_eip-Grants p eh.e_entry k1)))
        | inr e ↦ rw (e, program_load) tt
      ]
