-- ===== src/Kernel/CheckFrame.antt =====
-- Assign4/kernel.c, `virtual_memory_check`: what it looks at.
use systems_programming.Prelude.{
  ℕ, zero, suc, ◌+◌, ◌≡◌, refl, ap, ◌∙◌, Bool, not, ◌&&◌, ◌==◌, if◌then◌else◌,
}
use mathlib.Core.Path.{ap₂}
use systems_programming.Kernel.State.{
  Hardware, Kernel, Owner, reserved, kernel_owned, pid_owner, is_free,
}
use systems_programming.Kernel.Check.{
  all_from, uses_kernel_table, count_kernel_refs, check_page, check_entry, check_table,
  check_process, check_owner, check_referenced, check_owners, virtual_memory_check,
}

all_from-same : (p q : ℕ → Bool) (n i : ℕ) → ((j : ℕ) → p j ≡ q j) → all_from p n i ≡ all_from q n i
unfolding all_from
all_from-same p q zero i h = refl
all_from-same p q (suc n) i h = ap₂ ◌&&◌ (h i) (all_from-same p q n (i + 1) h)

module _ {Memory : Type 0} (hw : Hardware Memory) where
  -- The same states, page tables, pages and memory.
  pub record SameTables (k k' : Kernel Memory) : Type 0 where
    pub states : (q : ℕ) → (k'.processes q).state ≡ (k.processes q).state
    pub tables : (q : ℕ) → (k'.processes q).pagetable ≡ (k.processes q).pagetable
    pub pids : (q : ℕ) → (k'.processes q).pid ≡ (k.processes q).pid
    pub pages : k'.pageinfo ≡ k.pageinfo
    pub contents : k'.memory ≡ k.memory

  module _ (k k' : Kernel Memory) (s : SameTables k k') where
    uses-same : (q : ℕ) → uses_kernel_table hw k' q ≡ uses_kernel_table hw k q
    uses-same q = ap₂ (λ x t. not (is_free x) && t == hw.kernel_pagetable) (s.states q) (s.tables q)

    count-same :
        (left pid expected : ℕ)
        → count_kernel_refs hw left pid expected k' ≡ count_kernel_refs hw left pid expected k
    unfolding count_kernel_refs
    count-same zero pid expected = refl
    count-same (suc left) pid expected =
        count-same left (pid + 1) _
        ∙ ap (λ b. count_kernel_refs hw left (pid + 1) (if b then expected + 1 else expected) k)
            (uses-same pid)

    check_page-same : (o : Owner) (n pn : ℕ) → check_page hw o n pn k' ≡ check_page hw o n pn k
    unfolding check_page
    check_page-same o n pn = rw s.pages refl

    check_entry-same : (o : Owner) (t pn : ℕ) → check_entry hw o t k' pn ≡ check_entry hw o t k pn
    unfolding check_entry check_page
    check_entry-same o t pn = rw (s.contents, check_page-same o 1 _) refl

    check_table-same : (o : Owner) (n t : ℕ) → check_table hw o n t k' ≡ check_table hw o n t k
    unfolding check_table
    check_table-same o n t =
        rw (check_page-same o n _, all_from-same _ _ hw.pagetable_entries 0 (check_entry-same o t))
          refl

    check_process-same : (n q : ℕ) → check_process hw n k' q ≡ check_process hw n k q
    unfolding check_process
    check_process-same n q =
        rw
          (
            s.states q,
            s.tables q,
            check_table-same (pid_owner q) 1 _,
            check_table-same kernel_owned n _,
          )
          refl

    check_owner-same : (o : Owner) → check_owner hw k' o ≡ check_owner hw k o
    unfolding check_owner
    check_owner-same reserved = refl
    check_owner-same kernel_owned = refl
    check_owner-same (pid_owner q) = ap (λ x. not (is_free x)) (s.states q)

    check_referenced-same : (pn : ℕ) → check_referenced hw k' pn ≡ check_referenced hw k pn
    unfolding check_referenced check_owner
    check_referenced-same pn = rw (s.pages, check_owner-same _) refl

    -- The answer depends on nothing else.
    pub virtual_memory_check-same : virtual_memory_check hw k' ≡ virtual_memory_check hw k
    unfolding virtual_memory_check check_owners
    virtual_memory_check-same =
        rw
          (
            s.states 0,
            count-same hw.nproc 0 1,
            check_table-same kernel_owned _ _,
            all_from-same _ _ hw.nproc 0 (check_process-same (count_kernel_refs hw hw.nproc 0 1 k)),
            all_from-same _ _ (hw.page_number hw.memsize_physical) 0 check_referenced-same,
          )
          refl
