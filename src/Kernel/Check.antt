-- ===== src/Kernel/Check.antt =====
-- Assign4/kernel.c, `virtual_memory_check`: `true` where every assertion holds.
use Prim.Native.Nat.{bit_and}
use systems_programming.Prelude.{
  ap, ◌∙◌, ℕ, zero, suc, ◌+◌, ◌≤◌, ◌<◌, ◌≡◌, ◌≢◌, refl, Bool, true, false, not, ◌&&◌, ◌||◌, ◌==◌,
  if◌then◌else◌, ltb, arith, Bool-cases, inl, inr,
}
use systems_programming.Kernel.State.{
  Hardware, Kernel, Owner, reserved, kernel_owned, pid_owner, owner_eq, po_free, is_free, free,
  ProcState, int8_above,
}
use systems_programming.Kernel.Ownership.{Physical}
use systems_programming.Kernel.Invariant.{Orderly}

-- for (i = lo; i < lo + n; ++i) assert(p(i));
unfoldable pub all_from : (ℕ → Bool) → ℕ → ℕ → Bool
all_from p zero i = true
all_from p (suc n) i = p i && all_from p n (i + 1)

pub all_from-true :
    (p : ℕ → Bool) (n i : ℕ) → ((j : ℕ) → i ≤ j → j < i + n → p j ≡ true) → all_from p n i ≡ true
unfolding all_from
all_from-true p zero i h = refl
all_from-true p (suc n) i h =
    rw (h i (omega arith) (omega arith))
      (all_from-true p n (i + 1) (λ j lo hi. h j (omega arith) (omega arith)))

-- An `int8_t` count compared with a small number.
abbrev pub int8_is : ℕ → ℕ → Bool
int8_is c n = n == c && ltb n 128

module _ {Memory : Type 0} (hw : Hardware Memory) where
  abbrev pub uses_kernel_table : Kernel Memory → ℕ → Bool
  uses_kernel_table k pid =
      not (is_free (k.processes pid).state) && (k.processes pid).pagetable == hw.kernel_pagetable

  -- `expected_kernel_refcount`, counted up from `expected`
  unfoldable pub count_kernel_refs : ℕ → ℕ → ℕ → Kernel Memory → ℕ
  count_kernel_refs zero pid expected k = expected
  count_kernel_refs (suc left) pid expected k =
      count_kernel_refs left (pid + 1) (if uses_kernel_table k pid then expected + 1 else expected)
        k

  unfoldable pub check_page : Owner → ℕ → ℕ → Kernel Memory → Bool
  check_page owner refcount pn k =
      ltb pn hw.npages
      && owner_eq (k.pageinfo pn).owner owner
      && int8_is refcount (k.pageinfo pn).refcount

  unfoldable pub check_entry : Owner → ℕ → Kernel Memory → ℕ → Bool
  check_entry owner pagetable k pn =
      let pte = hw.load_entry k.memory pagetable pn in
      bit_and pte hw.pte_p == 0 || check_page owner 1 (hw.page_number pte) k

  unfoldable pub check_table : Owner → ℕ → ℕ → Kernel Memory → Bool
  check_table owner refcount pagetable k =
      hw.pte_addr pagetable == pagetable
      && check_page owner refcount (hw.page_number pagetable) k
      && all_from (check_entry owner pagetable k) hw.pagetable_entries 0

  unfoldable pub check_process : ℕ → Kernel Memory → ℕ → Bool
  check_process kernel_refs k pid =
      if is_free (k.processes pid).state
      then true
      else if (k.processes pid).pagetable == hw.kernel_pagetable
      then check_table kernel_owned kernel_refs hw.kernel_pagetable k
      else check_table (pid_owner pid) 1 (k.processes pid).pagetable k

  -- `pageinfo[pn].owner >= 0` and the state of that process
  unfoldable pub check_owner : Kernel Memory → Owner → Bool
  check_owner k reserved = true
  check_owner k kernel_owned = true
  check_owner k (pid_owner q) = not (is_free (k.processes q).state)

  unfoldable pub check_referenced : Kernel Memory → ℕ → Bool
  check_referenced k pn =
      if int8_above 0 (k.pageinfo pn).refcount then check_owner k (k.pageinfo pn).owner else true

  unfoldable pub check_owners : Kernel Memory → Bool
  check_owners k = all_from (check_referenced k) (hw.page_number hw.memsize_physical) 0

  unfoldable pub virtual_memory_check : Kernel Memory → Bool
  virtual_memory_check k =
      let refs = count_kernel_refs hw.nproc 0 1 k in
      is_free (k.processes 0).state
      && check_table kernel_owned refs hw.kernel_pagetable k
      && all_from (check_process refs k) hw.nproc 0
      && check_owners k

  is_free-ne : (s : ProcState) → s ≢ free → is_free s ≡ false
  is_free-ne free ne = absurd (ne refl)
  is_free-ne ProcState.runnable ne = refl
  is_free-ne ProcState.blocked ne = refl
  is_free-ne ProcState.broken ne = refl

  check_owner-used :
      (k : Kernel Memory) (o : Owner)
      → ((q : ℕ) → o ≡ pid_owner q → (k.processes q).state ≢ free)
      → check_owner k o ≡ true
  unfolding check_owner
  check_owner-used k reserved h = refl
  check_owner-used k kernel_owned h = refl
  check_owner-used k (pid_owner q) h = rw (is_free-ne (k.processes q).state (h q refl)) refl

  -- In an orderly table, where a page that nobody owns has no reference, the last loop of
  -- `virtual_memory_check`, that every referenced page belongs to an active process, passes.
  pub check_owners-Orderly :
      (k : Kernel Memory)
      → Orderly hw k
      → ((j : ℕ)
          → Physical hw j
          → (k.pageinfo j).owner ≡ po_free
          → int8_above 0 (k.pageinfo j).refcount ≡ false)
      → check_owners k ≡ true
  unfolding check_owners check_referenced
  check_owners-Orderly k o unused = all_from-true _ _ 0 λ j lo hi.
      elim (Bool-cases (int8_above 0 (k.pageinfo j).refcount)) [
        | inr e ↦ rw e refl
        | inl e ↦ rw e (
            check_owner-used k (k.pageinfo j).owner λ q own f.
              o.owners j q (omega arith) own
                (λ z. ground (arith, e, unused j (omega arith) (own ∙ ap pid_owner z))) f)
      ]
