-- ===== src/Kernel/ForkFrame.antt =====
-- Assign4/kernel.c, `fork_process`: what the copying leaves alone on its way.
use mathlib.Core.Path.{subst}
use native.Mathlib.Decide.{ℕ_discrete}
use systems_programming.Prelude.{
  ℕ, zero, suc, ◌+◌, ◌≡◌, refl, sym, ◌∙◌, ◌⊎◌, Option, none, some, inl, inr, ltb, arith, Bool-cases,
  Option-cases, update,
}
use systems_programming.Kernel.State.{Hardware, Kernel, pid_owner, po_free, PageInfo, is_writable}
use systems_programming.Kernel.Pages.{alloc_free_page, copy_pagetable}
use systems_programming.Kernel.Alloc.{AddressLaws, alloc_free_page-Allocated}
use systems_programming.Kernel.Ownership.{owner_eq→eq}
use systems_programming.Kernel.Fork.{
  Copying, copied, no_memory, bad_page, and_then, copy_page, share_page, fork_page, fork_pages,
}

-- A page keeps its owner, or goes from nobody to the child.
abbrev pub Claims : ℕ → PageInfo → PageInfo → Type 0
Claims child a b = (b.owner ≡ a.owner) ⊎ ((a.owner ≡ po_free) × (b.owner ≡ pid_owner child))

pub Claims-trans :
    (child : ℕ) (a b c : PageInfo) → Claims child a b → Claims child b c → Claims child a c
Claims-trans child a b c (inl e) (inl f) = inl (f ∙ e)
Claims-trans child a b c (inl e) (inr f) = inr (sym e ∙ f.0, f.1)
Claims-trans child a b c (inr e) (inl f) = inr (e.0, f ∙ e.1)
Claims-trans child a b c (inr e) (inr f) = inr (e.0, f.1)

update-Claims :
    (child : ℕ) (f : ℕ → PageInfo) (i : ℕ) (v : PageInfo) (j : ℕ)
    → Claims child (f i) v
    → Claims child (f j) (update f i v j)
update-Claims child f i v j c = elim (ℕ_discrete i j) [
  | yes e ↦ ground (arith, subst (λ n. Claims child (f n) v) e c)
  | no ne ↦ ground arith
]

module _ {Memory : Type 0} where
  -- The processes and the current one stay, and pages are only claimed for the child.
  pub record Extends (child : ℕ) (k k' : Kernel Memory) : Type 0 where
    pub same_processes : k'.processes ≡ k.processes
    pub same_current : k'.current ≡ k.current
    pub claims : (j : ℕ) → Claims child (k.pageinfo j) (k'.pageinfo j)

  pub Extends-refl : (child : ℕ) (k : Kernel Memory) → Extends child k k
  Extends-refl child k = record {
    same_processes = refl;
    same_current = refl;
    claims = λ j. inl refl;
  }

  pub Extends-trans :
      (child : ℕ) {k k1 k2 : Kernel Memory}
      → Extends child k k1
      → Extends child k1 k2
      → Extends child k k2
  Extends-trans child {k} {k1} {k2} e f = record {
    same_processes = f.same_processes ∙ e.same_processes;
    same_current = f.same_current ∙ e.same_current;
    claims = λ j.
        Claims-trans child (k.pageinfo j) (k1.pageinfo j) (k2.pageinfo j) (e.claims j) (f.claims j);
  }

module _ {Memory : Type 0} (hw : Hardware Memory) (laws : AddressLaws hw) where
  pub alloc_free_page-Extends :
      (child : ℕ) (k : Kernel Memory) {addr : ℕ} {k' : Kernel Memory}
      → alloc_free_page hw k (pid_owner child) ≡ some (addr, k')
      → Extends child k k'
  alloc_free_page-Extends child k {addr} {k'} h =
      let a = alloc_free_page-Allocated hw k (pid_owner child) laws h in
      let free_owner : (k.pageinfo a.page).owner ≡ po_free =
        owner_eq→eq (k.pageinfo a.page).owner po_free (ground (arith, a.was_free)) in
      rw a.result (record {
        same_processes = refl;
        same_current = refl;
        claims = λ j. update-Claims child k.pageinfo a.page _ j (inr (free_owner, refl));
      })

  pub copy_pagetable-Extends :
      (child : ℕ) (k : Kernel Memory) (table : ℕ)
      → Extends child k (copy_pagetable hw k table (pid_owner child)).1
  unfolding copy_pagetable
  copy_pagetable-Extends child k table =
      elim (Option-cases (alloc_free_page hw k (pid_owner child))) [
        | inl e ↦ rw (e, copy_pagetable) (Extends-refl child k)
        | inr ((l1, k1), e) ↦
            let x1 = alloc_free_page-Extends child k e in
            elim (Option-cases (alloc_free_page hw k1 (pid_owner child))) [
              | inl e2 ↦ rw (e, e2, copy_pagetable) x1
              | inr ((l2, k2), e2) ↦
                  let x2 = Extends-trans child x1 (alloc_free_page-Extends child k1 e2) in
                  rw (e, e2, copy_pagetable)
                    (record {
                      same_processes = x2.same_processes;
                      same_current = x2.same_current;
                      claims = x2.claims;
                    })
            ]
      ]

  -- What the copying says of the state that it leaves.
  abbrev pub After : ℕ → Kernel Memory → Copying Memory → Type 0
  After child k (copied k') = Extends child k k'
  After child k (no_memory k') = Extends child k k'
  After child k bad_page = Unit

  copy_page-After :
      (child va pa perm : ℕ) (k : Kernel Memory) → After child k (copy_page hw child va pa perm k)
  unfolding copy_page
  copy_page-After child va pa perm k =
      elim (Option-cases (alloc_free_page hw k (pid_owner child))) [
        | inl e ↦ rw (e, copy_page) (Extends-refl child k)
        | inr ((page, k1), e) ↦
            let x = alloc_free_page-Extends child k e in
            rw (e, copy_page)
              (record {
                same_processes = x.same_processes;
                same_current = x.same_current;
                claims = x.claims;
              })
      ]

  share_page-After :
      (child va pa perm : ℕ) (pn : Option ℕ) (k : Kernel Memory)
      → After child k (share_page hw child va pa perm pn k)
  unfolding share_page
  share_page-After child va pa perm none k = tt
  share_page-After child va pa perm (some pn) k =
      elim (Bool-cases (ltb pn (hw.page_number hw.memsize_physical))) [
        | inl e ↦
            rw (e, share_page)
              (record {
                same_processes = refl;
                same_current = refl;
                claims = λ j. update-Claims child k.pageinfo pn _ j (inl refl);
              })
        | inr e ↦ rw (e, share_page) tt
      ]

  fork_page-After : (child va : ℕ) (k : Kernel Memory) → After child k (fork_page hw child va k)
  unfolding fork_page
  fork_page-After child va k =
      let vam = hw.lookup k.memory (k.processes k.current).pagetable va in
      elim (Bool-cases (is_writable hw.pte_w vam.perm)) [
        | inl e ↦ rw (e, fork_page) (copy_page-After child va vam.pa vam.perm k)
        | inr e ↦ rw (e, fork_page) (share_page-After child va vam.pa vam.perm vam.pn k)
      ]

  After-trans :
      (child : ℕ) {k k1 : Kernel Memory} (c : Copying Memory)
      → Extends child k k1
      → After child k1 c
      → After child k c
  After-trans child (copied k2) e f = Extends-trans child e f
  After-trans child (no_memory k2) e f = Extends-trans child e f
  After-trans child bad_page e f = tt

  After-and_then :
      (child : ℕ) (k : Kernel Memory) (c : Copying Memory) (next : Kernel Memory → Copying Memory)
      → After child k c
      → ((k' : Kernel Memory) → After child k' (next k'))
      → After child k (and_then c next)
  After-and_then child k (copied k1) next a rest = After-trans child (next k1) a (rest k1)
  After-and_then child k (no_memory k1) next a rest = a
  After-and_then child k bad_page next a rest = tt

  pub fork_pages-After :
      (left child va : ℕ) (k : Kernel Memory) → After child k (fork_pages hw left child va k)
  unfolding fork_pages
  fork_pages-After zero child va k = Extends-refl child k
  fork_pages-After (suc left) child va k =
      After-and_then child k (fork_page hw child va k) _ (fork_page-After child va k)
        (λ k'. fork_pages-After left child (va + hw.page_size) k')
