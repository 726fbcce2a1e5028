-- ===== src/Kernel/Pageinfo.antt =====
-- Assign4/kernel.c, `pageinfo_init`: what it leaves in `pageinfo`.
use native.Mathlib.Nat.{div-eq_of_eq-mul_left, div-lt_iff_lt-mul}
use systems_programming.Prelude.{
  ℕ, zero, suc, ◌+◌, ◌-◌, ◌*◌, ◌/◌, ◌<◌, ◌≡◌, refl, ap, ◌∙◌, ◌&&◌, ltb, leb, arith, if◌then◌else◌,
  Bool-cases, inl, inr, update,
}
use mathlib.Core.Path.{subst}
use native.Mathlib.Decide.{ℕ_discrete}
use systems_programming.Kernel.State.{
  Hardware, Kernel, Owner, reserved, kernel_owned, pid_owner, po_free, PageInfo, set_page, owner_eq,
}
use systems_programming.Kernel.Ownership.{Physical}
use systems_programming.Kernel.Boot.{
  initial_owner, initial_page, init_pages, memory_rounds, pageinfo_init,
}

-- PAGENUMBER, as x86.h has it.
pub record PageLaws {Memory : Type 0} (hw : Hardware Memory) : Type 0 where
  pub number : (a : ℕ) → hw.page_number a ≡ a / hw.page_size
  pub positive : 0 < hw.page_size

-- The value at `i`, and then those behind it.
set-next :
    (f g : ℕ → PageInfo) (left i j : ℕ)
    → (if leb (i + 1) j && ltb j (i + 1 + left) then g j else update f i (g i) j)
      ≡ (if leb i j && ltb j (i + suc left) then g j else f j)
set-next f g left i j = elim (ℕ_discrete i j) [
  | yes e ↦
      subst
        (λ n.
          (if leb (i + 1) n && ltb n (i + 1 + left) then g n else update f i (g i) n)
          ≡ (if leb i n && ltb n (i + suc left) then g n else f n))
        e (ground arith)
  | no ne ↦ ground (arith, ne)
]

module _ {Memory : Type 0} (hw : Hardware Memory) where
  initial_page-lem :
      (o : Owner)
      → ((initial_page hw o).owner ≡ o)
        × ((initial_page hw o).refcount ≡ (if owner_eq o po_free then 0 else 1))
  unfolding initial_page
  initial_page-lem reserved = (refl, refl)
  initial_page-lem kernel_owned = (refl, refl)
  initial_page-lem (pid_owner q) = (refl, refl)

  -- No process owns a page at first.
  pub initial_owner-zero : (addr q : ℕ) → initial_owner hw addr ≡ pid_owner q → q ≡ 0
  unfolding initial_owner
  initial_owner-zero addr q h = ground arith

module _ {Memory : Type 0} (hw : Hardware Memory) (laws : PageLaws hw) where
  number_of_page : (i : ℕ) → hw.page_number (i * hw.page_size) ≡ i
  number_of_page i = laws.number (i * hw.page_size) ∙ div-eq_of_eq-mul_left laws.positive refl

  rounds_cover : (j : ℕ) → Physical hw j → j < memory_rounds hw
  unfolding memory_rounds
  rounds_cover j h =
      elim (Bool-cases (ltb j ((hw.memsize_physical + hw.page_size - 1) / hw.page_size))) [
        | inl e ↦ ground (arith, e)
        | inr e ↦
            let over =
              (div-lt_iff_lt-mul {x = hw.memsize_physical + hw.page_size - 1} {y = suc j}
                  laws.positive).0
                (ground (arith, e)) in
            let under : hw.memsize_physical / hw.page_size < suc j =
              (div-lt_iff_lt-mul {x = hw.memsize_physical} {y = suc j} laws.positive).1
                (omega (arith, over, laws.positive)) in
            absurd (omega (arith, under, h, laws.number hw.memsize_physical))
      ]

  -- One page after another is set, from page `i` on.
  init_pages-lem :
      (left i : ℕ) (k : Kernel Memory) (j : ℕ)
      → (init_pages hw left (i * hw.page_size) k).pageinfo j ≡ (
          if leb i j && ltb j (i + left)
          then initial_page hw (initial_owner hw (j * hw.page_size))
          else k.pageinfo j)
  unfolding init_pages
  init_pages-lem zero i k j = ground arith
  init_pages-lem (suc left) i k j =
      ap
        (λ a.
          (init_pages hw left a (
              set_page k (hw.page_number (i * hw.page_size))
                (initial_page hw (initial_owner hw (i * hw.page_size))))).pageinfo
            j)
        (omega arith)
      ∙ init_pages-lem left (i + 1)
          (set_page k (hw.page_number (i * hw.page_size))
            (initial_page hw (initial_owner hw (i * hw.page_size))))
          j
      ∙ rw (number_of_page i) (
          set-next k.pageinfo (λ n. initial_page hw (initial_owner hw (n * hw.page_size))) left i j)

  init_pages-processes :
      (left addr : ℕ) (k : Kernel Memory) → (init_pages hw left addr k).processes ≡ k.processes
  unfolding init_pages
  init_pages-processes zero addr k = refl
  init_pages-processes (suc left) addr k = init_pages-processes left (addr + hw.page_size) _

  -- pageinfo_init gives every page of physical memory its initial owner, whatever was there: reserved
  -- memory and the kernel's pages with one reference, and the others free with none.
  pub pageinfo_init-owner :
      (k : Kernel Memory) (j : ℕ)
      → Physical hw j
      → ((pageinfo_init hw k).pageinfo j).owner ≡ initial_owner hw (j * hw.page_size)
        × (((pageinfo_init hw k).pageinfo j).refcount
            ≡ (if owner_eq (initial_owner hw (j * hw.page_size)) po_free then 0 else 1))
  unfolding pageinfo_init
  pageinfo_init-owner k j h =
      let e : (pageinfo_init hw k).pageinfo j
          ≡ initial_page hw (initial_owner hw (j * hw.page_size)) =
        ap (λ a. (init_pages hw (memory_rounds hw) a k).pageinfo j) (omega arith)
        ∙ init_pages-lem (memory_rounds hw) 0 k j
        ∙ ground (arith, rounds_cover j h) in
      let (o, r) = initial_page-lem hw (initial_owner hw (j * hw.page_size)) in
      (ap (λ (x : PageInfo). x.owner) e ∙ o, ap (λ (x : PageInfo). x.refcount) e ∙ r)
