-- ===== src/M61/Report.antt =====
-- Assign1/m61.c, m61_getstatistics and m61_printheavyhitters: what is printed, as lists of elements.
-- The comparison of a percentage, which is computed in floats, is a parameter.
use systems_programming.Prelude.{
  ℕ, ◌≡◌, refl, sym, ap, ◌∙◌, Bool, true, false, List, [], ◌∷◌, if◌then◌else◌, Bool-cases, inl, inr,
  arith,
}
use mathlib.Core.Path.{subst}
use mathlib.Core.Logic.{∥∥₁_elim}
use mathlib.Core.List.{
  Mem, Mem-prop, Perm, mem-cons_self, not-mem-nil, mem-cons_of_mem, eq-or-mem_of_mem-cons,
}
use mathlib.Core.List.Perm
use systems_programming.M61.State.{Stats, Hitter, Heap}
use systems_programming.M61.Hitters.{sortheavyhitters}
use systems_programming.M61.Sorting.{
  Heads, Heads-cons, Heads-Perm, Descends, sortheavyhitters-Descends,
}

unfoldable pub m61_getstatistics : Heap → Stats
m61_getstatistics h = h.gstats

-- `above part total limit`: ((float) part / total) * 100 > limit
module _ (above : ℕ → ℕ → ℕ → Bool) where
  -- The elements of more than 10% of the total.
  unfoldable pub heavy_lines : ℕ → List Hitter → List Hitter
  heavy_lines total [] = []
  heavy_lines total (h ∷ hs) =
      let rest = heavy_lines total hs in
      if above h.total_pload_size total 10 then h ∷ rest else rest

  -- The lines for a sorted array, if its largest element has more than 20%.
  unfoldable pub heavy_report : ℕ → List Hitter → List Hitter
  heavy_report total [] = []
  heavy_report total (h ∷ hs) =
      if above h.total_pload_size total 20 then heavy_lines total (h ∷ hs) else []

  -- The lines on bytes, those on frequency, and the heap with both arrays sorted.
  unfoldable pub m61_printheavyhitters : Heap → List Hitter × List Hitter × Heap
  m61_printheavyhitters heap =
      let bytes = sortheavyhitters heap.heavy_alloc.hitters in
      let counts = sortheavyhitters heap.heavy_freq.hitters in
      (
        heavy_report heap.gstats.total_size bytes,
        heavy_report heap.gstats.ntotal counts,
        record heap {
          heavy_alloc = record heap.heavy_alloc { hitters = bytes };
          heavy_freq = record heap.heavy_freq { hitters = counts };
        },
      )

  heavy_lines-Mem :
      (total : ℕ) (h : Hitter) (hs : List Hitter) → Mem h (heavy_lines total hs) → Mem h hs
  unfolding heavy_lines
  heavy_lines-Mem total h [] m = m
  heavy_lines-Mem total h (x ∷ xs) m =
      go (above x.total_pload_size total 10) (λ r. mem-cons_of_mem x (heavy_lines-Mem total h xs r))
        m
    where
      go :
          (b : Bool)
          → (Mem h (heavy_lines total xs) → Mem h (x ∷ xs))
          → Mem h (if b then x ∷ heavy_lines total xs else heavy_lines total xs)
          → Mem h (x ∷ xs)
      go true rest n = ∥∥₁_elim (eq-or-mem_of_mem-cons n) Mem-prop (λ o. elim o [
        | inl e ↦ subst (λ z. Mem z (x ∷ xs)) (sym e) mem-cons_self
        | inr r ↦ rest r
      ])
      go false rest n = rest n

  Mem-heavy_lines :
      (total : ℕ) (h : Hitter) (hs : List Hitter)
      → Mem h hs
      → above h.total_pload_size total 10 ≡ true
      → Mem h (heavy_lines total hs)
  unfolding heavy_lines
  Mem-heavy_lines total h [] m e = m
  Mem-heavy_lines total h (x ∷ xs) m e = ∥∥₁_elim (eq-or-mem_of_mem-cons m) Mem-prop (λ o. elim o [
    | inl at ↦
        let passes : above x.total_pload_size total 10 ≡ true =
          ap (λ z. above (total_of z) total 10) (sym at) ∙ e in
        rw (passes, heavy_lines)
          (subst (λ z. Mem z (x ∷ heavy_lines total xs)) (sym at) mem-cons_self)
    | inr r ↦ go (above x.total_pload_size total 10) (Mem-heavy_lines total h xs r e)
  ])
    where
      total_of : Hitter → ℕ
      total_of z = z.total_pload_size

      go :
          (b : Bool)
          → Mem h (heavy_lines total xs)
          → Mem h (if b then x ∷ heavy_lines total xs else heavy_lines total xs)
      go true r = mem-cons_of_mem x r
      go false r = r

  heavy_lines-Descends :
      (total : ℕ) (hs : List Hitter) → Descends hs → Descends (heavy_lines total hs)
  unfolding heavy_lines
  heavy_lines-Descends total [] d = d
  heavy_lines-Descends total (x ∷ xs) (heads, d) =
      go (above x.total_pload_size total 10) (heavy_lines-Descends total xs d)
    where
      go :
          (b : Bool)
          → Descends (heavy_lines total xs)
          → Descends (if b then x ∷ heavy_lines total xs else heavy_lines total xs)
      go true r = ((λ h m. heads h (heavy_lines-Mem total h xs m)), r)
      go false r = r

  -- Every element has more than 10%.
  abbrev pub AllHeavy : ℕ → List Hitter → Type 0
  AllHeavy total [] = Unit {0}
  AllHeavy total (h ∷ hs) = (above h.total_pload_size total 10 ≡ true) × AllHeavy total hs

  heavy_lines-AllHeavy : (total : ℕ) (hs : List Hitter) → AllHeavy total (heavy_lines total hs)
  unfolding heavy_lines
  heavy_lines-AllHeavy total [] = tt
  heavy_lines-AllHeavy total (x ∷ xs) = elim (Bool-cases (above x.total_pload_size total 10)) [
    | inl t ↦ rw (t, heavy_lines) (t, heavy_lines-AllHeavy total xs)
    | inr f ↦ rw (f, heavy_lines) (heavy_lines-AllHeavy total xs)
  ]

  -- With `top` the largest element: if it has more than 20%, every element of more than 10% is printed,
  -- and nothing otherwise.
  pub record Largest (total : ℕ) (hitters printed : List Hitter) : Type 0 where
    pub top : Hitter
    pub in_array : Mem top hitters
    pub largest : Heads top hitters
    pub complete :
        above top.total_pload_size total 20 ≡ true
        → (h : Hitter) → Mem h hitters
        → above h.total_pload_size total 10 ≡ true
        → Mem h printed
    pub nothing : above top.total_pload_size total 20 ≡ false → printed ≡ []

  -- What is printed of an array: elements of it, each of more than 10%, the largest first.
  pub record Printed (total : ℕ) (hitters printed : List Hitter) : Type 0 where
    pub from_array : (h : Hitter) → Mem h printed → Mem h hitters
    pub heavy : AllHeavy total printed
    pub descends : Descends printed
    pub has_largest : (x : Hitter) → Mem x hitters → Largest total hitters printed

  -- The report of a sorted array.
  sorted-Printed :
      (total : ℕ) (hitters sorted : List Hitter)
      → Perm hitters sorted
      → Descends sorted
      → Printed total hitters (heavy_report total sorted)
  unfolding heavy_report
  sorted-Printed total hitters [] p d = record {
    from_array = λ h m. absurd (not-mem-nil m);
    heavy = tt;
    descends = tt;
    has_largest = λ x m. absurd (not-mem-nil (Perm.subset p x m));
  }
  sorted-Printed total hitters (t ∷ ts) p d =
      elim (Bool-cases (above t.total_pload_size total 20)) [
        | inl more ↦
            rw (more, heavy_report)
              (record {
                from_array =
                    λ h m. Perm.subset (Perm.symm p) h (heavy_lines-Mem total h (t ∷ ts) m);
                heavy = heavy_lines-AllHeavy total (t ∷ ts);
                descends = heavy_lines-Descends total (t ∷ ts) d;
                has_largest = λ x m. record {
                  top = t;
                  in_array = Perm.subset (Perm.symm p) t mem-cons_self;
                  largest = Heads-Perm t (t ∷ ts) hitters p (Heads-cons t t ts (omega arith) d.0);
                  complete =
                      λ e h n heavy. Mem-heavy_lines total h (t ∷ ts) (Perm.subset p h n) heavy;
                  nothing = λ e. absurd (ground (arith, e, more));
                };
              })
        | inr less ↦
            rw (less, heavy_report)
              (record {
                from_array = λ h m. absurd (not-mem-nil m);
                heavy = tt;
                descends = tt;
                has_largest = λ x m. record {
                  top = t;
                  in_array = Perm.subset (Perm.symm p) t mem-cons_self;
                  largest = Heads-Perm t (t ∷ ts) hitters p (Heads-cons t t ts (omega arith) d.0);
                  complete = λ e. absurd (ground (arith, e, less));
                  nothing = λ e. refl;
                };
              })
      ]

  -- What m61_printheavyhitters comes to for one of the arrays.
  abbrev pub SortedPrinted : ℕ → List Hitter → List Hitter → List Hitter → Type 0
  SortedPrinted total hitters printed after =
      Printed total hitters printed × Descends after × Perm hitters after

  -- m61_printheavyhitters prints of each tracking array elements of more than 10% of the total alone,
  -- the largest first; all of them if the largest element of the array has more than 20%, and none
  -- otherwise; and it leaves both arrays sorted, with the elements of before.
  pub m61_printheavyhitters-SortedPrinted :
      (heap : Heap)
      → let (bytes, counts, after) = m61_printheavyhitters heap in
        SortedPrinted heap.gstats.total_size heap.heavy_alloc.hitters bytes
          after.heavy_alloc.hitters
        × SortedPrinted heap.gstats.ntotal heap.heavy_freq.hitters counts after.heavy_freq.hitters
  unfolding m61_printheavyhitters
  m61_printheavyhitters-SortedPrinted heap =
      let (da, pa) = sortheavyhitters-Descends heap.heavy_alloc.hitters in
      let (df, pf) = sortheavyhitters-Descends heap.heavy_freq.hitters in
      (
        (
          sorted-Printed heap.gstats.total_size heap.heavy_alloc.hitters
              (sortheavyhitters heap.heavy_alloc.hitters) pa da,
          da,
          pa,
        ),
        (
          sorted-Printed heap.gstats.ntotal heap.heavy_freq.hitters
              (sortheavyhitters heap.heavy_freq.hitters) pf df,
          df,
          pf,
        ),
      )
