-- ===== src/M61/Sorting.antt =====
-- Assign1/m61.c, `sortheavyhitters`: its two loops sort.
use systems_programming.Prelude.{
  ℕ, zero, suc, ◌+◌, ◌%◌, ◌^◌, ◌≤◌, ◌≡◌, refl, sym, ap, Bool, true, false, List, [], ◌∷◌,
  if◌then◌else◌, arith, inl, inr, length,
}
use mathlib.Core.List.{Mem, Perm, not-mem-nil, eq-or-mem_of_mem-cons}
use mathlib.Core.List.Perm
use mathlib.Core.Logic.{∥∥₁_elim}
use native.Mathlib.Bridge.{le_prop}
use mathlib.Core.Path.{subst}
use systems_programming.M61.State.{Hitter}
use systems_programming.M61.Hitters.{less_total, sort_pass, sort_from, sortheavyhitters}

-- The place of a total in the order of signed numbers.
abbrev rank : Hitter → ℕ
rank h = (h.total_pload_size + 2 ^ 63) % 2 ^ 64

abbrev pub Heads : Hitter → List Hitter → Type 0
Heads x l = (h : Hitter) → Mem h l → rank h ≤ rank x

-- No element is followed by one with a larger total.
abbrev pub Descends : List Hitter → Type 0
Descends [] = Unit {0}
Descends (x ∷ xs) = Heads x xs × Descends xs

pub Heads-cons : (x y : Hitter) (l : List Hitter) → rank y ≤ rank x → Heads x l → Heads x (y ∷ l)
Heads-cons x y l le hs h mem =
    ∥∥₁_elim (eq-or-mem_of_mem-cons mem) le_prop
      (λ o. elim o [ inl e ↦ subst (λ z. rank z ≤ rank x) (sym e) le | inr rest ↦ hs h rest ])

rank-le : (x y : Hitter) → less_total x y ≡ true → rank x ≤ rank y
rank-le x y e = ground (arith, e)

rank-ge : (x y : Hitter) → less_total x y ≡ false → rank y ≤ rank x
rank-ge x y e = ground (arith, e)

-- What one pass of the inner loop leaves.
record Passed (x : Hitter) (ys : List Hitter) (out : Hitter × List Hitter) : Type 0 where
  perm : Perm (x ∷ ys) (out.0 ∷ out.1)
  least : rank x ≤ rank out.0
  heads : Heads out.0 out.1

Passed-cons :
    (x y : Hitter) (ys : List Hitter) (out : Hitter × List Hitter) (b : Bool)
    → less_total x y ≡ b
    → Passed (if b then y else x) ys out
    → Passed x (y ∷ ys) (out.0, (if b then x else y) ∷ out.1)
Passed-cons x y ys out true e p = record {
  perm = Perm.trans (Perm.cons x p.perm) (Perm.swap out.0 x out.1);
  least = omega (arith, rank-le x y e, p.least);
  heads = Heads-cons out.0 x out.1 (omega (arith, rank-le x y e, p.least)) p.heads;
}
Passed-cons x y ys out false e p = record {
  perm = Perm.trans (Perm.swap y x ys) (Perm.trans (Perm.cons y p.perm) (Perm.swap out.0 y out.1));
  least = p.least;
  heads = Heads-cons out.0 y out.1 (omega (arith, rank-ge x y e, p.least)) p.heads;
}

sort_pass-Passed : (x : Hitter) (ys : List Hitter) → Passed x ys (sort_pass x ys)
unfolding sort_pass
sort_pass-Passed x [] = record {
  perm = Perm.refl (x ∷ []);
  least = omega arith;
  heads = λ h mem. absurd (not-mem-nil mem);
}
sort_pass-Passed x (y ∷ ys) =
    Passed-cons x y ys (sort_pass (if less_total x y then y else x) ys) (less_total x y) refl
      (sort_pass-Passed (if less_total x y then y else x) ys)

length-sort_pass : (x : Hitter) (ys : List Hitter) → length (sort_pass x ys).1 ≡ length ys
unfolding sort_pass
length-sort_pass x [] = refl
length-sort_pass x (y ∷ ys) = ap suc (length-sort_pass (if less_total x y then y else x) ys)

pub Heads-Perm : (x : Hitter) (l l' : List Hitter) → Perm l' l → Heads x l → Heads x l'
Heads-Perm x l l' p hs h mem = hs h (Perm.subset p h mem)

sort_from-Perm : (n : ℕ) (hs : List Hitter) → Perm hs (sort_from n hs)
unfolding sort_from
sort_from-Perm zero hs = Perm.refl hs
sort_from-Perm (suc n) [] = Perm.refl []
sort_from-Perm (suc n) (x ∷ xs) =
    let out = sort_pass x xs in
    Perm.trans (sort_pass-Passed x xs).perm (Perm.cons out.0 (sort_from-Perm n out.1))

sort_from-Descends : (n : ℕ) (hs : List Hitter) → length hs ≤ n → Descends (sort_from n hs)
unfolding sort_from
sort_from-Descends zero [] le = tt
sort_from-Descends zero (x ∷ xs) le = absurd (omega (arith, le))
sort_from-Descends (suc n) [] le = tt
sort_from-Descends (suc n) (x ∷ xs) le =
    let out = sort_pass x xs in
    (
      Heads-Perm out.0 out.1 (sort_from n out.1) (Perm.symm (sort_from-Perm n out.1))
          (sort_pass-Passed x xs).heads,
      sort_from-Descends n out.1 (omega (arith, length-sort_pass x xs, le)),
    )

-- Sorting a tracking array puts its elements in the order of their totals, the largest first, and
-- loses and adds none.
pub sortheavyhitters-Descends :
    (hs : List Hitter) → Descends (sortheavyhitters hs) × Perm hs (sortheavyhitters hs)
unfolding sortheavyhitters
sortheavyhitters-Descends hs =
    (sort_from-Descends (length hs) hs (omega arith), sort_from-Perm (length hs) hs)
