-- ===== src/Prelude/Search.antt =====
-- The loop `for (i = lo; i < lo + n; ++i) if (p(i)) return i;`, with its correctness.
use mathlib.Core.Path.{subst}
use native.Mathlib.Decide.{ℕ_discrete}
use systems_programming.Prelude.{
  ℕ, zero, suc, ◌+◌, ◌≤◌, ◌<◌, ◌≡◌, sym, Bool, true, false, Option, none, some, arith,
  if◌then◌else◌, Bool-cases, inl, inr,
}

unfoldable pub find_from : (ℕ → Bool) → ℕ → ℕ → Option ℕ
find_from p zero i = none
find_from p (suc n) i = let rest = find_from p n (i + 1) in if p i then some i else rest

-- What the loop returns: the first index that passes.
pub record IsFirst (p : ℕ → Bool) (lo hi j : ℕ) : Type 0 where
  pub lower : lo ≤ j
  pub upper : j < hi
  pub passes : p j ≡ true
  pub before : (k : ℕ) → lo ≤ k → k < j → p k ≡ false

IsFirst-here : (p : ℕ → Bool) (n i : ℕ) → p i ≡ true → IsFirst p i (i + suc n) i
IsFirst-here p n i h = record {
  lower = omega arith;
  upper = omega arith;
  passes = h;
  before = λ k lo hi. absurd (omega arith);
}

IsFirst-later :
    (p : ℕ → Bool) (n i j : ℕ)
    → p i ≡ false
    → IsFirst p (i + 1) (i + 1 + n) j
    → IsFirst p i (i + suc n) j
IsFirst-later p n i j h f = record {
  lower = omega arith;
  upper = omega arith;
  passes = f.passes;
  before = λ k lo hi. elim (ℕ_discrete k i) [
    | yes e ↦ subst (λ x. p x ≡ false) (sym e) h
    | no ne ↦ f.before k (omega arith) hi
  ];
}

pub find_from-some :
    (p : ℕ → Bool) (n i : ℕ) {j : ℕ} → find_from p n i ≡ some j → IsFirst p i (i + n) j
unfolding find_from
find_from-some p zero i h = absurd (ground arith)
find_from-some p (suc n) i {j} h = elim (Bool-cases (p i)) [
  | inl hit ↦
      let e : i ≡ j = ground arith in subst (IsFirst p i (i + suc n)) e (IsFirst-here p n i hit)
  | inr miss ↦ IsFirst-later p n i j miss (find_from-some p n (i + 1) (ground arith))
]

pub find_from-none :
    (p : ℕ → Bool) (n i : ℕ) → find_from p n i ≡ none → (k : ℕ) → i ≤ k → k < i + n → p k ≡ false
unfolding find_from
find_from-none p zero i h k lo hi = absurd (omega arith)
find_from-none p (suc n) i h k lo hi = elim (Bool-cases (p i)) [
  | inl hit ↦ absurd (ground arith)
  | inr miss ↦ elim (ℕ_discrete k i) [
    | yes e ↦ subst (λ x. p x ≡ false) (sym e) miss
    | no ne ↦ find_from-none p n (i + 1) (ground arith) k (omega arith) (omega arith)
  ]
]

-- A search that has something to find does not come back empty.
pub find_from-total :
    (p : ℕ → Bool) (n i k : ℕ)
    → i ≤ k
    → k < i + n
    → p k ≡ true
    → (j : ℕ) × (find_from p n i ≡ some j)
unfolding find_from
find_from-total p zero i k lo hi h = absurd (omega arith)
find_from-total p (suc n) i k lo hi h = elim (Bool-cases (p i)) [
  | inl hit ↦ (i, ground arith)
  | inr miss ↦ elim (ℕ_discrete k i) [
    | yes e ↦ absurd (ground (arith, subst (λ x. p x ≡ true) e h))
    | no ne ↦
        let r = find_from-total p n (i + 1) k (omega arith) (omega arith) h in
        (r.0, ground (arith, r.1))
  ]
]
