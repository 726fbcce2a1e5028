-- ===== src/Io61/Slices.antt =====
-- Assign2/io61.c: bytes in an array.
use systems_programming.Prelude.{
  ℕ, zero, suc, ◌+◌, ◌<◌, ◌≤◌, ◌%◌, ◌^◌, ◌≡◌, refl, ap, ◌∙◌, List, [], ◌∷◌, ◌++◌, update, length,
  arith,
}
use mathlib.Core.Path.{ap₂}
use systems_programming.Io61.State.{slice}
use systems_programming.Io61.Read.{fill}

pub slice-update :
    (f : ℕ → ℕ) (l v i n : ℕ) → i + n ≤ l → l < 2 ^ 64 → slice (update f l v) i n ≡ slice f i n
slice-update f l v i zero h k = refl
slice-update f l v i (suc n) h k =
    ap₂ ◌∷◌ (ground arith) (slice-update f l v (i + 1) n (omega arith) k)

pub slice-snoc :
    (f : ℕ → ℕ) (i n : ℕ) → slice f i (suc n) ≡ slice f i n ++ f ((i + n) % 2 ^ 64) ∷ []
slice-snoc f i zero = ap (λ x. f (x % 2 ^ 64) ∷ []) (omega arith)
slice-snoc f i (suc n) =
    ap (λ r. f (i % 2 ^ 64) ∷ r)
      (slice-snoc f (i + 1) n ∙ ap (λ x. slice f (i + 1) n ++ f (x % 2 ^ 64) ∷ []) (omega arith))

slice-shift :
    (f : ℕ → ℕ) (i n : ℕ) → i + n < 2 ^ 63 → slice f (i + 1) n ≡ slice (λ j. f (suc j)) i n
slice-shift f i zero h = refl
slice-shift f i (suc n) h =
    ap₂ ◌∷◌ (ap f (omega (arith, h))) (slice-shift f (i + 1) n (omega (arith, h)))

pub slice-fill :
    (bs : List ℕ) (f : ℕ → ℕ) → length bs < 2 ^ 63 → slice (fill bs f) 0 (length bs) ≡ bs
unfolding fill
slice-fill [] f h = refl
slice-fill (b ∷ bs) f h =
    ap (λ r. b ∷ r)
      (slice-shift (fill (b ∷ bs) f) 0 (length bs) (omega (arith, h))
        ∙ slice-fill bs (λ j. f (suc j)) (omega (arith, h)))

pub length-slice : (f : ℕ → ℕ) (i n : ℕ) → length (slice f i n) ≡ n
length-slice f i zero = refl
length-slice f i (suc n) = ap suc (length-slice f (i + 1) n)
