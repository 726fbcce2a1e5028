-- ===== src/Io61/ReadBuf.antt =====
-- Assign2/io61.c: the offsets of the read buffer.
use systems_programming.Prelude.{
  ℕ, zero, suc, ◌+◌, ◌<◌, ◌%◌, ◌^◌, ◌≡◌, ◌≢◌, ◌⊎◌, refl, sym, ap, ◌∙◌, true, ◌==◌, add64,
  sign_extend, signed_leb, arith, inl, inr,
}
use mathlib.Core.Path.{subst, ap₂}
use systems_programming.Io61.State.{CacheBuf}
use systems_programming.Io61.Read.{refilled, is_spent}

-- `n` bytes of the buffer are left, of a file that ends below 2^31.
abbrev pub Holds : CacheBuf → ℕ → Type 0
Holds b n =
    (b.fileoffsetmin + b.localoffset + n < 2 ^ 31)
    × (((n ≡ 0) × (is_spent b ≡ true))
        ⊎ ((n ≢ 0) × (b.fileoffsetmax ≡ b.fileoffsetmin + b.localoffset + n)))

-- A buffer without a byte left is spent, and one with some is not.
pub Holds-is_spent : (b : CacheBuf) (n : ℕ) → Holds b n → is_spent b ≡ (n == 0)
unfolding is_spent
Holds-is_spent b n (small, inl (z, e)) = e ∙ ground (arith, z)
Holds-is_spent b n (small, inr (nz, e)) = ground (arith, e)

-- After a byte is taken.
pub Holds-advance :
    (b : CacheBuf) (n : ℕ)
    → Holds b (suc n)
    → Holds (record b { localoffset = add64 b.localoffset 1 }) n
unfolding is_spent
Holds-advance b zero (small, inr (nz, e)) = (omega arith, inl (refl, ground (arith, e)))
Holds-advance b (suc n) (small, inr (nz, e)) = (omega arith, inr (omega arith, omega arith))
Holds-advance b n (small, inl (z, e)) = absurd (omega (arith, z))

plain_add : (a b : ℕ) → a + b < 2 ^ 31 → add64 (sign_extend a) b % 2 ^ 32 ≡ a + b
plain_add a b h = ground (arith, h)

-- The buffer after a chunk of `k` bytes is read.
module _ (b : CacheBuf) (k : ℕ) (small : b.fileoffsetmin + b.localoffset + k < 2 ^ 31) where
  pub refilled_plain : refilled k b ≡ record b {
    fileoffsetmin = b.fileoffsetmin + b.localoffset;
    fileoffsetmax = b.fileoffsetmin + b.localoffset + k;
    localoffset = 0;
  }
  unfolding refilled
  refilled_plain =
      ap₂ (λ low high. record b { fileoffsetmin = low; fileoffsetmax = high; localoffset = 0 }) low
        (ap (λ x. add64 (sign_extend x) k % 2 ^ 32) low
          ∙ plain_add (b.fileoffsetmin + b.localoffset) k small)
    where
      low :
          add64 (sign_extend b.fileoffsetmin) b.localoffset % 2 ^ 32
          ≡ b.fileoffsetmin + b.localoffset
      low = plain_add b.fileoffsetmin b.localoffset (omega (arith, small))

  pub Holds-refilled : Holds (refilled k b) k
  unfolding is_spent
  Holds-refilled = subst (λ c. Holds c k) (sym refilled_plain) (omega (arith, small), left k refl)
    where
      left :
          (n : ℕ)
          → k ≡ n
          → ((k ≡ 0)
              × (signed_leb
                    (sign_extend (b.fileoffsetmin + b.localoffset + k))
                    (add64 (sign_extend (b.fileoffsetmin + b.localoffset)) 0)
                  ≡ true))
            ⊎ ((k ≢ 0)
                × (b.fileoffsetmin + b.localoffset + k ≡ b.fileoffsetmin + b.localoffset + 0 + k))
      left zero e = inl (e, ground (arith, e, small))
      left (suc n) e = inr (omega (arith, e), omega arith)
