-- ===== src/M61/Sizes.antt =====
-- Assign1/m61.c, `m61_malloc`: whether the block holds what is written behind its header, which is
-- the payload and a boundary word of 8 bytes.
use systems_programming.Prelude.{ℕ, ◌+◌, ◌-◌, ◌^◌, ◌%◌, ◌<◌, ◌≤◌, ◌≡◌, ◌≢◌, ◌↔◌, arith}
use systems_programming.M61.State.{meta_size, size_max}
use systems_programming.M61.Malloc.{aligned_size, request}

-- For a size that is a multiple of 8, and leaves room for the header and the word, the block that
-- malloc is asked for holds header, payload and boundary word.
pub request-fits : (sz : ℕ) → sz % 8 ≡ 0 → sz + 48 < 2 ^ 64 → meta_size + sz + 8 ≤ request sz
unfolding aligned_size
request-fits sz e h = ground arith

-- For any other such size the boundary word reaches past the end of the block.
pub request-overflows : (sz : ℕ) → sz % 8 ≢ 0 → sz + 48 < 2 ^ 64 → request sz < meta_size + sz + 8
unfolding aligned_size
request-overflows sz e h = ground arith

-- The largest sizes that the guard lets through wrap around: malloc is asked for less than a header.
pub request-wraps :
    (sz : ℕ) → sz % 8 ≡ 0 → 2 ^ 64 ≤ sz + 48 → sz < size_max - meta_size → request sz < meta_size
unfolding aligned_size
request-wraps sz e lo hi = ground arith

-- For every size that the guard lets through, the requested block holds header, payload and boundary
-- word exactly if the size is a multiple of 8 and leaves room for the header and the word; where it is
-- a multiple and does not, malloc is asked for less than a header.
pub request-holds :
    (sz : ℕ)
    → sz < size_max - meta_size
    → (meta_size + sz + 8 ≤ request sz ↔ (sz % 8 ≡ 0) × (sz + 48 < 2 ^ 64))
      × (sz % 8 ≡ 0 → 2 ^ 64 ≤ sz + 48 → request sz < meta_size)
unfolding aligned_size
request-holds sz h = (
  (λ le. (ground arith, ground arith), λ e. request-fits sz e.0 e.1),
  λ e lo. request-wraps sz e lo h,
)
