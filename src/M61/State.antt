-- ===== src/M61/State.antt =====
-- Assign1/m61.c and m61.h: the data of the debugging allocator. An address is a number, 0 is NULL.
-- The metadata headers are a store of their own, and so are the boundary words, since the blocks
-- that malloc returns do not overlap. A file name is numbered by its contents.
use systems_programming.Prelude.{ℕ, ◌-◌, ◌^◌, Option, List, update}

-- `struct m61_statistics`
pub record Stats : Type 0 where
  pub nactive : ℕ
  pub active_size : ℕ
  pub ntotal : ℕ
  pub total_size : ℕ
  pub nfail : ℕ
  pub fail_size : ℕ
  pub heap_min : ℕ
  pub heap_max : ℕ

-- `m61_mdata`; it takes 40 bytes.
pub record Meta : Type 0 where
  pub payload_size : ℕ
  pub line_num : ℕ
  pub filename : ℕ
  pub prev_addr : ℕ
  pub next_addr : ℕ
  pub payload_addr : ℕ

abbrev pub meta_size : ℕ
meta_size = 40

-- `m61_hhitter`; `total_pload_size` is the bit pattern of a 64-bit number.
pub record Hitter : Type 0 where
  pub total_pload_size : ℕ
  pub line_num : ℕ
  pub filename : Option ℕ

-- A tracking array with its negative bias, the bit pattern of an int.
pub record Tracked : Type 0 where
  pub hitters : List Hitter
  pub neg_bias : ℕ

-- The globals of m61.c, with the headers and the boundary words in memory.
pub record Heap : Type 0 where
  pub gstats : Stats
  pub heavy_alloc : Tracked
  pub heavy_freq : Tracked
  pub first_alloc : ℕ
  pub curr_alloc : ℕ
  pub headers : ℕ → Meta
  pub words : ℕ → ℕ

abbrev pub size_max : ℕ
size_max = 2 ^ 64 - 1

abbrev pub set_next : (ℕ → Meta) → ℕ → ℕ → ℕ → Meta
set_next h a v = update h a (record (h a) { next_addr = v })

abbrev pub set_prev : (ℕ → Meta) → ℕ → ℕ → ℕ → Meta
set_prev h a v = update h a (record (h a) { prev_addr = v })
