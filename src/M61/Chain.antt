-- ===== src/M61/Chain.antt =====
-- Assign1/m61.c: the links of the metadata headers.
use systems_programming.Prelude.{ℕ, List}
use systems_programming.Prelude.Links
use systems_programming.M61.State.{Meta}

abbrev pub prevs : (ℕ → Meta) → ℕ → ℕ
prevs hd a = (hd a).prev_addr

abbrev pub nexts : (ℕ → Meta) → ℕ → ℕ
nexts hd a = (hd a).next_addr

-- The headers link the addresses in order, and `p` stands in front.
abbrev pub Chain : (ℕ → Meta) → ℕ → List ℕ → Type 0
Chain hd p blocks = Links.Chain (prevs hd) (nexts hd) p blocks
