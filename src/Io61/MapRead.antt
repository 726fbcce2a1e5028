-- ===== src/Io61/MapRead.antt =====
-- Assign2/io61.c: reading and seeking in a mapped file.
use systems_programming.Prelude.{
  ℕ, zero, suc, ◌≤◌, ◌≡◌, refl, ap, ◌∙◌, false, Option, none, some, List, [], ◌∷◌, ◌==◌,
  if◌then◌else◌, length, arith, inl, inr, Bool-cases,
}
use mathlib.Core.Path.{subst}
use systems_programming.Prelude.Links.{head_or_null, Chain}
use systems_programming.Io61.State.{IoFile, MemMap, Io, System, Outcome, M, ◌>>=◌}
use systems_programming.Io61.Maps.{search_in_list}
use systems_programming.Io61.Read.{
  found, read_unmapped, read_mapped, io61_read, readc_mapped, refill, take_char, io61_readc,
}
use systems_programming.Io61.Files.{seek_mapped, seek_unmapped, seek_read}
use systems_programming.Io61.Mapped.{map_prevs, map_nexts, InFile, AllInFile}

some_injective : {A : Type 0} {a b : A} → some a ≡ some b → a ≡ b
some_injective e = cc

-- The first node of the list for a file descriptor.
abbrev pub find_fd : (ℕ → MemMap) → ℕ → List ℕ → Option ℕ
find_fd maps fd [] = none
find_fd maps fd (n ∷ ns) = if (maps n).fd == fd then some n else find_fd maps fd ns

-- The walk of `search_in_list` finds that node, or NULL; the length of the list is fuel enough.
pub search_in_list-find_fd :
    (fuel : ℕ) (maps : ℕ → MemMap) (fd p : ℕ) (nodes : List ℕ)
    → Chain (map_prevs maps) (map_nexts maps) p nodes
    → length nodes ≤ fuel
    → search_in_list fuel maps fd (head_or_null nodes) ≡ some (find_fd maps fd nodes)
unfolding search_in_list
search_in_list-find_fd zero maps fd p [] c h = refl
search_in_list-find_fd zero maps fd p (n ∷ ns) c h = absurd (omega (arith, h))
search_in_list-find_fd (suc fuel) maps fd p [] c h = refl
search_in_list-find_fd (suc fuel) maps fd p (n ∷ ns) c h = ground (
  arith,
  c.0,
  c.2,
  ap (search_in_list fuel maps fd) c.2
      ∙ search_in_list-find_fd fuel maps fd n ns c.3 (omega (arith, h)),
)

pub find_fd-InFile :
    (maps : ℕ → MemMap) (fd n : ℕ) (nodes : List ℕ)
    → AllInFile maps nodes
    → find_fd maps fd nodes ≡ some n
    → InFile (maps n)
find_fd-InFile maps fd n [] a e = absurd (cc)
find_fd-InFile maps fd n (m ∷ ms) a e = elim (Bool-cases ((maps m).fd == fd)) [
  | inl t ↦ subst (λ x. InFile (maps x)) (some_injective (rw t at e)) a.0
  | inr t ↦ find_fd-InFile maps fd n ms a.1 (rw t at e)
]

-- The file is mapped, at node `n`.
module _ {World : Type 0} (sys : System World) (fuel : ℕ) (f : IoFile) (s : Io World)
    (nodes : List ℕ) (n : ℕ) (first : s.mmaphead ≡ head_or_null nodes)
    (chain : Chain (map_prevs s.maps) (map_nexts s.maps) 0 nodes) (enough : length nodes ≤ fuel)
    (at : find_fd s.maps f.fd nodes ≡ some n) where
  searched : search_in_list fuel s.maps f.fd s.mmaphead ≡ some (some n)
  searched =
      ap (search_in_list fuel s.maps f.fd) first
      ∙ search_in_list-find_fd fuel s.maps f.fd 0 nodes chain enough
      ∙ ap some at

  some_mapped : (s.mmaphead == 0) ≡ false
  some_mapped = go nodes first chain at
    where
      go :
          (ns : List ℕ)
          → s.mmaphead ≡ head_or_null ns
          → Chain (map_prevs s.maps) (map_nexts s.maps) 0 ns
          → find_fd s.maps f.fd ns ≡ some n
          → (s.mmaphead == 0) ≡ false
      go [] e c a = absurd (cc)
      go (m ∷ ms) e c a = ground (arith, e, c.0)

  -- A branch on `mmaphead`, with the search.
  at_node :
      {A : Type 0} (unmapped : Outcome World A) (k : ℕ → M World A)
      → (if s.mmaphead == 0
          then unmapped
          else (found (search_in_list fuel s.maps f.fd s.mmaphead) >>= k) s)
        ≡ k n s
  unfolding found
  at_node unmapped k = rw (some_mapped, searched, found) refl

  pub io61_read-at : (sz : ℕ) → io61_read sys fuel f sz s ≡ read_mapped n sz s
  unfolding io61_read
  io61_read-at sz = at_node (read_unmapped sys f sz s) (λ n. read_mapped n sz)

  pub io61_readc-at : io61_readc sys fuel f s ≡ readc_mapped n s
  unfolding io61_readc
  io61_readc-at = at_node ((refill sys fuel f >>= take_char) s) readc_mapped

  pub seek_read-at : (pos : ℕ) → seek_read sys fuel f pos s ≡ seek_mapped pos n s
  unfolding seek_read
  seek_read-at pos = at_node (seek_unmapped sys fuel f pos s) (seek_mapped pos)
