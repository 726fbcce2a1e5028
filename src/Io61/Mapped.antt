-- ===== src/Io61/Mapped.antt =====
-- Assign2/io61.c: the linked list of mapped files as the list of its nodes.
use systems_programming.Prelude.{ℕ, ◌<◌, ◌≤◌, ◌^◌, ◌≡◌, ◌≢◌, refl, sym, ◌∙◌, List, [], ◌∷◌, arith}
use mathlib.Core.Path.{subst}
use systems_programming.Prelude.Links.{head_or_null, NotIn, Distinct, Chain, Chain-agree}
use systems_programming.Io61.State.{MemMap, Io}
use systems_programming.Io61.Maps.{insert_first}

abbrev pub map_prevs : (ℕ → MemMap) → ℕ → ℕ
map_prevs maps a = (maps a).prev

abbrev pub map_nexts : (ℕ → MemMap) → ℕ → ℕ
map_nexts maps a = (maps a).next

abbrev pub InFile : MemMap → Type 0
InFile m = (m.localoffset ≤ m.filesize) × (m.filesize < 2 ^ 62)

abbrev pub AllInFile : (ℕ → MemMap) → List ℕ → Type 0
AllInFile maps [] = Unit {0}
AllInFile maps (n ∷ ns) = InFile (maps n) × AllInFile maps ns

-- The list from `mmaphead` links these nodes in order, and each offset lies in its file.
pub record IsMapped {World : Type 0} (s : Io World) (nodes : List ℕ) : Type 0 where
  pub first : s.mmaphead ≡ head_or_null nodes
  pub chain : Chain (map_prevs s.maps) (map_nexts s.maps) 0 nodes
  pub distinct : Distinct nodes
  pub in_file : AllInFile s.maps nodes

-- What lies outside the links of a node.
abbrev pub SameFile : MemMap → MemMap → Type 0
SameFile m m' = (m'.localoffset ≡ m.localoffset) × (m'.filesize ≡ m.filesize) × (m'.fd ≡ m.fd)

pub AllInFile-same :
    (maps maps' : ℕ → MemMap) (nodes : List ℕ)
    → ((n : ℕ) → SameFile (maps n) (maps' n))
    → AllInFile maps nodes
    → AllInFile maps' nodes
AllInFile-same maps maps' [] same h = tt
AllInFile-same maps maps' (n ∷ ns) same h =
    (omega (arith, (same n).0, (same n).1, h.0.0, h.0.1), AllInFile-same maps maps' ns same h.1)

module _ {World : Type 0} (n : ℕ) (s : Io World) where
  abbrev inserted : Io World
  inserted = insert_first n s

  pub insert_first-SameFile : (b : ℕ) → SameFile (s.maps b) (inserted.maps b)
  unfolding insert_first
  insert_first-SameFile b = ground arith

  insert_first-mmaphead : inserted.mmaphead ≡ n
  unfolding insert_first
  insert_first-mmaphead = refl

  insert_first-prev :
      (b : ℕ) → b ≢ n → b ≢ s.mmaphead → map_prevs inserted.maps b ≡ map_prevs s.maps b
  unfolding insert_first
  insert_first-prev b nb nh = ground arith

  insert_first-next : (b : ℕ) → b ≢ n → map_nexts inserted.maps b ≡ map_nexts s.maps b
  unfolding insert_first
  insert_first-next b nb = ground arith

  insert_first-joins : s.mmaphead ≢ 0 → map_prevs inserted.maps s.mmaphead ≡ n
  unfolding insert_first
  insert_first-joins nz = ground arith

  insert_first-at :
      n ≢ s.mmaphead → (map_prevs inserted.maps n ≡ 0) × (map_nexts inserted.maps n ≡ s.mmaphead)
  unfolding insert_first
  insert_first-at ne = ground arith

  Chain-cons :
      (nodes : List ℕ)
      → n ≢ 0
      → NotIn n nodes
      → s.mmaphead ≡ head_or_null nodes
      → Distinct nodes
      → Chain (map_prevs s.maps) (map_nexts s.maps) 0 nodes
      → Chain (map_prevs inserted.maps) (map_nexts inserted.maps) 0 (n ∷ nodes)
  Chain-cons [] nz ni f d c = let at = insert_first-at (λ e. nz (e ∙ f)) in (nz, at.0, at.1 ∙ f, tt)
  Chain-cons (m ∷ ms) nz ni f d c =
      let at = insert_first-at (λ e. ni.0 (sym (e ∙ f))) in
      (
        nz,
        at.0,
        at.1 ∙ f,
        (
          c.0,
          subst (λ x. map_prevs inserted.maps x ≡ n) f (insert_first-joins (λ e. c.0 (sym f ∙ e))),
          insert_first-next m ni.0 ∙ c.2,
          Chain-agree (map_prevs s.maps) (map_nexts s.maps) (map_prevs inserted.maps)
              (map_nexts inserted.maps) m ms n m n
              (λ b bn bm. insert_first-prev b bn (λ e. bm (e ∙ f)))
              (λ b bn bn'. insert_first-next b bn) ni.1 d.0 ni.1 c.3,
        ),
      )

  -- A new node whose offset lies in its file goes to the front of the list.
  pub insert_first-IsMapped :
      (nodes : List ℕ)
      → IsMapped s nodes
      → n ≢ 0
      → NotIn n nodes
      → InFile (s.maps n)
      → IsMapped inserted (n ∷ nodes)
  insert_first-IsMapped nodes i nz ni inside = record {
    first = insert_first-mmaphead;
    chain = Chain-cons nodes nz ni i.first i.distinct i.chain;
    distinct = (ni, i.distinct);
    in_file =
        AllInFile-same s.maps inserted.maps (n ∷ nodes) insert_first-SameFile (inside, i.in_file);
  }
