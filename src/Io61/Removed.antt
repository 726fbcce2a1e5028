-- ===== src/Io61/Removed.antt =====
-- Assign2/io61.c: `remove_mmap` on the list of mapped files.
use systems_programming.Prelude.{
  ℕ, ◌≡◌, ◌≢◌, refl, sym, ◌∙◌, List, [], ◌∷◌, ◌++◌, ◌==◌, if◌then◌else◌, arith,
}
use mathlib.Core.Path.{subst}
use systems_programming.Prelude.Links.{
  head_or_null, last_or, NotIn, Distinct, Chain-remove, Chain-at, head-unlink, NotIn-front,
  NotIn-zero, last-ne_zero, Distinct-remove,
}
use systems_programming.Io61.State.{MemMap, Io}
use systems_programming.Io61.Maps.{remove_mmap}
use systems_programming.Io61.Mapped.{
  map_prevs, map_nexts, AllInFile, AllInFile-same, SameFile, IsMapped,
}

AllInFile-remove :
    (maps : ℕ → MemMap) (a : ℕ) (xs ys : List ℕ)
    → AllInFile maps (xs ++ a ∷ ys)
    → AllInFile maps (xs ++ ys)
AllInFile-remove maps a [] ys h = h.1
AllInFile-remove maps a (x ∷ xs) ys h = (h.0, AllInFile-remove maps a xs ys h.1)

module _ {World : Type 0} (n : ℕ) (s : Io World) where
  abbrev removed : Io World
  removed = remove_mmap n s

  remove_mmap-SameFile : (b : ℕ) → SameFile (s.maps b) (removed.maps b)
  unfolding remove_mmap
  remove_mmap-SameFile b = ground arith

  module _ (apart : (s.maps n).next ≢ n) where
    remove_mmap-mmaphead :
        removed.mmaphead ≡ (if (s.maps n).prev == 0 then (s.maps n).next else s.mmaphead)
    unfolding remove_mmap
    remove_mmap-mmaphead = ground arith

    remove_mmap-prev : (b : ℕ) → b ≢ (s.maps n).next → map_prevs removed.maps b ≡ map_prevs s.maps b
    unfolding remove_mmap
    remove_mmap-prev b nb = ground arith

    remove_mmap-next : (b : ℕ) → b ≢ (s.maps n).prev → map_nexts removed.maps b ≡ map_nexts s.maps b
    unfolding remove_mmap
    remove_mmap-next b nb = ground arith

    remove_mmap-joins_prev :
        (s.maps n).next ≢ 0 → map_prevs removed.maps (s.maps n).next ≡ (s.maps n).prev
    unfolding remove_mmap
    remove_mmap-joins_prev nz = ground arith

    remove_mmap-joins_next :
        (s.maps n).prev ≢ 0 → map_nexts removed.maps (s.maps n).prev ≡ (s.maps n).next
    unfolding remove_mmap
    remove_mmap-joins_next nz = ground arith

  -- A node of the list is taken out of it.
  pub remove_mmap-IsMapped :
      (xs ys : List ℕ) → IsMapped s (xs ++ n ∷ ys) → IsMapped removed (xs ++ ys)
  remove_mmap-IsMapped xs ys i =
      let (nz, prev, next) = Chain-at (map_prevs s.maps) (map_nexts s.maps) 0 n xs ys i.chain in
      let zero_free = NotIn-zero (map_prevs s.maps) (map_nexts s.maps) 0 (xs ++ n ∷ ys) i.chain in
      let (zx, zy) = NotIn-front 0 n xs ys zero_free in
      let apart : (s.maps n).next ≢ n =
        (λ e. next_apart ys (Distinct-behind xs i.distinct) (sym next ∙ e) nz) in
      let prev_nz : xs ≢ [] → (s.maps n).prev ≢ 0 =
        (λ ne e. last-ne_zero 0 xs zx ne (sym prev ∙ e)) in
      let next_nz : ys ≢ [] → (s.maps n).next ≢ 0 =
        (λ ne e. head-ne_zero ys zy ne (sym next ∙ e)) in
      record {
        first =
            remove_mmap-mmaphead apart
            ∙ head-unlink n s.mmaphead (s.maps n).prev (s.maps n).next xs ys prev next prev_nz
                i.first;
        chain =
            Chain-remove (map_prevs s.maps) (map_nexts s.maps) (map_prevs removed.maps)
              (map_nexts removed.maps) 0 n xs ys
              (λ b na nn. remove_mmap-prev apart b (λ e. nn (e ∙ next)))
              (λ b na nn. remove_mmap-next apart b (λ e. nn (e ∙ prev)))
              (λ ne.
                subst (λ x. map_prevs removed.maps x ≡ last_or 0 xs) next
                  (remove_mmap-joins_prev apart (next_nz ne) ∙ prev))
              (λ ne.
                subst (λ x. map_nexts removed.maps x ≡ head_or_null ys) prev
                  (remove_mmap-joins_next apart (prev_nz ne) ∙ next))
              zero_free i.distinct i.chain;
        distinct = Distinct-remove n xs ys i.distinct;
        in_file =
            AllInFile-same s.maps removed.maps (xs ++ ys) remove_mmap-SameFile
              (AllInFile-remove s.maps n xs ys i.in_file);
      }
    where
      head-ne_zero : (ys : List ℕ) → NotIn 0 ys → ys ≢ [] → head_or_null ys ≢ 0
      head-ne_zero [] z ne e = ne refl
      head-ne_zero (y ∷ ys) z ne e = z.0 e

      Distinct-behind : (xs : List ℕ) → Distinct (xs ++ n ∷ ys) → NotIn n ys
      Distinct-behind [] d = d.0
      Distinct-behind (x ∷ xs) d = Distinct-behind xs d.1

      next_apart : (ys : List ℕ) → NotIn n ys → head_or_null ys ≡ n → n ≢ 0 → ⊥
      next_apart [] d e nz = nz (sym e)
      next_apart (y ∷ ys) d e nz = d.0 e
