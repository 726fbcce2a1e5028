-- ===== src/M61/Unlinked.antt =====
-- Assign1/m61.c: `m61_free` takes out of the list the block that it frees, and frees no other address.
use mathlib.Core.Path.{subst}
use systems_programming.Prelude.{
  sub64, ℕ, zero, suc, ◌≡◌, ◌≢◌, refl, sym, ap, ◌∙◌, List, [], ◌∷◌, ◌++◌, ◌==◌, if◌then◌else◌,
  arith, inl, inr, Bool-cases,
}
use systems_programming.M61.State.{Meta, meta_size, Heap}
use systems_programming.M61.Free.{valid, find_block, unlink}
use systems_programming.Prelude.Links.{
  head_or_null, last_or, NotIn, Chain-remove, head-unlink, Chain-at, NotIn-front, NotIn-zero,
  last-ne_zero, Distinct-remove, last-append_nil, last-remove,
}
use systems_programming.M61.Chain.{prevs, nexts, Chain}
use systems_programming.M61.Linked.{IsLinked}

-- The headers of the neighbours after the block at `a` is unlinked.
module _ (h : Heap) (a : ℕ) where
  unlink-prev :
      (b : ℕ)
      → b ≢ a
      → b ≢ (h.headers a).next_addr
      → ((unlink h a).headers b).prev_addr ≡ (h.headers b).prev_addr
  unfolding unlink
  unlink-prev b na nn = ground arith

  unlink-next :
      (b : ℕ)
      → b ≢ a
      → b ≢ (h.headers a).prev_addr
      → ((unlink h a).headers b).next_addr ≡ (h.headers b).next_addr
  unfolding unlink
  unlink-next b na nn = ground arith

  unlink-joins_prev :
      (h.headers a).next_addr ≢ 0
      → ((unlink h a).headers (h.headers a).next_addr).prev_addr ≡ (h.headers a).prev_addr
  unfolding unlink
  unlink-joins_prev nz = ground arith

  unlink-joins_next :
      (h.headers a).prev_addr ≢ 0
      → ((unlink h a).headers (h.headers a).prev_addr).next_addr ≡ (h.headers a).next_addr
  unfolding unlink
  unlink-joins_next nz = ground arith

last-unlink :
    (a curr prev next : ℕ) (xs ys : List ℕ)
    → prev ≡ last_or 0 xs
    → next ≡ head_or_null ys
    → (ys ≢ [] → next ≢ 0)
    → curr ≡ last_or 0 (xs ++ a ∷ ys)
    → (if next == 0 then prev else curr) ≡ last_or 0 (xs ++ ys)
last-unlink a curr prev next xs [] p n nz c = ground (arith, last-append_nil 0 xs)
last-unlink a curr prev next xs (y ∷ ys) p n nz c =
    ground (arith, nz (λ e. cc), last-remove 0 a y xs ys)

pub unlink-IsLinked :
    (h : Heap) (a : ℕ) (xs ys : List ℕ)
    → IsLinked h (xs ++ a ∷ ys)
    → IsLinked (unlink h a) (xs ++ ys)
unfolding unlink
unlink-IsLinked h a xs ys l =
    let (nz, prev, next) = Chain-at (prevs h.headers) (nexts h.headers) 0 a xs ys l.chain in
    let (zx, zy) =
      NotIn-front 0 a xs ys
        (NotIn-zero (prevs h.headers) (nexts h.headers) 0 (xs ++ a ∷ ys) l.chain) in
    let prev_nz : xs ≢ [] → (h.headers a).prev_addr ≢ 0 =
      (λ ne e. last-ne_zero 0 xs zx ne (sym prev ∙ e)) in
    let next_nz : ys ≢ [] → (h.headers a).next_addr ≢ 0 =
      (λ ne e. head-ne_zero ys zy ne (sym next ∙ e)) in
    record {
      first =
          head-unlink a h.first_alloc (h.headers a).prev_addr (h.headers a).next_addr xs ys prev
            next prev_nz l.first;
      last =
          last-unlink a h.curr_alloc (h.headers a).prev_addr (h.headers a).next_addr xs ys prev next
            next_nz l.last;
      chain =
          Chain-remove (prevs h.headers) (nexts h.headers) (prevs (unlink h a).headers)
            (nexts (unlink h a).headers) 0 a xs ys
            (λ b na nn. unlink-prev h a b na (λ e. nn (e ∙ next)))
            (λ b na nn. unlink-next h a b na (λ e. nn (e ∙ prev)))
            (λ ne.
              subst (λ x. ((unlink h a).headers x).prev_addr ≡ last_or 0 xs) next
                (unlink-joins_prev h a (next_nz ne) ∙ prev))
            (λ ne.
              subst (λ x. ((unlink h a).headers x).next_addr ≡ head_or_null ys) prev
                (unlink-joins_next h a (prev_nz ne) ∙ next))
            (NotIn-zero (prevs h.headers) (nexts h.headers) 0 (xs ++ a ∷ ys) l.chain) l.distinct
            l.chain;
      distinct = Distinct-remove a xs ys l.distinct;
    }
  where
    head-ne_zero : (ys : List ℕ) → NotIn 0 ys → ys ≢ [] → head_or_null ys ≢ 0
    head-ne_zero [] z ne e = ne refl
    head-ne_zero (y ∷ ys) z ne e = z.0 e

-- An address that the walk finds is that of a block of the list.
pub find_block-valid :
    (fuel : ℕ) (hd : ℕ → Meta) (p ptr : ℕ) (blocks : List ℕ)
    → Chain hd p blocks
    → find_block fuel hd ptr (head_or_null blocks) ≡ valid
    → (xs : List ℕ) × (ys : List ℕ) × (blocks ≡ xs ++ sub64 ptr meta_size ∷ ys)
unfolding find_block
find_block-valid zero hd p ptr [] c e = absurd (ground arith)
find_block-valid zero hd p ptr (a ∷ as') c e = absurd (ground (arith, c.0))
find_block-valid (suc fuel) hd p ptr [] c e = absurd (ground arith)
find_block-valid (suc fuel) hd p ptr (a ∷ as') c e = elim (Bool-cases (a == sub64 ptr meta_size)) [
  | inl here ↦ let at : a ≡ sub64 ptr meta_size = ground arith in ([], as', ap (λ x. x ∷ as') at)
  | inr there ↦
      let deeper : find_block fuel hd ptr (head_or_null as') ≡ valid =
        subst (λ x. find_block fuel hd ptr x ≡ valid) c.2 (ground (arith, c.0)) in
      let (xs, ys, f) = find_block-valid fuel hd a ptr as' c.3 deeper in
      (a ∷ xs, ys, ap (λ x. a ∷ x) f)
]
