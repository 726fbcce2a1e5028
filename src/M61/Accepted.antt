-- ===== src/M61/Accepted.antt =====
-- Assign1/m61.c: the frees that `m61_free` carries out.
use systems_programming.Prelude.{
  sub64, add64, ℕ, zero, suc, ◌+◌, ◌^◌, ◌<◌, ◌≡◌, ◌≢◌, ◌∙◌, ap, Bool, true, false, ◌&&◌, List, [],
  ◌∷◌, ◌++◌, ltb, arith, length,
}
use systems_programming.M61.State.{Meta, meta_size, Heap}
use systems_programming.M61.Free.{
  freed, valid, in_heap, find_block, boundary_holds, unlink, count_free, m61_free,
}
use systems_programming.Prelude.Links.{head_or_null}
use systems_programming.M61.Chain.{Chain}
use systems_programming.M61.Linked.{IsLinked}
use systems_programming.M61.Unlinked.{unlink-IsLinked}
use systems_programming.M61.Frees.{count_free-IsLinked}

-- Does an address lie inside block `b`, by the test of `validateisallocated`?
abbrev pub lies_in : (ℕ → Meta) → ℕ → ℕ → Bool
lies_in hd ptr b = ltb b ptr && ltb ptr (add64 (hd b).payload_addr (hd b).payload_size)

abbrev pub Outside : (ℕ → Meta) → ℕ → List ℕ → Type 0
Outside hd ptr [] = Unit {0}
Outside hd ptr (b ∷ bs) = (lies_in hd ptr b ≡ false) × Outside hd ptr bs

block-back : (a : ℕ) → a + meta_size < 2 ^ 64 → sub64 (a + meta_size) meta_size ≡ a
block-back a h = omega (arith, h)

find_block-active :
    (fuel : ℕ) (hd : ℕ → Meta) (p a : ℕ) (xs ys : List ℕ)
    → Chain hd p (xs ++ a ∷ ys)
    → Outside hd (a + meta_size) xs
    → a + meta_size < 2 ^ 64
    → length xs < fuel
    → find_block fuel hd (a + meta_size) (head_or_null (xs ++ a ∷ ys)) ≡ valid
unfolding find_block
find_block-active zero hd p a xs ys c o h f = absurd (omega (arith, f))
find_block-active (suc fuel) hd p a [] ys c o h f = ground (arith, c.0, block-back a h)
find_block-active (suc fuel) hd p a (b ∷ xs) ys c o h f = ground (
  arith,
  c.0,
  o.0,
  ap (find_block fuel hd (a + meta_size)) c.2
      ∙ find_block-active fuel hd b a xs ys c.3 o.1 h (omega (arith, f)),
)

free-passes :
    (fuel : ℕ) (h : Heap) (ptr : ℕ)
    → ptr ≢ 0
    → in_heap h.gstats ptr ≡ true
    → find_block fuel h.headers ptr h.first_alloc ≡ valid
    → boundary_holds h ptr ≡ true
    → m61_free fuel h ptr
      ≡ freed (unlink (count_free h (sub64 ptr meta_size)) (sub64 ptr meta_size))
unfolding m61_free
free-passes fuel h ptr nz i v b = ground (arith, i, v, b)

-- The free of an active block in the bounds of the heap, with an intact boundary word, where no
-- block that was allocated before it reaches over its address, is carried out: the walk takes no
-- more rounds than there are such blocks and one, and the other blocks stay linked.
pub m61_free-active :
    (fuel : ℕ) (h : Heap) (a : ℕ) (xs ys : List ℕ)
    → IsLinked h (xs ++ a ∷ ys)
    → Outside h.headers (a + meta_size) xs
    → a + meta_size < 2 ^ 64
    → length xs < fuel
    → in_heap h.gstats (a + meta_size) ≡ true
    → boundary_holds h (a + meta_size) ≡ true
    → (m61_free fuel h (a + meta_size) ≡ freed (unlink (count_free h a) a))
      × IsLinked (unlink (count_free h a) a) (xs ++ ys)
m61_free-active fuel h a xs ys l o lt f i b = (
  free-passes fuel h (a + meta_size) (omega arith) i
        (ap (find_block fuel h.headers (a + meta_size)) l.first
          ∙ find_block-active fuel h.headers 0 a xs ys l.chain o lt f)
        b
      ∙ ap (λ x. freed (unlink (count_free h x) x)) (block-back a lt),
  unlink-IsLinked (count_free h a) a xs ys (count_free-IsLinked h a (xs ++ a ∷ ys) l),
)
