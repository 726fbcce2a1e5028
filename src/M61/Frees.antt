-- ===== src/M61/Frees.antt =====
-- Assign1/m61.c: the whole of `m61_free`, and the leak report.
use systems_programming.Prelude.{
  sub64, ℕ, zero, suc, ◌≤◌, ◌≡◌, ◌≢◌, refl, sym, ap, ◌∙◌, true, List, [], ◌∷◌, ◌++◌, arith, length,
  map,
}
use mathlib.Core.Path.{subst}
use systems_programming.M61.State.{Meta, meta_size, Heap}
use systems_programming.M61.Free.{
  freed, valid, in_heap, find_block, boundary_holds, unlink, count_free, m61_free, leaks,
}
use systems_programming.Prelude.Links.{head_or_null}
use systems_programming.M61.Chain.{Chain}
use systems_programming.M61.Linked.{IsLinked}
use systems_programming.M61.Unlinked.{unlink-IsLinked, find_block-valid}

pub count_free-IsLinked :
    (h : Heap) (a : ℕ) (blocks : List ℕ) → IsLinked h blocks → IsLinked (count_free h a) blocks
unfolding count_free
count_free-IsLinked h a blocks l = record {
  first = l.first;
  last = l.last;
  chain = l.chain;
  distinct = l.distinct;
}

-- What a free that was carried out says.
pub record Removed (h : Heap) (blocks : List ℕ) (block : ℕ) (h' : Heap) : Type 0 where
  pub before : List ℕ
  pub behind : List ℕ
  pub listed : blocks ≡ before ++ block ∷ behind
  pub linked : IsLinked h' (before ++ behind)
  pub counted : h'.gstats ≡ record h.gstats {
    nactive = sub64 h.gstats.nactive 1;
    active_size = sub64 h.gstats.active_size (h.headers block).payload_size;
  }

freed-parts :
    (fuel : ℕ) (h : Heap) (ptr : ℕ) {h' : Heap}
    → ptr ≢ 0
    → m61_free fuel h ptr ≡ freed h'
    → (find_block fuel h.headers ptr h.first_alloc ≡ valid)
      × (in_heap h.gstats ptr ≡ true)
      × (boundary_holds h ptr ≡ true)
      × (h' ≡ unlink (count_free h (sub64 ptr meta_size)) (sub64 ptr meta_size))
unfolding m61_free
freed-parts fuel h ptr nz e = ground arith

gstats-unlink : (h : Heap) (a : ℕ) → (unlink h a).gstats ≡ h.gstats
unfolding unlink
gstats-unlink h a = refl

-- A free of an address other than NULL that does not abort was of the address behind the header of
-- an active block, whose boundary word was intact; that block alone leaves the list, and the number of
-- active blocks goes down by one, and that of active bytes by its size, modulo 2^64.
pub m61_free-Removed :
    (fuel : ℕ) (h : Heap) (blocks : List ℕ) (ptr : ℕ) {h' : Heap}
    → IsLinked h blocks
    → ptr ≢ 0
    → m61_free fuel h ptr ≡ freed h'
    → (boundary_holds h ptr ≡ true) × Removed h blocks (sub64 ptr meta_size) h'
unfolding count_free
m61_free-Removed fuel h blocks ptr {h'} l nz e =
    let (found, _, intact, result) = freed-parts fuel h ptr nz e in
    let at : find_block fuel h.headers ptr (head_or_null blocks) ≡ valid =
      subst (λ x. find_block fuel h.headers ptr x ≡ valid) l.first found in
    let (xs, ys, split) = find_block-valid fuel h.headers 0 ptr blocks l.chain at in
    let a = sub64 ptr meta_size in
    let counted = count_free-IsLinked h a (xs ++ a ∷ ys) (subst (IsLinked h) split l) in
    (
      intact,
      record {
        before = xs;
        behind = ys;
        listed = split;
        linked =
            subst (λ s. IsLinked s (xs ++ ys)) (sym result)
              (unlink-IsLinked (count_free h a) a xs ys counted);
        counted = ap (λ (s : Heap). s.gstats) result ∙ gstats-unlink (count_free h a) a;
      },
    )

leaks-Chain :
    (fuel : ℕ) (hd : ℕ → Meta) (p : ℕ) (blocks : List ℕ)
    → Chain hd p blocks
    → length blocks ≤ fuel
    → leaks fuel hd (head_or_null blocks)
      ≡ map (λ b. ((hd b).payload_addr, (hd b).payload_size)) blocks
unfolding leaks
leaks-Chain zero hd p [] c h = refl
leaks-Chain zero hd p (a ∷ as') c h = absurd (omega arith)
leaks-Chain (suc fuel) hd p [] c h = refl
leaks-Chain (suc fuel) hd p (a ∷ as') c h =
    ground (arith, c.0, c.2, leaks-Chain fuel hd a as' c.3 (omega arith))

-- The leak report lists exactly the active blocks, in the order of their allocation.
pub leaks-IsLinked :
    (h : Heap) (blocks : List ℕ)
    → IsLinked h blocks
    → leaks (length blocks) h.headers h.first_alloc
      ≡ map (λ b. ((h.headers b).payload_addr, (h.headers b).payload_size)) blocks
leaks-IsLinked h blocks l =
    ap (leaks (length blocks) h.headers) l.first
    ∙ leaks-Chain (length blocks) h.headers 0 blocks l.chain (omega arith)
