-- ===== src/M61/Linked.antt =====
-- Assign1/m61.c: `m61_malloc` and `m61_free` on the list of active blocks.
use mathlib.Core.Path.{subst}
use systems_programming.Prelude.{
  add64, ℕ, ◌-◌, ◌≡◌, ◌≢◌, ◌⊎◌, refl, sym, ap, ◌∙◌, not, ◌&&◌, List, [], ◌∷◌, ◌++◌, ◌==◌, ltb,
  if◌then◌else◌, arith, inl, inr, Bool-cases,
}
use systems_programming.M61.State.{Meta, meta_size, Heap, size_max}
use systems_programming.M61.Malloc.{m61_malloc, add_block, link, new_header, request}
use systems_programming.Prelude.Links.{
  head_or_null, last_or, NotIn, Distinct, Chain-snoc, NotIn-zero, last-ne_zero, last-ne_new,
  last-snoc, Distinct-snoc,
}
use systems_programming.M61.Chain.{prevs, nexts, Chain}

-- The headers link exactly these blocks, in order, between `first_alloc` and `curr_alloc`.
pub record IsLinked (h : Heap) (blocks : List ℕ) : Type 0 where
  pub first : h.first_alloc ≡ head_or_null blocks
  pub last : h.curr_alloc ≡ last_or 0 blocks
  pub chain : Chain h.headers 0 blocks
  pub distinct : Distinct blocks

head-snoc :
    (n f : ℕ) (blocks : List ℕ)
    → NotIn 0 blocks
    → f ≡ head_or_null blocks
    → (if f == 0 then n else f) ≡ head_or_null (blocks ++ n ∷ [])
head-snoc n f [] h e = ground arith
head-snoc n f (a ∷ as') h e = ground (arith, h.0)

module _ (h : Heap) (block : ℕ) (m : Meta) where
  link-prev : (b : ℕ) → b ≢ block → (link h block m b).prev_addr ≡ (h.headers b).prev_addr
  link-prev b nb = ground arith

  link-next :
      (b : ℕ)
      → b ≢ block
      → b ≢ h.curr_alloc
      → (link h block m b).next_addr ≡ (h.headers b).next_addr
  link-next b nb nc = ground arith

  link-last : h.curr_alloc ≢ 0 → (link h block m h.curr_alloc).next_addr ≡ block
  link-last nz = ground arith

  link-new_prev : (link h block m block).prev_addr ≡ m.prev_addr
  link-new_prev = ground arith

  link-new_next : h.curr_alloc ≢ block → (link h block m block).next_addr ≡ m.next_addr
  link-new_next ne = ground arith

-- A block that is not in the list is put at its end.
pub add_block-IsLinked :
    (h : Heap) (blocks : List ℕ) (block sz file line : ℕ)
    → IsLinked h blocks
    → block ≢ 0
    → NotIn block blocks
    → IsLinked (add_block h block sz file line) (blocks ++ block ∷ [])
unfolding add_block
add_block-IsLinked h blocks block sz file line l nz ni =
    let z = NotIn-zero (prevs h.headers) (nexts h.headers) 0 blocks l.chain in
    let m = new_header h block sz file line in
    record {
      first = head-snoc block h.first_alloc blocks z l.first;
      last = sym (last-snoc 0 block blocks);
      chain =
          Chain-snoc (prevs h.headers) (nexts h.headers) (prevs (link h block m))
            (nexts (link h block m)) 0 block blocks (λ b nb. link-prev h block m b nb)
            (λ b nb nl. link-next h block m b nb (λ e. nl (e ∙ l.last)))
            (λ ne.
              subst (λ x. (link h block m x).next_addr ≡ block) l.last
                (link-last h block m (λ e. last-ne_zero 0 blocks z ne (sym l.last ∙ e))))
            (link-new_prev h block m ∙ l.last) (link-new_next h block m (not_block blocks refl)) nz
            ni l.distinct l.chain;
      distinct = Distinct-snoc block blocks ni l.distinct;
    }
  where
    not_block : (bs : List ℕ) → blocks ≡ bs → h.curr_alloc ≢ block
    not_block [] e c = nz (sym c ∙ l.last ∙ ap (last_or 0) e)
    not_block (a ∷ as') e c = last-ne_new block 0 blocks ni (λ n. cc) (sym l.last ∙ c)

-- What a call of m61_malloc comes to.
abbrev pub MallocPost : Heap → List ℕ → ℕ → ℕ → ℕ → Heap → Type 0
MallocPost h blocks block sz ptr h' =
    ((ptr ≡ add64 block meta_size)
      × IsLinked h' (blocks ++ block ∷ [])
      × (h'.gstats.nactive ≡ add64 h.gstats.nactive 1)
      × (h'.gstats.active_size ≡ add64 h.gstats.active_size sz)
      × (h'.gstats.ntotal ≡ add64 h.gstats.ntotal 1)
      × (h'.gstats.total_size ≡ add64 h.gstats.total_size sz)
      × (h'.gstats.nfail ≡ h.gstats.nfail)
      × (h'.gstats.fail_size ≡ h.gstats.fail_size))
    ⊎ ((ptr ≡ 0)
        × IsLinked h' blocks
        × (h'.gstats ≡ record h.gstats {
          nfail = add64 h.gstats.nfail 1;
          fail_size = add64 h.gstats.fail_size sz;
        }))

-- `m61_malloc` with a block that malloc does not hold already puts it at the end of the list and
-- returns the address behind its header, with one block more and its bytes in the active and the
-- total counts; a call that returns NULL changes no list, and counts one failure more and its bytes.
-- The counts are modulo 2^64.
pub m61_malloc-IsLinked :
    (malloc : ℕ → ℕ) (h : Heap) (blocks : List ℕ) (sz file line : ℕ)
    → IsLinked h blocks
    → NotIn (malloc (request sz)) blocks
    → let (ptr, h') = m61_malloc malloc h sz file line in
      MallocPost h blocks (malloc (request sz)) sz ptr h'
unfolding m61_malloc
m61_malloc-IsLinked malloc h blocks sz file line l ni =
    elim (Bool-cases (ltb sz (size_max - meta_size) && not (malloc (request sz) == 0))) [
      | inl e ↦
          rw (e, m61_malloc)
            (inl (
              refl,
              add_block-IsLinked h blocks (malloc (request sz)) sz file line l (ground arith) ni,
              unfold add_block in refl,
              unfold add_block in refl,
              unfold add_block in refl,
              unfold add_block in refl,
              unfold add_block in refl,
              unfold add_block in refl,
            ))
      | inr e ↦
          rw (e, m61_malloc)
            (inr (
              refl,
              record { first = l.first; last = l.last; chain = l.chain; distinct = l.distinct },
              refl,
            ))
    ]
