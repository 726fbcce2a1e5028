-- ===== src/M61/Free.antt =====
-- Assign1/m61.c: `m61_free` with its three checks, `m61_realloc`, and the walk of the leak report.
use systems_programming.Prelude.{
  sub64, add64, ℕ, zero, suc, Bool, not, ◌&&◌, ◌||◌, List, [], ◌∷◌, ◌==◌, ltb, if◌then◌else◌,
  update,
}
use systems_programming.M61.State.{Stats, Meta, meta_size, Heap, set_next, set_prev}
use systems_programming.M61.Malloc.{m61_malloc}

-- How a free ends: at abort(), with its message, or with the new state.
pub data Freed : Type 0 where
  not_in_heap not_allocated inside_block wild_write : Freed
  endless : Freed
  freed : Heap → Freed

unfoldable pub in_heap : Stats → ℕ → Bool
in_heap s ptr = not (ltb ptr (sub64 s.heap_min meta_size) || ltb s.heap_max ptr)

-- What `validateisallocated` finds.
pub data Found : Type 0 where
  valid unlisted within no_end : Found

-- The walk along `next_addr` from block `itr`; `no_end` is a lack of fuel.
unfoldable pub find_block : ℕ → (ℕ → Meta) → ℕ → ℕ → Found
find_block zero headers ptr itr = if itr == 0 then unlisted else no_end
find_block (suc fuel) headers ptr itr =
    let rest = find_block fuel headers ptr (headers itr).next_addr in
    if itr == 0
    then unlisted
    else if itr == sub64 ptr meta_size
    then valid
    else if ltb itr ptr && ltb ptr (add64 (headers itr).payload_addr (headers itr).payload_size)
    then within
    else rest

unfoldable pub boundary_holds : Heap → ℕ → Bool
boundary_holds h ptr = h.words (add64 ptr (h.headers (sub64 ptr meta_size)).payload_size) == ptr

-- The neighbours of the block are joined; the ends of the list are the globals.
unfoldable pub unlink : Heap → ℕ → Heap
unlink h block =
    let m = h.headers block in
    let cleared = update h.headers block (record m { payload_addr = 0 }) in
    let after_prev =
      if m.prev_addr == 0 then cleared else set_next cleared m.prev_addr m.next_addr in
    let after_next =
      if m.next_addr == 0 then after_prev else set_prev after_prev m.next_addr m.prev_addr in
    record h {
      headers = after_next;
      first_alloc = if m.prev_addr == 0 then m.next_addr else h.first_alloc;
      curr_alloc = if m.next_addr == 0 then m.prev_addr else h.curr_alloc;
    }

unfoldable pub count_free : Heap → ℕ → Heap
count_free h block = record h {
  gstats = record h.gstats {
    nactive = sub64 h.gstats.nactive 1;
    active_size = sub64 h.gstats.active_size (h.headers block).payload_size;
  };
}

unfoldable pub m61_free : ℕ → Heap → ℕ → Freed
m61_free fuel h ptr =
    if ptr == 0
    then freed h
    else if in_heap h.gstats ptr
    then elim (find_block fuel h.headers ptr h.first_alloc) [
      | valid ↦
          if boundary_holds h ptr
          then freed (unlink (count_free h (sub64 ptr meta_size)) (sub64 ptr meta_size))
          else wild_write
      | unlisted ↦ not_allocated
      | within ↦ inside_block
      | no_end ↦ endless
    ]
    else not_in_heap

-- Copying the bytes of the payload is left out: payloads are not modelled.
unfoldable pub m61_realloc : (ℕ → ℕ) → ℕ → Heap → ℕ → ℕ → ℕ → ℕ → ℕ × Freed
m61_realloc malloc fuel h ptr sz file line =
    let (new_ptr, h1) = m61_malloc malloc h sz file line in
    if sz == 0 then (0, m61_free fuel h ptr) else (new_ptr, m61_free fuel h1 ptr)

-- The blocks that `m61_printleakreport` prints, with the size of each.
unfoldable pub leaks : ℕ → (ℕ → Meta) → ℕ → List (ℕ × ℕ)
leaks zero headers itr = []
leaks (suc fuel) headers itr =
    let rest = leaks fuel headers (headers itr).next_addr in
    if itr == 0 then [] else ((headers itr).payload_addr, (headers itr).payload_size) ∷ rest
