-- ===== src/M61/Tests.antt =====
-- Assign1/m61.c: heaps with one and two blocks, and the theorems at them.
use systems_programming.Prelude.{
  ℕ, ◌+◌, ◌-◌, ◌^◌, ◌<◌, ◌≤◌, ◌≡◌, Bool, ltb, ◌*◌, ◌%◌, ◌^◌, ◌↔◌, refl, true, none, some, List, [],
  ◌∷◌, arith, map,
}
use systems_programming.M61.State.{Hitter, Tracked, Heap, meta_size}
use systems_programming.M61.Hitters.{sortheavyhitters, sort_from, sort_pass}
use systems_programming.M61.Malloc.{request, add_block, m61_malloc}
use systems_programming.M61.Free.{
  freed, boundary_holds, unlink, count_free, m61_free, find_block, in_heap, leaks,
}
use systems_programming.M61.Linked.{IsLinked, add_block-IsLinked, MallocPost, m61_malloc-IsLinked}
use systems_programming.M61.Accepted.{Outside, m61_free-active}
use systems_programming.M61.Frees.{Removed, m61_free-Removed, leaks-IsLinked}
use systems_programming.M61.Sizes.{request-holds}
use systems_programming.M61.Report.{
  heavy_lines, heavy_report, m61_printheavyhitters, SortedPrinted,
  m61_printheavyhitters-SortedPrinted,
}

abbrev unused : Hitter
unused = record { total_pload_size = 0; line_num = 0; filename = none }

abbrev tracked : Tracked
tracked = record { hitters = unused ∷ unused ∷ unused ∷ unused ∷ unused ∷ []; neg_bias = 0 }

abbrev empty_heap : Heap
empty_heap = record {
  gstats = record {
    nactive = 0;
    active_size = 0;
    ntotal = 0;
    total_size = 0;
    nfail = 0;
    fail_size = 0;
    heap_min = 0;
    heap_max = 0;
  };
  heavy_alloc = tracked;
  heavy_freq = tracked;
  first_alloc = 0;
  curr_alloc = 0;
  headers = λ a. record {
    payload_size = 0;
    line_num = 0;
    filename = 0;
    prev_addr = 0;
    next_addr = 0;
    payload_addr = 0;
  };
  words = λ a. 0;
}

empty_heap-IsLinked : IsLinked empty_heap []
empty_heap-IsLinked = record { first = refl; last = refl; chain = tt; distinct = tt }

-- After `malloc(16)` at line 7 of file 0.
abbrev one_block : Heap
one_block = add_block empty_heap 1000 16 0 7

one_block-IsLinked : IsLinked one_block (1000 ∷ [])
one_block-IsLinked =
    add_block-IsLinked empty_heap [] 1000 16 0 7 empty_heap-IsLinked (ground arith) tt

-- After `malloc(8)` at line 9 too.
abbrev two_blocks : Heap
two_blocks = add_block one_block 2000 8 0 9

two_blocks-IsLinked : IsLinked two_blocks (1000 ∷ 2000 ∷ [])
two_blocks-IsLinked =
    add_block-IsLinked one_block (1000 ∷ []) 2000 8 0 9 one_block-IsLinked (ground arith)
      ((ground arith), tt)

m61_malloc-IsLinked_example :
    let (ptr, h') = m61_malloc (λ n. 2000) one_block 8 0 9 in
    MallocPost one_block (1000 ∷ []) 2000 8 ptr h'
m61_malloc-IsLinked_example =
    m61_malloc-IsLinked (λ n. 2000) one_block (1000 ∷ []) 8 0 9 one_block-IsLinked
      ((ground arith), tt)

free_first : m61_free 3 two_blocks 1040 ≡ freed (unlink (count_free two_blocks 1000) 1000)
unfolding m61_free find_block in_heap boundary_holds add_block
free_first = refl

m61_free-Removed_example :
    (boundary_holds two_blocks 1040 ≡ true)
    × Removed two_blocks (1000 ∷ 2000 ∷ []) 1000 (unlink (count_free two_blocks 1000) 1000)
m61_free-Removed_example =
    m61_free-Removed 3 two_blocks (1000 ∷ 2000 ∷ []) 1040 two_blocks-IsLinked (ground arith)
      free_first

second-Outside : Outside two_blocks.headers 2040 (1000 ∷ [])
unfolding add_block
second-Outside = (refl, tt)

second_in_heap : in_heap two_blocks.gstats 2040 ≡ true
unfolding in_heap add_block
second_in_heap = refl

second_intact : boundary_holds two_blocks 2040 ≡ true
unfolding boundary_holds add_block
second_intact = refl

m61_free-active_example :
    (m61_free 2 two_blocks 2040 ≡ freed (unlink (count_free two_blocks 2000) 2000))
    × IsLinked (unlink (count_free two_blocks 2000) 2000) (1000 ∷ [])
m61_free-active_example =
    m61_free-active 2 two_blocks 2000 (1000 ∷ []) [] two_blocks-IsLinked second-Outside
      (ground arith) (ground arith) second_in_heap second_intact

leaks-IsLinked_example :
    leaks 2 two_blocks.headers two_blocks.first_alloc
    ≡ map
        (λ b. ((two_blocks.headers b).payload_addr, (two_blocks.headers b).payload_size))
        (1000 ∷ 2000 ∷ [])
leaks-IsLinked_example = leaks-IsLinked two_blocks (1000 ∷ 2000 ∷ []) two_blocks-IsLinked

leaks_two : leaks 2 two_blocks.headers two_blocks.first_alloc ≡ (1040, 16) ∷ (2040, 8) ∷ []
unfolding leaks add_block
leaks_two = refl

request-holds_example :
    (meta_size + 16 + 8 ≤ request 16 ↔ (16 % 8 ≡ 0) × (16 + 48 < 2 ^ 64))
    × (16 % 8 ≡ 0 → 2 ^ 64 ≤ 16 + 48 → request 16 < meta_size)
request-holds_example = request-holds 16 (ground arith)

abbrev at_line : ℕ → ℕ → Hitter
at_line n total = record { total_pload_size = total; line_num = n; filename = some 0 }

-- The total at line 3 is negative.
abbrev unsorted : List Hitter
unsorted = at_line 1 5 ∷ at_line 2 70 ∷ at_line 3 (2 ^ 64 - 1) ∷ at_line 4 70 ∷ []

sort_unsorted :
    sortheavyhitters unsorted
    ≡ at_line 2 70 ∷ at_line 4 70 ∷ at_line 1 5 ∷ at_line 3 (2 ^ 64 - 1) ∷ []
unfolding sortheavyhitters sort_from sort_pass
sort_unsorted = refl

-- Of 200 bytes, 70 and 70 are more than 20%, and 5 are no more than 10%.
abbrev reported : Heap
reported = record empty_heap {
  gstats = record empty_heap.gstats { ntotal = 4; total_size = 200 };
  heavy_alloc = record tracked { hitters = at_line 1 5 ∷ at_line 2 70 ∷ at_line 4 70 ∷ [] };
}

-- The percentage, exactly.
abbrev above : ℕ → ℕ → ℕ → Bool
above part total limit = ltb (limit * total) (part * 100)

m61_printheavyhitters-SortedPrinted_example :
    let (bytes, counts, after) = m61_printheavyhitters above reported in
    SortedPrinted above 200 reported.heavy_alloc.hitters bytes after.heavy_alloc.hitters
    × SortedPrinted above 4 reported.heavy_freq.hitters counts after.heavy_freq.hitters
m61_printheavyhitters-SortedPrinted_example = m61_printheavyhitters-SortedPrinted above reported

report_test : (m61_printheavyhitters above reported).0 ≡ at_line 2 70 ∷ at_line 4 70 ∷ []
unfolding m61_printheavyhitters heavy_report heavy_lines sortheavyhitters sort_from sort_pass
report_test = refl
