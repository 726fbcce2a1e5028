-- ===== src/M61/Malloc.antt =====
-- Assign1/m61.c: `m61_malloc`. `malloc` is what the C library's malloc answers to a size, 0 for NULL.
use systems_programming.Prelude.{
  add64, ℕ, ◌-◌, ◌^◌, ◌%◌, not, ◌&&◌, ◌||◌, ◌==◌, ltb, if◌then◌else◌, update, some, none, Option,
  ◌*◌, ◌/◌,
}
use systems_programming.M61.State.{Stats, Meta, meta_size, Heap, size_max, set_next}
use systems_programming.M61.Hitters.{trackheavyhitters}

unfoldable pub aligned_size : ℕ → ℕ
aligned_size sz = if sz % 8 == 0 then add64 sz 8 else add64 sz (8 - sz % 8)

-- The size that malloc is asked for.
abbrev pub request : ℕ → ℕ
request sz = add64 (aligned_size sz) meta_size

abbrev pub count_alloc : Stats → ℕ → Stats
count_alloc s sz = record s {
  ntotal = add64 s.ntotal 1;
  nactive = add64 s.nactive 1;
  total_size = add64 s.total_size sz;
  active_size = add64 s.active_size sz;
}

abbrev pub count_failure : Stats → ℕ → Stats
count_failure s sz = record s { nfail = add64 s.nfail 1; fail_size = add64 s.fail_size sz }

abbrev pub widen : Stats → ℕ → ℕ → Stats
widen s low high = record s {
  heap_min = if s.heap_min == 0 || ltb low s.heap_min then low else s.heap_min;
  heap_max = if s.heap_max == 0 || ltb s.heap_max high then high else s.heap_max;
}

-- The header of the new block, linked behind `curr_alloc`.
abbrev pub link : Heap → ℕ → Meta → ℕ → Meta
link h block m =
    let written = update h.headers block m in
    if h.curr_alloc == 0 then written else set_next written h.curr_alloc block

abbrev pub new_header : Heap → ℕ → ℕ → ℕ → ℕ → Meta
new_header h block sz file line = record {
  payload_size = sz % 2 ^ 32;
  line_num = line;
  filename = file;
  prev_addr = h.curr_alloc;
  next_addr = 0;
  payload_addr = add64 block meta_size;
}

unfoldable pub add_block : Heap → ℕ → ℕ → ℕ → ℕ → Heap
add_block h block sz file line =
    let payload = add64 block meta_size in
    record {
      gstats = widen (count_alloc h.gstats sz) block (add64 payload sz);
      heavy_alloc = trackheavyhitters h.heavy_alloc sz file line;
      heavy_freq = trackheavyhitters h.heavy_freq 1 file line;
      first_alloc = if h.first_alloc == 0 then block else h.first_alloc;
      curr_alloc = block;
      headers = link h block (new_header h block sz file line);
      words = update h.words (add64 payload sz) payload;
    }

unfoldable pub m61_malloc : (ℕ → ℕ) → Heap → ℕ → ℕ → ℕ → ℕ × Heap
m61_malloc malloc h sz file line =
    let block = malloc (request sz) in
    if ltb sz (size_max - meta_size) && not (block == 0)
    then (add64 block meta_size, add_block h block sz file line)
    else (0, record h { gstats = count_failure h.gstats sz })

-- `nmemb` 0 divides by zero: `none`.
unfoldable pub m61_calloc : (ℕ → ℕ) → Heap → ℕ → ℕ → ℕ → ℕ → Option (ℕ × Heap)
m61_calloc malloc h nmemb sz file line =
    if nmemb == 0
    then none
    else if ltb sz (size_max / nmemb)
    then some (m61_malloc malloc h (nmemb * sz % 2 ^ 64) file line)
    else some (0, record h { gstats = record h.gstats { nfail = add64 h.gstats.nfail 1 } })
