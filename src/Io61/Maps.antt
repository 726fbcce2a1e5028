-- ===== src/Io61/Maps.antt =====
-- Assign2/io61.c: the list of mapped files.
use systems_programming.Prelude.{ℕ, zero, suc, Option, none, some, ◌==◌, if◌then◌else◌, update}
use systems_programming.Io61.State.{MemMap, Io}

abbrev pub set_map_next : (ℕ → MemMap) → ℕ → ℕ → ℕ → MemMap
set_map_next maps a v = update maps a (record (maps a) { next = v })

abbrev pub set_map_prev : (ℕ → MemMap) → ℕ → ℕ → ℕ → MemMap
set_map_prev maps a v = update maps a (record (maps a) { prev = v })

module _ {World : Type 0} where
  unfoldable pub insert_first : ℕ → Io World → Io World
  insert_first n s =
      let linked = set_map_prev (set_map_next s.maps n s.mmaphead) n 0 in
      record s {
        maps = if s.mmaphead == 0 then linked else set_map_prev linked s.mmaphead n;
        mmaphead = n;
      }

  unfoldable pub remove_mmap : ℕ → Io World → Io World
  remove_mmap n s =
      let next = (s.maps n).next in
      let after_next = if next == 0 then s.maps else set_map_prev s.maps next (s.maps n).prev in
      let prev = (after_next n).prev in
      record s {
        maps = if prev == 0 then after_next else set_map_next after_next prev (after_next n).next;
        mmaphead = if prev == 0 then (after_next n).next else s.mmaphead;
      }

-- `while (ptr != NULL)`; the outer `none` is a lack of fuel, the inner one NULL.
unfoldable pub search_in_list : ℕ → (ℕ → MemMap) → ℕ → ℕ → Option (Option ℕ)
search_in_list zero maps fd ptr = if ptr == 0 then some none else none
search_in_list (suc fuel) maps fd ptr =
    let rest = search_in_list fuel maps fd (maps ptr).next in
    if ptr == 0 then some none else if (maps ptr).fd == fd then some (some ptr) else rest
