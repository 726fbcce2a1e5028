-- ===== src/M61/Hitters.antt =====
-- Assign1/m61.c, `trackheavyhitters` and `sortheavyhitters`.
use systems_programming.Prelude.{
  add64, sign_extend, ℕ, zero, suc, ◌+◌, ◌^◌, ◌%◌, Bool, false, ◌&&◌, ◌||◌, Option, none, some,
  List, [], ◌∷◌, ◌==◌, ltb, leb, if◌then◌else◌, length,
}
use systems_programming.M61.State.{Hitter, Tracked}

-- `total - bias <= 0`, that is total <= bias as signed numbers
unfoldable pub is_used_up : ℕ → Hitter → Bool
is_used_up bias h =
    leb ((h.total_pload_size + 2 ^ 63) % 2 ^ 64) ((sign_extend bias + 2 ^ 63) % 2 ^ 64)

-- The line number first, then strcmp of the file names.
unfoldable pub is_at : ℕ → ℕ → Hitter → Bool
is_at file line h = h.line_num == line && elim h.filename [ none ↦ false | some f ↦ f == file ]

-- The elements at the place have `sz` added.
unfoldable pub add_size : ℕ → ℕ → ℕ → List Hitter → List Hitter
add_size sz file line [] = []
add_size sz file line (h ∷ hs) =
    let rest = add_size sz file line hs in
    if is_at file line h
    then record h { total_pload_size = add64 h.total_pload_size sz } ∷ rest
    else h ∷ rest

unfoldable pub has_place : ℕ → ℕ → List Hitter → Bool
has_place file line [] = false
has_place file line (h ∷ hs) = is_at file line h || has_place file line hs

-- The first used-up element is overwritten; `none` if there is none (`empty_c == -1`).
unfoldable pub replace_first : ℕ → Hitter → List Hitter → Option (List Hitter)
replace_first bias new [] = none
replace_first bias new (h ∷ hs) =
    let rest = replace_first bias new hs in
    if is_used_up bias h
    then some (new ∷ hs)
    else elim rest [ none ↦ none | some hs' ↦ some (h ∷ hs') ]

unfoldable pub trackheavyhitters : Tracked → ℕ → ℕ → ℕ → Tracked
trackheavyhitters t sz file line =
    if has_place file line t.hitters
    then record t { hitters = add_size sz file line t.hitters }
    else elim (replace_first t.neg_bias
        (record { total_pload_size = sz; line_num = line; filename = some file }) t.hitters) [
          | none ↦ record t { neg_bias = (t.neg_bias + sz) % 2 ^ 32 }
          | some hs ↦ record t { hitters = hs }
        ]

-- Signed comparison of two totals.
abbrev pub less_total : Hitter → Hitter → Bool
less_total a b =
    ltb ((a.total_pload_size + 2 ^ 63) % 2 ^ 64) ((b.total_pload_size + 2 ^ 63) % 2 ^ 64)

-- The inner loop, for `j` over the elements behind `i`: the element left at `i`, and those behind.
unfoldable pub sort_pass : Hitter → List Hitter → Hitter × List Hitter
sort_pass x [] = (x, [])
sort_pass x (y ∷ ys) =
    let (top, rest) = sort_pass (if less_total x y then y else x) ys in
    (top, (if less_total x y then x else y) ∷ rest)

-- The outer loop, over the elements not yet in place.
unfoldable pub sort_from : ℕ → List Hitter → List Hitter
sort_from zero hs = hs
sort_from (suc n) [] = []
sort_from (suc n) (x ∷ xs) = let (top, rest) = sort_pass x xs in top ∷ sort_from n rest

unfoldable pub sortheavyhitters : List Hitter → List Hitter
sortheavyhitters hs = sort_from (length hs) hs
