-- ===== src/Kernel/Shown.antt =====
-- Assign4/kernel.c: what the pictures of memory show, and of which process.
use native.Mathlib.Nat.{mod-lt, mod-eq_of_lt, add-mod_right}
use systems_programming.Prelude.{
  ℕ, zero, suc, ◌+◌, ◌*◌, ◌/◌, ◌%◌, ◌^◌, ◌<◌, ◌≤◌, ◌≡◌, get_elem?, if◌then◌else◌, Option-cases, ◌⊎◌,
  refl, sym, ap, ◌∙◌, true, false, ◌&&◌, Option, none, some, ◌==◌, ltb, leb, update, arith,
  Bool-cases, inl, inr,
}
use Prim.Native.Nat.{bit_and}
use systems_programming.Kernel.State.{
  Hardware, Kernel, Owner, reserved, kernel_owned, pid_owner, po_free, PageInfo, is_free, Console,
  Screen, Animation,
}
use systems_programming.Kernel.Display.{
  memstate_colors, color_index, owner_color, page_color, cell, with_label, put_color, show_page,
  show_pages, memshow_physical, next_process, skip_free, choose_process,
}

module _ {Memory : Type 0} (hw : Hardware Memory) where
  -- Where the loop stops: at a process that is not free, or past 2 * NPROC.
  pub record Stopped (k : Kernel Memory) (from s : ℕ) : Type 0 where
    pub from_on : from ≤ s
    pub passed : (j : ℕ) → from ≤ j → j < s → is_free (k.processes (j % hw.nproc)).state ≡ true
    pub stops : (is_free (k.processes (s % hw.nproc)).state ≡ false) ⊎ (2 * hw.nproc < s)

  skip_free-Stopped :
      (k : Kernel Memory) (fuel s : ℕ)
      → 2 * hw.nproc < fuel + s
      → Stopped k s (skip_free hw k fuel s)
  unfolding skip_free
  skip_free-Stopped k zero s lt = record {
    from_on = omega arith;
    passed = λ j lo hi. absurd (omega (arith, lo, hi));
    stops = inr (omega (arith, lt));
  }
  skip_free-Stopped k (suc fuel) s lt =
      elim (Bool-cases (leb s (2 * hw.nproc) && is_free (k.processes (s % hw.nproc)).state)) [
        | inl more ↦
            let rest = skip_free-Stopped k fuel (s + 1) (omega (arith, lt)) in
            rw (more, skip_free)
              (record {
                from_on = omega (arith, rest.from_on);
                passed = λ j lo hi. elim (Bool-cases (j == s)) [
                  | inl at ↦
                      let same : j ≡ s = ground (arith, at) in
                      ap (λ x. is_free (k.processes (x % hw.nproc)).state) same
                      ∙ ground (arith, more)
                  | inr off ↦ rest.passed j (ground (arith, off, lo)) hi
                ];
                stops = rest.stops;
              })
        | inr done ↦
            rw (done, skip_free)
              (record {
                from_on = omega arith;
                passed = λ j lo hi. absurd (omega (arith, lo, hi));
                stops = elim (Bool-cases (ltb (2 * hw.nproc) s)) [
                  | inl past ↦ inr (ground (arith, past))
                  | inr within ↦ inl (ground (arith, done, within))
                ];
              })
      ]

  near_start :
      (k : Kernel Memory) (a : Animation)
      → a.showing < hw.nproc
      → (next_process hw k a).showing ≤ hw.nproc
  unfolding next_process
  near_start k a lt = ground (arith, lt)

  -- From a process of the table on, the process that memshow_virtual_animate chooses is one of the
  -- table, and it is not free unless every process is.
  pub choose_process-shows :
      (k : Kernel Memory) (a : Animation) (q : ℕ)
      → a.showing < hw.nproc
      → q < hw.nproc
      → is_free (k.processes q).state ≡ false
      → let s = (choose_process hw k a).showing in
        (s < hw.nproc) × (is_free (k.processes s).state ≡ false)
  unfolding choose_process
  choose_process-shows k a q lt q_lt used =
      let from = (next_process hw k a).showing in
      let near : from ≤ hw.nproc = near_start k a lt in
      let p = skip_free-Stopped k (2 * hw.nproc + 1) from (omega arith) in
      (
        mod-lt (skip_free hw k (2 * hw.nproc + 1) from) (omega (arith, q_lt)),
        elim p.stops [
          | inl found ↦ found
          | inr past ↦
              let at : (q + hw.nproc) % hw.nproc ≡ q =
                add-mod_right q hw.nproc ∙ mod-eq_of_lt q_lt in
              let free : is_free (k.processes q).state ≡ true =
                ap (λ x. is_free (k.processes x).state) (sym at)
                ∙ p.passed (q + hw.nproc) (omega (arith, near)) (omega (arith, past, q_lt)) in
              absurd (ground (arith, used, free))
        ],
      )

-- The place of an owner in the array of colors: the kernel, reserved memory, free memory, and the
-- processes from 1 on. A page with no reference is drawn as free.
abbrev place : Owner → ℕ
place kernel_owned = 0
place reserved = 1
place (pid_owner q) = 2 + q

abbrev place_of : PageInfo → ℕ
place_of info = if info.refcount == 0 then 2 else place info.owner

abbrev pub NoColor : PageInfo → Type 0
NoColor info = get_elem? memstate_colors (place_of info) ≡ none

-- The color of the page's owner; where the page has more than one reference, without the bits for
-- bright colors. A reference count is a signed byte.
abbrev pub Drawn : PageInfo → ℕ → Type 0
Drawn info drawn =
    (color : ℕ) × (get_elem? memstate_colors (place_of info) ≡ some color)
    × (drawn
        ≡ (if ltb 1 info.refcount && ltb info.refcount 128 then bit_and color 0x77FF else color))

owner_color-place : (info : PageInfo) → owner_color info ≡ get_elem? memstate_colors (place_of info)
unfolding owner_color
owner_color-place info = ap (get_elem? memstate_colors) (same info.owner)
  where
    same :
        (o : Owner)
        → color_index (if info.refcount == 0 then po_free else o)
          ≡ (if info.refcount == 0 then 2 else place o)
    same kernel_owned = ground arith
    same reserved = ground arith
    same (pid_owner q) = ground arith

page_color-none : (info : PageInfo) → page_color info ≡ none → NoColor info
unfolding page_color
page_color-none info e = sym (owner_color-place info) ∙ ground (arith, e)

page_color-some : (info : PageInfo) {drawn : ℕ} → page_color info ≡ some drawn → Drawn info drawn
unfolding page_color
page_color-some info {drawn} e = elim (Option-cases (owner_color info)) [
  | inl n ↦ absurd (ground (arith, e, n))
  | inr (color, n) ↦ (color, sym (owner_color-place info) ∙ n, ground (arith, e, n))
]

-- What CPOS and console_printf do: two columns of the console of 80 are the same cell only if they are,
-- and a label of six digits stays in the columns up to 11 of its row.
pub record ScreenLaws (screen : Screen) : Type 0 where
  pub cells :
      (r c r' c' : ℕ) → c < 80 → c' < 80 → screen.cpos r c ≡ screen.cpos r' c' → (r ≡ r') × (c ≡ c')
  pub labels :
      (row n r c : ℕ) (con : Console)
      → n < 2 ^ 24
      → 12 ≤ c
      → c < 80
      → screen.label row n con (screen.cpos r c) ≡ con (screen.cpos r c)

module _ {Memory : Type 0} (hw : Hardware Memory) (screen : Screen) (laws : ScreenLaws screen) where
  cell-injective : (row i j : ℕ) → cell screen row i ≡ cell screen row j → i ≡ j
  cell-injective row i j e =
      let (rows, columns) =
        laws.cells (row + i / 64) (12 + i % 64) (row + j / 64) (12 + j % 64) (omega arith)
          (omega arith) e in
      omega (arith, rows, columns)

  with_label-cell :
      (row pn n j : ℕ) (c : Console)
      → n < 2 ^ 24
      → with_label screen row pn n c (cell screen row j) ≡ c (cell screen row j)
  with_label-cell row pn n j c lt = elim (Bool-cases (pn % 64 == 0)) [
    | inl first ↦ rw first (
        laws.labels (row + pn / 64) n (row + j / 64) (12 + j % 64) c lt (omega arith) (omega arith))
    | inr off ↦ rw off refl
  ]

  -- The pages from `pn` on have their colors, and those before it are as in `c`; or some page has none.
  abbrev ShownFrom : Kernel Memory → ℕ → ℕ → Console → Option Console → Type 0
  ShownFrom k n pn c none = (j : ℕ) × (j < pn + n) × (page_color (k.pageinfo j) ≡ none)
  ShownFrom k n pn c (some c') =
      ((j : ℕ) → pn ≤ j → j < pn + n → page_color (k.pageinfo j) ≡ some (c' (cell screen 1 j)))
      × ((j : ℕ) → j < pn → c' (cell screen 1 j) ≡ c (cell screen 1 j))

  ShownFrom-page :
      (k : Kernel Memory) (n pn color : ℕ) (c : Console) (out : Option Console)
      → pn * 4096 < 2 ^ 24
      → page_color (k.pageinfo pn) ≡ some color
      → ShownFrom k n
          (pn + 1)
          (update (with_label screen 1 pn (pn * 4096) c) (cell screen 1 pn) color)
          out
      → ShownFrom k (suc n) pn c out
  ShownFrom-page k n pn color c none small e (j, lt, h) = (j, omega (arith, lt), h)
  ShownFrom-page k n pn color c (some c') small e (shown, before) = (
    (λ j lo hi. elim (Bool-cases (j == pn)) [
      | inl at ↦
          let same : j ≡ pn = ground (arith, at) in
          let last : c' (cell screen 1 j) ≡ color =
            ap (λ x. c' (cell screen 1 x)) same ∙ before pn (omega arith) ∙ ground arith in
          ap (λ x. page_color (k.pageinfo x)) same ∙ e ∙ ap some (sym last)
      | inr off ↦ shown j (ground (arith, off, lo)) (omega (arith, hi))
    ]),
    λ j lt.
        let other : (cell screen 1 pn == cell screen 1 j) ≡ false =
          ground (arith, cell-injective 1 pn j, lt) in
        before j (omega (arith, lt)) ∙ rw other (with_label-cell 1 pn (pn * 4096) j c small),
  )

  -- A round of the loop, with what the rounds behind it come to.
  ShownFrom-round :
      (k : Kernel Memory) (n pn : ℕ) (c : Console) (o : Option ℕ) (next : Console → Option Console)
      → pn * 4096 < 2 ^ 24
      → page_color (k.pageinfo pn) ≡ o
      → ((c' : Console) → ShownFrom k n (pn + 1) c' (next c'))
      → ShownFrom k
          (suc n)
          pn
          c
          (elim (put_color screen (cell screen 1 pn) o (with_label screen 1 pn (pn * 4096) c)) [
            | none ↦ none
            | some c' ↦ next c'
          ])
  ShownFrom-round k n pn c none next small e h = (pn, omega arith, e)
  ShownFrom-round k n pn c (some color) next small e h =
      let c' = update (with_label screen 1 pn (pn * 4096) c) (cell screen 1 pn) color in
      ShownFrom-page k n pn color c (next c') small e (h c')

  show_pages-ShownFrom :
      (k : Kernel Memory) (n pn : ℕ) (c : Console)
      → pn + n ≤ 4096
      → ShownFrom k n pn c (show_pages hw screen k n pn c)
  unfolding show_pages show_page
  show_pages-ShownFrom k zero pn c le = ((λ j lo hi. absurd (omega (arith, lo, hi))), λ j lt. refl)
  show_pages-ShownFrom k (suc n) pn c le =
      ShownFrom-round k n pn c (page_color (k.pageinfo pn)) (show_pages hw screen k n (pn + 1))
        (omega (arith, le)) refl (λ c'. show_pages-ShownFrom k n (pn + 1) c' (omega (arith, le)))

  -- What the picture of physical memory comes to.
  abbrev pub Shown : Kernel Memory → Option Console → Type 0
  Shown k none = (j : ℕ) × (j < hw.npages) × NoColor (k.pageinfo j)
  Shown k (some c) = (j : ℕ) → j < hw.npages → Drawn (k.pageinfo j) (c (cell screen 1 j))

  Shown-from :
      (k : Kernel Memory) (c : Console) (out : Option Console)
      → ShownFrom k hw.npages 0 c out
      → Shown k out
  Shown-from k c none (j, lt, e) = (j, omega (arith, lt), page_color-none (k.pageinfo j) e)
  Shown-from k c (some c') (shown, before) =
      λ j lt. page_color-some (k.pageinfo j) (shown j (omega arith) (omega (arith, lt)))

  -- With up to 4096 pages, whatever was on the console: behind memshow_physical the cell of each page
  -- has the color of its owner, without the bits 0x8800 where the page is shared; or the array of colors is read past
  -- its end, and then some page has an owner with no color.
  pub memshow_physical-Shown :
      (k : Kernel Memory) (c : Console)
      → hw.npages ≤ 4096
      → Shown k (memshow_physical hw screen k c)
  unfolding memshow_physical
  memshow_physical-Shown k c le =
      Shown-from k (screen.title c) (show_pages hw screen k hw.npages 0 (screen.title c))
        (show_pages-ShownFrom k hw.npages 0 (screen.title c) (omega (arith, le)))
