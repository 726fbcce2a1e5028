-- ===== src/Kernel/Display.antt =====
-- Assign4/kernel.c: memshow_physical, memshow_virtual and memshow_virtual_animate, on the console of
-- the kernel's state.
use Prim.Native.Nat.{bit_and, bit_or}
use systems_programming.Prelude.{
  ℕ, zero, suc, ◌+◌, ◌-◌, ◌*◌, ◌/◌, ◌%◌, ◌^◌, ◌&&◌, ◌||◌, Option, none, some, List, [], ◌∷◌, ◌==◌,
  ltb, leb, if◌then◌else◌, update, get_elem?,
}
use systems_programming.Kernel.State.{
  Hardware, Kernel, Owner, reserved, kernel_owned, pid_owner, po_free, PageInfo, int8_above,
  is_free, Console, Screen, Animation,
}

abbrev pub memstate_colors : List ℕ
memstate_colors =
    (b'K' + 0x0D00)
    ∷ (b'R' + 0x0700)
    ∷ (b'.' + 0x0700)
    ∷ (b'1' + 0x0C00)
    ∷ (b'2' + 0x0A00)
    ∷ (b'3' + 0x0900)
    ∷ (b'4' + 0x0E00)
    ∷ (b'5' + 0x0F00)
    ∷ (b'6' + 0x0C00)
    ∷ (b'7' + 0x0A00)
    ∷ (b'8' + 0x0900)
    ∷ (b'9' + 0x0E00)
    ∷ (b'A' + 0x0F00)
    ∷ (b'B' + 0x0C00)
    ∷ (b'C' + 0x0A00)
    ∷ (b'D' + 0x0900)
    ∷ (b'E' + 0x0E00)
    ∷ (b'F' + 0x0F00)
    ∷ []

-- owner - PO_KERNEL
abbrev pub color_index : Owner → ℕ
color_index kernel_owned = 0
color_index reserved = 1
color_index (pid_owner q) = q + 2

-- The color of the owner; `none` past the end of the array.
unfoldable pub owner_color : PageInfo → Option ℕ
owner_color info =
    get_elem? memstate_colors (color_index (if info.refcount == 0 then po_free else info.owner))

-- A darker color for a shared page.
abbrev pub darken : PageInfo → ℕ → ℕ
darken info color = if int8_above 1 info.refcount then bit_and color 0x77FF else color

-- Reverse video, in 16 bits.
abbrev pub reverse_video : ℕ → ℕ
reverse_video color =
    bit_or (bit_or (bit_and color 0x0F00 * 16) (bit_and color 0xF000 / 16)) (bit_and color 0x00FF)

unfoldable pub page_color : PageInfo → Option ℕ
page_color info = elim (owner_color info) [ none ↦ none | some color ↦ some (darken info color) ]

-- The start of the machine.
unfoldable pub first_animation : Animation
first_animation = record { last_ticks = 0; showing = 1 }

module _ (screen : Screen) where
  -- console[CPOS(row + pn / 64, 12 + pn % 64)]
  abbrev pub cell : ℕ → ℕ → ℕ
  cell row pn = screen.cpos (row + pn / 64) (12 + pn % 64)

  abbrev pub with_label : ℕ → ℕ → ℕ → Console → Console
  with_label row pn n c = if pn % 64 == 0 then screen.label (row + pn / 64) n c else c

  abbrev pub put_color : ℕ → Option ℕ → Console → Option Console
  put_color at none c = none
  put_color at (some color) c = some (update c at color)

module _ {Memory : Type 0} (hw : Hardware Memory) where
  -- A new process every HZ / 2 ticks; the counter of ticks wraps around.
  unfoldable pub next_process : Kernel Memory → Animation → Animation
  next_process k a =
      if a.last_ticks == 0 || leb 50 ((k.ticks + (2 ^ 32 - a.last_ticks)) % 2 ^ 32)
      then record { last_ticks = k.ticks; showing = a.showing + 1 }
      else a

  -- `while (showing <= 2*NPROC && processes[showing % NPROC].p_state == P_FREE)`
  unfoldable pub skip_free : Kernel Memory → ℕ → ℕ → ℕ
  skip_free k zero showing = showing
  skip_free k (suc fuel) showing =
      let rest = skip_free k fuel (showing + 1) in
      if leb showing (2 * hw.nproc) && is_free (k.processes (showing % hw.nproc)).state
      then rest
      else showing

  -- Each round adds one, so 2 * NPROC + 1 are enough.
  unfoldable pub choose_process : Kernel Memory → Animation → Animation
  choose_process k a =
      let next = next_process k a in
      record next { showing = skip_free k (2 * hw.nproc + 1) next.showing % hw.nproc }

module _ {Memory : Type 0} (hw : Hardware Memory) (screen : Screen) where
  unfoldable pub show_page : Kernel Memory → ℕ → Console → Option Console
  show_page k pn c =
      put_color screen (cell screen 1 pn) (page_color (k.pageinfo pn))
        (with_label screen 1 pn (pn * 4096) c)

  unfoldable pub show_pages : Kernel Memory → ℕ → ℕ → Console → Option Console
  show_pages k zero pn c = some c
  show_pages k (suc n) pn c = elim (show_page k pn c) [
    | none ↦ none
    | some c' ↦ show_pages k n (pn + 1) c'
  ]

  -- `none` is a read past the end of the colors.
  unfoldable pub memshow_physical : Kernel Memory → Console → Option Console
  memshow_physical k c = show_pages k hw.npages 0 (screen.title c)

  -- The color of a virtual page; `none` is a failed assertion or a read past the end of the colors.
  unfoldable pub address_color : Kernel Memory → ℕ → ℕ → Option ℕ
  address_color k pagetable va =
      let vam = hw.lookup k.memory pagetable va in
      elim vam.pn [
        | none ↦ some b' '
        | some pn ↦
            if ltb vam.pa hw.memsize_physical
            then elim (owner_color (k.pageinfo pn)) [
              | none ↦ none
              | some color ↦ some (
                  darken (k.pageinfo pn)
                    (if bit_and vam.perm hw.pte_u == 0 then color else reverse_video color))
            ]
            else none
      ]

  unfoldable pub show_address : Kernel Memory → ℕ → ℕ → Console → Option Console
  show_address k pagetable va c =
      let pn = hw.page_number va in
      elim (address_color k pagetable va) [
        | none ↦ none
        | some color ↦
            put_color screen (cell screen 11 pn) (some color) (with_label screen 11 pn va c)
      ]

  unfoldable pub show_addresses : Kernel Memory → ℕ → ℕ → ℕ → Console → Option Console
  show_addresses k pagetable zero va c = some c
  show_addresses k pagetable (suc n) va c = elim (show_address k pagetable va c) [
    | none ↦ none
    | some c' ↦ show_addresses k pagetable n (va + hw.page_size) c'
  ]

  -- The rounds of the loop over the virtual addresses.
  unfoldable pub virtual_rounds : ℕ
  virtual_rounds = (hw.memsize_virtual + hw.page_size - 1) / hw.page_size

  unfoldable pub memshow_virtual : Kernel Memory → ℕ → ℕ → Console → Option Console
  memshow_virtual k pagetable name c =
      if pagetable == hw.pte_addr pagetable
      then show_addresses k pagetable virtual_rounds 0 (screen.title_for name c)
      else none

  unfoldable pub memshow_virtual_animate :
      Kernel Memory → Animation → Console → Option (Animation × Console)
  memshow_virtual_animate k a c =
      let chosen = choose_process hw k a in
      let p = k.processes chosen.showing in
      if is_free p.state
      then some (chosen, c)
      else elim (memshow_virtual k p.pagetable chosen.showing c) [
        | none ↦ none
        | some c' ↦ some (chosen, c')
      ]

module _ {Memory : Type 0} (hw : Hardware Memory) where
  -- memshow_physical(); memshow_virtual_animate(); as `exception` calls them.
  unfoldable pub show_memory : Kernel Memory → Option (Kernel Memory)
  show_memory k = elim (memshow_physical hw hw.screen k k.console) [
    | none ↦ none
    | some c ↦ elim (memshow_virtual_animate hw hw.screen k k.animation c) [
      | none ↦ none
      | some (a, c') ↦ some (record k { animation = a; console = c' })
    ]
  ]
