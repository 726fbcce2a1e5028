-- ===== src/Kernel/Drawing.antt =====
-- Assign4/kernel.c: what the drawing of `exception` leaves, and when it comes to its end.
use systems_programming.Prelude.{
  ℕ, zero, suc, ◌+◌, ◌*◌, ◌<◌, ◌≡◌, refl, ap, sym, ◌∙◌, some, Option-cases, true, false, Bool-cases,
  inl, inr, arith, ◌==◌,
}
use mathlib.Core.Path.{ap₂, subst}
use systems_programming.Kernel.State.{
  PageInfo, Hardware, Kernel, Screen, Console, Animation, is_free,
}
use systems_programming.Kernel.CheckFrame.{SameTables}
use systems_programming.Kernel.Display.{
  page_color, show_page, show_pages, memshow_physical, address_color, show_address, show_addresses,
  virtual_rounds, memshow_virtual, choose_process, memshow_virtual_animate, show_memory,
}

module _ {Memory : Type 0} where
  abbrev pub drawn_on : Kernel Memory → Console → Animation → Kernel Memory
  drawn_on k c a = record k { animation = a; console = c }

  -- Nothing but the console and the animation changes.
  pub record Drawing (k shown : Kernel Memory) : Type 0 where
    pub console : Console
    pub animation : Animation
    pub result : shown ≡ drawn_on k console animation

module _ {Memory : Type 0} (hw : Hardware Memory) where
  pub show_memory-Drawing :
      (k shown : Kernel Memory) → show_memory hw k ≡ some shown → Drawing k shown
  unfolding show_memory
  show_memory-Drawing k shown e = elim (Option-cases (memshow_physical hw hw.screen k k.console)) [
    | inl n ↦ absurd (ground (arith, n, e))
    | inr (c, one) ↦ elim (Option-cases (memshow_virtual_animate hw hw.screen k k.animation c)) [
      | inl n ↦ absurd (ground (arith, one, n, e))
      | inr ((a, c'), two) ↦ record {
        console = c';
        animation = a;
        result = ground (arith, one, two, e);
      }
    ]
  ]

  -- Each page has a color; and the page table of each process that is not free is aligned, with a color
  -- for each page of the virtual memory: what is mapped there lies in physical memory.
  pub record Drawable (k : Kernel Memory) : Type 0 where
    pub physical :
        (pn : ℕ) → pn < hw.npages → (color : ℕ) × (page_color (k.pageinfo pn) ≡ some color)
    pub aligned :
        (q : ℕ)
        → q < hw.nproc
        → is_free (k.processes q).state ≡ false
        → ((k.processes q).pagetable == hw.pte_addr (k.processes q).pagetable) ≡ true
    pub mapped :
        (q i : ℕ)
        → q < hw.nproc
        → is_free (k.processes q).state ≡ false
        → i < virtual_rounds hw hw.screen
        → (color : ℕ) × (address_color hw hw.screen k (k.processes q).pagetable (i * hw.page_size)
            ≡ some color)

  show_pages-some :
      (screen : Screen) (k : Kernel Memory) (n pn : ℕ) (c : Console)
      → pn + n ≡ hw.npages
      → Drawable k
      → (c' : Console) × (show_pages hw screen k n pn c ≡ some c')
  unfolding show_pages show_page
  show_pages-some screen k zero pn c e d = (c, refl)
  show_pages-some screen k (suc n) pn c e d =
      let (color, at) = d.physical pn (omega (arith, e)) in
      rw (at, show_pages, show_page) (show_pages-some screen k n (pn + 1) _ (omega (arith, e)) d)

  show_addresses-some :
      (k : Kernel Memory) (q n i va : ℕ) (c : Console)
      → q < hw.nproc
      → is_free (k.processes q).state ≡ false
      → i + n ≡ virtual_rounds hw hw.screen
      → va ≡ i * hw.page_size
      → Drawable k
      → (c' : Console) × (show_addresses hw hw.screen k (k.processes q).pagetable n va c ≡ some c')
  unfolding show_addresses show_address address_color
  show_addresses-some k q zero i va c lt used e at d = (c, refl)
  show_addresses-some k q (suc n) i va c lt used e at d =
      let (color, colored) = d.mapped q i lt used (omega (arith, e)) in
      let here : address_color hw hw.screen k (k.processes q).pagetable va ≡ some color =
        ap (address_color hw hw.screen k (k.processes q).pagetable) at ∙ colored in
      rw (here, show_addresses, show_address)
        (show_addresses-some k q n (i + 1) (va + hw.page_size) _ lt used (omega (arith, e))
          (grind (arith, at)) d)

  animate-some :
      (k : Kernel Memory) (a : Animation) (c : Console)
      → 0 < hw.nproc
      → Drawable k
      → (shown : Animation × Console) × (memshow_virtual_animate hw hw.screen k a c ≡ some shown)
  unfolding memshow_virtual_animate memshow_virtual choose_process
  animate-some k a c pos d =
      let q = (choose_process hw k a).showing in
      let lt : q < hw.nproc = omega arith in
      elim (Bool-cases (is_free (k.processes q).state)) [
        | inl e ↦ rw (e, memshow_virtual_animate) (_, refl)
        | inr used ↦
            let (c', drawn) =
              show_addresses-some k q (virtual_rounds hw hw.screen) 0 0 (hw.screen.title_for q c) lt
                used (omega arith) (grind arith) d in
            rw (used, d.aligned q lt used, drawn, memshow_virtual_animate, memshow_virtual)
              (_, refl)
      ]

  pub show_memory-some :
      (k : Kernel Memory)
      → 0 < hw.nproc
      → Drawable k
      → (shown : Kernel Memory) × (show_memory hw k ≡ some shown)
  unfolding show_memory memshow_physical
  show_memory-some k pos d =
      let (c, one) =
        show_pages-some hw.screen k hw.npages 0 (hw.screen.title k.console) (omega arith) d in
      let (shown, two) = animate-some k k.animation c pos d in
      rw (one, two, show_memory, memshow_physical) (_, refl)

  address_color-same :
      (k k' : Kernel Memory) (pagetable va : ℕ)
      → SameTables hw k k'
      → address_color hw hw.screen k' pagetable va ≡ address_color hw hw.screen k pagetable va
  unfolding address_color
  address_color-same k k' pagetable va s =
      ap₂
        (λ pages contents.
          address_color hw hw.screen (record k { pageinfo = pages; memory = contents }) pagetable
            va)
        s.pages s.contents

  pub Drawable-same : (k k' : Kernel Memory) → SameTables hw k k' → Drawable k → Drawable k'
  Drawable-same k k' s d = record {
    physical = λ pn lt.
        subst (λ (pages : ℕ → PageInfo). (color : ℕ) × (page_color (pages pn) ≡ some color))
          (sym s.pages) (d.physical pn lt);
    aligned = λ q lt used.
        ap (λ t. t == hw.pte_addr t) (s.tables q)
        ∙ d.aligned q lt (ap is_free (sym (s.states q)) ∙ used);
    mapped = λ q i lt used at.
        let (color, at) = d.mapped q i lt (ap is_free (sym (s.states q)) ∙ used) at in
        (
          color,
          address_color-same k k' (k'.processes q).pagetable (i * hw.page_size) s
              ∙ ap (λ t. address_color hw hw.screen k t (i * hw.page_size)) (s.tables q)
              ∙ at,
        );
  }
