-- ===== src/Kernel/Invariant.antt =====
-- Assign4/kernel.c: the invariant of the process table and the page owners between two exceptions.
use systems_programming.Prelude.{ℕ, ◌≡◌, ◌≢◌, sym, ap, ◌∙◌, ◌⊎◌, inl, inr, arith, Bool-cases}
use native.Mathlib.Decide.{ℕ_discrete}
use systems_programming.Kernel.State.{
  Hardware, Kernel, pid_owner, owner_eq, PageInfo, free, runnable, int8_above,
}
use systems_programming.Kernel.Ownership.{Physical, owner_eq→eq, owner_eq_refl}
use systems_programming.Kernel.Released.{Released}

module _ {Memory : Type 0} (hw : Hardware Memory) where
  -- Every process sits in its own slot, slot 0 is free, and a process that owns a physical page is
  -- in use. (`virtual_memory_check` asserts the last two.)
  pub record Orderly (k : Kernel Memory) : Type 0 where
    pub own_slot : (i : ℕ) → (k.processes i).pid ≡ i
    pub zero_free : (k.processes 0).state ≡ free
    pub owners :
        (j q : ℕ)
        → Physical hw j
        → (k.pageinfo j).owner ≡ pid_owner q
        → q ≢ 0
        → (k.processes q).state ≢ free

  -- The same, but for the pages of one process: a child whose fork is under way.
  pub record OrderlyBut (slot : ℕ) (k : Kernel Memory) : Type 0 where
    pub own_slot : (i : ℕ) → (k.processes i).pid ≡ i
    pub zero_free : (k.processes 0).state ≡ free
    pub owners :
        (j q : ℕ)
        → Physical hw j
        → (k.pageinfo j).owner ≡ pid_owner q
        → q ≢ 0
        → q ≢ slot
        → (k.processes q).state ≢ free

  pub Orderly-but : (slot : ℕ) (k : Kernel Memory) → Orderly k → OrderlyBut slot k
  Orderly-but slot k o = record {
    own_slot = o.own_slot;
    zero_free = o.zero_free;
    owners = λ j q h own nz ne. o.owners j q h own nz;
  }

  -- A page that somebody owns afterwards: its owner is not `slot`, and is as before or runnable.
  Released-owner :
      (k : Kernel Memory) (slot : ℕ) (k' : Kernel Memory) (j q : ℕ)
      → Released hw k slot k'
      → Physical hw j
      → (k'.pageinfo j).owner ≡ pid_owner q
      → q ≢ 0
      → (q ≢ slot) × (((k.pageinfo j).owner ≡ pid_owner q) ⊎ ((k.processes q).state ≡ runnable))
  Released-owner k slot k' j q r h own nz = (
    (λ e. r.disowned j h (own ∙ ap pid_owner e)),
    elim (Bool-cases (owner_eq (k.pageinfo j).owner (pid_owner slot))) [
      | inr other ↦ inl (
          sym (
            ap (λ (i : PageInfo). i.owner)
              (r.kept j (λ e. ground (arith, other, e, owner_eq_refl slot))))
          ∙ own)
      | inl mine ↦
          let e = owner_eq→eq (k.pageinfo j).owner (pid_owner slot) mine in
          elim (Bool-cases (int8_above 1 (k.pageinfo j).refcount)) [
            | inl above ↦ ground (arith, r.shared j h e above)
            | inr below ↦ elim (ℕ_discrete (k.pageinfo j).refcount 1) [
              | yes one ↦ ground (arith, r.freed j h e one)
              | no ne ↦ ground (arith, r.stale j h e below ne)
            ]
          ]
    ],
  )

  Released-own_slot :
      (k : Kernel Memory) (slot : ℕ) (k' : Kernel Memory)
      → ((i : ℕ) → (k.processes i).pid ≡ i)
      → Released hw k slot k'
      → (i : ℕ) → (k'.processes i).pid ≡ i
  Released-own_slot k slot k' own r i = elim (ℕ_discrete i slot) [
    | yes e ↦ rw (e, r.slot_free) (own slot)
    | no ne ↦ rw (r.others i ne) (own i)
  ]

  -- Giving back the pages of a process leaves the table orderly.
  pub Released-Orderly :
      (k : Kernel Memory) (slot : ℕ) (k' : Kernel Memory)
      → slot ≢ 0
      → OrderlyBut slot k
      → Released hw k slot k'
      → Orderly k'
  Released-Orderly k slot k' nz o r = record {
    own_slot = Released-own_slot k slot k' o.own_slot r;
    zero_free = rw (r.others 0 (λ z. nz (sym z))) o.zero_free;
    owners = λ j q h own qnz f.
        let (ne, before) = Released-owner k slot k' j q r h own qnz in
        let was : (k.processes q).state ≡ free = rw (← r.others q ne) f in
        elim before [ inl same ↦ o.owners j q h same qnz ne was | inr run ↦ ground arith ];
  }
