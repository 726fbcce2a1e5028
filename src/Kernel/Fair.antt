-- ===== src/Kernel/Fair.antt =====
-- Assign4/kernel.c: how long a process waits for its turn while processes yield.
use native.Mathlib.Nat.{mod-add-mod}
use systems_programming.Prelude.{
  ℕ, zero, suc, ◌+◌, ◌-◌, ◌%◌, ◌^◌, ◌≤◌, ◌<◌, ◌≡◌, ◌⊎◌, refl, sym, ap, ◌∙◌, true, false, inl, inr,
  ltb, arith, Bool-cases,
}
use systems_programming.Kernel.State.{
  Hardware, Kernel, Registers, sys_yield, timer, runnable, is_runnable,
}
use systems_programming.Kernel.RoundRobin.{schedule-total, distance, distance_lem, runs_at}
use systems_programming.Kernel.Check.{virtual_memory_check}
use systems_programming.Kernel.CheckFrame.{SameTables, virtual_memory_check-same}
use systems_programming.Kernel.Drawing.{
  Drawing, show_memory-Drawing, Drawable, Drawable-same, show_memory-some,
}
use mathlib.Core.Path.{subst}
use systems_programming.Kernel.Exception.{
  Outcome, resumes, spins, stops, save, dispatch, pick_next, finish_exception, exception,
}

-- A timer interrupt or sys_yield.
abbrev pub Yields : Registers → Type 0
Yields reg = (reg.intno ≡ timer) ⊎ (reg.intno ≡ sys_yield)

module _ {Memory : Type 0} (hw : Hardware Memory) where
  -- `n` exceptions after another, as `regs` lists them.
  unfoldable pub exceptions : (ℕ → Registers) → ℕ → Kernel Memory → Outcome Memory
  exceptions regs zero k = resumes k
  exceptions regs (suc n) k = elim (exception hw (regs 0) k) [
    | resumes k1 ↦ exceptions (λ i. regs (suc i)) n k1
    | spins k1 ↦ spins k1
    | stops s ↦ stops s
  ]

  -- Each process in its own slot, a current one of the table, tables that pass the check when an
  -- exception is taken, and memory that can be drawn.
  pub record Turns (k : Kernel Memory) : Type 0 where
    pub own_slot : (q : ℕ) → (k.processes q).pid ≡ q
    pub in_table : k.current < hw.nproc
    pub checked : virtual_memory_check hw k ≡ true
    pub drawable : Drawable hw k

  -- What a yield resumes: the nearest process that can run, with the tables as before.
  pub record Passes (k k' : Kernel Memory) : Type 0 where
    pub same : SameTables hw k k'
    pub steps : ℕ
    pub from_one : 1 ≤ steps
    pub nearest : (e : ℕ) → 1 ≤ e → e < steps → runs_at hw k k.current e ≡ false
    pub next : k'.current ≡ (k.current + steps) % hw.nproc

  save-same : (reg : Registers) (k : Kernel Memory) → SameTables hw k (save hw reg k)
  save-same reg k = record {
    states = λ q. ground arith;
    tables = λ q. ground arith;
    pids = λ q. ground arith;
    pages = refl;
    contents = refl;
  }

  Drawing-same :
      (reg : Registers) (k shown : Kernel Memory)
      → Drawing (save hw reg k) shown
      → SameTables hw k shown
  Drawing-same reg k shown d =
      subst (λ x. SameTables hw k x) (sym d.result)
        (record {
          states = λ q. ground arith;
          tables = λ q. ground arith;
          pids = λ q. ground arith;
          pages = refl;
          contents = refl;
        })

  -- The scheduler from a state with the tables of `k`.
  pick_next-Passes :
      (k s : Kernel Memory) (q : ℕ)
      → Turns k
      → SameTables hw k s
      → s.current ≡ k.current
      → q < hw.nproc
      → (k.processes q).state ≡ runnable
      → (k' : Kernel Memory) × (pick_next hw s ≡ resumes k') × Passes k k'
  unfolding pick_next
  pick_next-Passes k s q t same cur lt run =
      let own : (s.processes s.current).pid ≡ k.current =
        same.pids s.current ∙ t.own_slot s.current ∙ cur in
      let (k', e, p) =
        schedule-total hw s q (omega (arith, own, t.in_table)) lt (same.states q ∙ run) in
      (
        k',
        rw (e, pick_next) refl,
        record {
          same = record {
            states =
                λ j. ap (λ (x : Kernel Memory). (x.processes j).state) p.result ∙ same.states j;
            tables =
                λ j. ap (λ (x : Kernel Memory). (x.processes j).pagetable) p.result ∙ same.tables j;
            pids = λ j. ap (λ (x : Kernel Memory). (x.processes j).pid) p.result ∙ same.pids j;
            pages = ap (λ (x : Kernel Memory). x.pageinfo) p.result ∙ same.pages;
            contents = ap (λ (x : Kernel Memory). x.memory) p.result ∙ same.contents;
          };
          steps = p.steps;
          from_one = p.from_one;
          nearest = λ e lo hi.
              ap (λ n. is_runnable (k.processes ((n + e) % hw.nproc)).state) (sym own)
              ∙ ap is_runnable (sym (same.states (((s.processes s.current).pid + e) % hw.nproc)))
              ∙ p.nearest e lo hi;
          next =
              ap (λ (x : Kernel Memory). x.current) p.result
              ∙ ap (λ n. (n + p.steps) % hw.nproc) own;
        },
      )

  dispatched :
      (reg : Registers) (k s : Kernel Memory)
      → Yields reg
      → SameTables hw k s
      → s.current ≡ k.current
      → (s' : Kernel Memory) × (finish_exception hw (dispatch hw reg.intno reg s) ≡ pick_next hw s')
        × SameTables hw k s'
        × (s'.current ≡ k.current)
  unfolding dispatch finish_exception
  dispatched reg k s (inl e) same cur = (
    record s { ticks = (s.ticks + 1) % 2 ^ 32 },
    ap (λ i. finish_exception hw (dispatch hw i reg s)) e,
    record {
      states = same.states;
      tables = same.tables;
      pids = same.pids;
      pages = same.pages;
      contents = same.contents;
    },
    cur,
  )
  dispatched reg k s (inr e) same cur =
      (s, ap (λ i. finish_exception hw (dispatch hw i reg s)) e, same, cur)

  -- A yield passes the turn on.
  exception-Passes :
      (reg : Registers) (k : Kernel Memory) (q : ℕ)
      → Yields reg
      → Turns k
      → q < hw.nproc
      → (k.processes q).state ≡ runnable
      → (k' : Kernel Memory) × (exception hw reg k ≡ resumes k') × Passes k k'
  unfolding exception
  exception-Passes reg k q y t lt run =
      let saved = save hw reg k in
      let ok : virtual_memory_check hw saved ≡ true =
        virtual_memory_check-same hw k saved (save-same reg k) ∙ t.checked in
      let (shown, drawn) =
        show_memory-some hw saved (omega (arith, lt))
          (Drawable-same hw k saved (save-same reg k) t.drawable) in
      let d = show_memory-Drawing hw saved shown drawn in
      let (s, e, same, cur) =
        dispatched reg k shown y (Drawing-same reg k shown d)
          (ap (λ (x : Kernel Memory). x.current) d.result) in
      let (k', picked, passes) = pick_next-Passes k s q t same cur lt run in
      (k', rw (ok, drawn, exception) (e ∙ picked), passes)

  Passes-Turns : (k k' : Kernel Memory) → Turns k → Passes k k' → Turns k'
  Passes-Turns k k' t p = record {
    own_slot = λ q. p.same.pids q ∙ t.own_slot q;
    in_table = omega (arith, p.next, t.in_table);
    checked = virtual_memory_check-same hw k k' p.same ∙ t.checked;
    drawable = Drawable-same hw k k' p.same t.drawable;
  }

  -- A process that stands `d` places on has its turn after at most `d` yields.
  turn_within :
      (bound d q : ℕ) (regs : ℕ → Registers) (k : Kernel Memory)
      → d ≤ bound
      → 1 ≤ d
      → (k.current + d) % hw.nproc ≡ q
      → ((i : ℕ) → Yields (regs i))
      → Turns k
      → q < hw.nproc
      → (k.processes q).state ≡ runnable
      → (n : ℕ) × (n ≤ d)
        × (1 ≤ n)
        × ((k' : Kernel Memory) × (exceptions regs n k ≡ resumes k') × (k'.current ≡ q))
  unfolding exceptions
  turn_within zero d q regs k le lo at ys t lt run = absurd (omega arith)
  turn_within (suc bound) d q regs k le lo at ys t lt run =
      let (k1, e, p) = exception-Passes (regs 0) k q (ys 0) t lt run in
      elim (Bool-cases (ltb p.steps d)) [
        | inl less ↦
            let (n, hi, lo', (k', e', c)) =
              turn_within bound (d - p.steps) q (λ i. regs (suc i)) k1 (omega (arith, p.from_one))
                (ground (arith, less))
                (ap (λ x. (x + (d - p.steps)) % hw.nproc) p.next
                  ∙ mod-add-mod (k.current + p.steps) hw.nproc (d - p.steps)
                  ∙ ap (λ x. x % hw.nproc) (ground (arith, less))
                  ∙ at)
                (λ i. ys (suc i)) (Passes-Turns k k1 t p) lt (p.same.states q ∙ run) in
            (
              suc n,
              ground (arith, hi, less, p.from_one),
              omega arith,
              (k', rw (e, exceptions) e', c),
            )
        | inr more ↦ elim (Bool-cases (ltb d p.steps)) [
          | inl past ↦ absurd (
              ground (
                arith,
                p.nearest d lo (ground (arith, past)),
                ap (λ x. is_runnable (k.processes x).state) at,
                run,
              ))
          | inr same ↦ (
            1,
            lo,
            omega arith,
            (
              k1,
              rw (e, exceptions) refl,
              p.next ∙ ap (λ x. (k.current + x) % hw.nproc) (ground (arith, more, same)) ∙ at,
            ),
          )
        ]
      ]

  -- While the processes only yield or are interrupted by the timer, each runnable process of the table
  -- has a turn after at most a table's length of exceptions, whichever process runs now. Each process
  -- is in its own slot, the tables pass virtual_memory_check, and the memory can be drawn: each page
  -- has a color, and each process that is not free has an aligned page table that maps the
  -- virtual memory to physical pages with a color.
  pub exceptions-turn :
      (regs : ℕ → Registers) (k : Kernel Memory) (q : ℕ)
      → ((i : ℕ) → Yields (regs i))
      → Turns k
      → q < hw.nproc
      → (k.processes q).state ≡ runnable
      → (n : ℕ) × (n ≤ hw.nproc)
        × (1 ≤ n)
        × ((k' : Kernel Memory) × (exceptions regs n k ≡ resumes k') × (k'.current ≡ q))
  exceptions-turn regs k q ys t lt run =
      let (lo, hi, at) = distance_lem hw k.current q t.in_table lt in
      let (n, le, one, reached) =
        turn_within (distance hw k.current q) (distance hw k.current q) q regs k (omega arith) lo at
          ys t lt run in
      (n, omega (arith, le, hi), one, reached)
