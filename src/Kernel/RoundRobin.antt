-- ===== src/Kernel/RoundRobin.antt =====
-- Assign4/kernel.c, `schedule`: which process the scheduler picks, and that it picks one.
use native.Mathlib.Nat.{mod-add-mod, mod-eq_of_lt, add-mod_right}
use systems_programming.Prelude.{
  ℕ, zero, suc, ◌+◌, ◌-◌, ◌%◌, ◌≤◌, ◌<◌, ◌≡◌, refl, sym, ap, ◌∙◌, Bool, true, false, none, some,
  inl, inr, if◌then◌else◌, ltb, arith, Bool-cases, Option-cases,
}
use systems_programming.Kernel.State.{Hardware, Kernel, is_runnable, runnable}
use systems_programming.Kernel.Schedule.{run, schedule_from, schedule}

module _ {Memory : Type 0} (hw : Hardware Memory) where
  abbrev pub runs_at : Kernel Memory → ℕ → ℕ → Bool
  runs_at k pid d = is_runnable (k.processes ((pid + d) % hw.nproc)).state

  -- The process `d` places on from `pid`, going round the table, runs: none nearer could.
  pub record Picked (fuel pid : ℕ) (k k' : Kernel Memory) : Type 0 where
    pub steps : ℕ
    pub from_one : 1 ≤ steps
    pub in_fuel : steps ≤ fuel
    pub can_run : runs_at k pid steps ≡ true
    pub nearest : (e : ℕ) → 1 ≤ e → e < steps → runs_at k pid e ≡ false
    pub result : k' ≡ record k {
      current = (pid + steps) % hw.nproc;
      active_pagetable = (k.processes ((pid + steps) % hw.nproc)).pagetable;
    }

  shift : (pid d : ℕ) → ((pid + 1) % hw.nproc + d) % hw.nproc ≡ (pid + suc d) % hw.nproc
  shift pid d = rw mod-add-mod (ap (λ k. k % hw.nproc) (omega arith))

  runs_at-shift :
      (k : Kernel Memory) (pid d : ℕ) → runs_at k ((pid + 1) % hw.nproc) d ≡ runs_at k pid (suc d)
  runs_at-shift k pid d = ap (λ q. is_runnable (k.processes q).state) (shift pid d)

  later :
      (fuel pid : ℕ) (k k' : Kernel Memory)
      → runs_at k pid 1 ≡ false
      → Picked fuel ((pid + 1) % hw.nproc) k k'
      → Picked (suc fuel) pid k k'
  later fuel pid k k' miss p = record {
    steps = suc p.steps;
    from_one = omega arith;
    in_fuel = omega arith;
    can_run = sym (runs_at-shift k pid p.steps) ∙ p.can_run;
    nearest = λ e lo hi. near e lo hi;
    result =
        p.result
        ∙ ap (λ q. record k { current = q; active_pagetable = (k.processes q).pagetable })
            (shift pid p.steps);
  }
    where
      near : (e : ℕ) → 1 ≤ e → e < suc p.steps → runs_at k pid e ≡ false
      near zero lo hi = absurd (omega arith)
      near (suc zero) lo hi = miss
      near (suc (suc e)) lo hi =
          sym (runs_at-shift k pid (suc e)) ∙ p.nearest (suc e) (omega arith) (omega arith)

  pub schedule_from-Picked :
      (fuel pid : ℕ) (k : Kernel Memory) {k' : Kernel Memory}
      → schedule_from hw fuel pid k ≡ some k'
      → Picked fuel pid k k'
  unfolding schedule_from run
  schedule_from-Picked zero pid k h = absurd (ground arith)
  schedule_from-Picked (suc fuel) pid k {k'} h = elim (Bool-cases (runs_at k pid 1)) [
    | inl hit ↦ record {
      steps = 1;
      from_one = omega arith;
      in_fuel = omega arith;
      can_run = hit;
      nearest = λ e lo hi. absurd (omega arith);
      result = ground arith;
    }
    | inr miss ↦
        later fuel pid k k' miss (schedule_from-Picked fuel ((pid + 1) % hw.nproc) k (ground arith))
  ]

  schedule_from-none :
      (fuel pid : ℕ) (k : Kernel Memory)
      → schedule_from hw fuel pid k ≡ none
      → (d : ℕ) → 1 ≤ d
      → d ≤ fuel
      → runs_at k pid d ≡ false
  unfolding schedule_from run
  schedule_from-none zero pid k h d lo hi = absurd (omega arith)
  schedule_from-none (suc fuel) pid k h d lo hi = elim (Bool-cases (runs_at k pid 1)) [
    | inl hit ↦ absurd (ground arith)
    | inr miss ↦ near d lo hi miss (schedule_from-none fuel ((pid + 1) % hw.nproc) k (ground arith))
  ]
    where
      near :
          (d : ℕ)
          → 1 ≤ d
          → d ≤ suc fuel
          → runs_at k pid 1 ≡ false
          → ((c : ℕ) → 1 ≤ c → c ≤ fuel → runs_at k ((pid + 1) % hw.nproc) c ≡ false)
          → runs_at k pid d ≡ false
      near zero lo hi miss rest = absurd (omega arith)
      near (suc zero) lo hi miss rest = miss
      near (suc (suc e)) lo hi miss rest =
          sym (runs_at-shift k pid (suc e)) ∙ rest (suc e) (omega arith) (omega arith)

  -- How far round the table `q` stands from `pid`.
  pub distance : ℕ → ℕ → ℕ
  distance pid q = if ltb pid q then q - pid else q + hw.nproc - pid

  pub distance_lem :
      (pid q : ℕ)
      → pid < hw.nproc
      → q < hw.nproc
      → (1 ≤ distance pid q) × (distance pid q ≤ hw.nproc) × ((pid + distance pid q) % hw.nproc ≡ q)
  unfolding distance
  distance_lem pid q hp hq = elim (Bool-cases (ltb pid q)) [
    | inl e ↦
        rw (e, distance) (ground arith, ground arith, rw (total (ground arith)) (mod-eq_of_lt hq))
    | inr e ↦
        rw (e, distance)
          (
            ground arith,
            ground arith,
            ap (λ n. n % hw.nproc) (wrapped (ground arith))
                ∙ add-mod_right q hw.nproc
                ∙ mod-eq_of_lt hq,
          )
  ]
    where
      total : pid < q → pid + (q - pid) ≡ q
      total h = omega arith

      wrapped : q ≤ pid → pid + (q + hw.nproc - pid) ≡ q + hw.nproc
      wrapped h = omega arith

  -- From a process of the table, a table's length of rounds finds a process if there is one to run,
  -- and what it finds is the nearest one after the current, going round.
  pub schedule-total :
      (k : Kernel Memory) (q : ℕ)
      → (k.processes k.current).pid < hw.nproc
      → q < hw.nproc
      → (k.processes q).state ≡ runnable
      → (k' : Kernel Memory) × (schedule hw hw.nproc k ≡ some k')
        × Picked hw.nproc (k.processes k.current).pid k k'
  unfolding schedule
  schedule-total k q hp hq run =
      let pid = (k.processes k.current).pid in
      elim (Option-cases (schedule_from hw hw.nproc pid k)) [
        | inl e ↦
            let (lo, hi, at) = distance_lem pid q hp hq in
            absurd
              (ground (arith, schedule_from-none hw.nproc pid k e (distance pid q) lo hi, at, run))
        | inr (k', e) ↦ (k', e, schedule_from-Picked hw.nproc pid k e)
      ]

  -- With no process to run, no number of rounds finds one: the loop spins.
  pub schedule_from-idle :
      (k : Kernel Memory) (fuel pid : ℕ)
      → 0 < hw.nproc
      → ((q : ℕ) → q < hw.nproc → is_runnable (k.processes q).state ≡ false)
      → schedule_from hw fuel pid k ≡ none
  unfolding schedule_from
  schedule_from-idle k zero pid pos h = refl
  schedule_from-idle k (suc fuel) pid pos h =
      let next = (pid + 1) % hw.nproc in
      rw (h next (omega arith), schedule_from) (schedule_from-idle k fuel next pos h)

  -- Where a table's length of rounds finds nothing, no number of rounds does.
  pub schedule-spins :
      (k : Kernel Memory)
      → (k.processes k.current).pid < hw.nproc
      → schedule hw hw.nproc k ≡ none
      → (fuel : ℕ) → schedule hw fuel k ≡ none
  unfolding schedule
  schedule-spins k hp h fuel =
      let pid = (k.processes k.current).pid in
      schedule_from-idle k fuel pid (omega arith) λ q hq.
        let (lo, hi, at) = distance_lem pid q hp hq in
        ap (λ n. is_runnable (k.processes n).state) (sym at)
        ∙ schedule_from-none hw.nproc pid k h (distance pid q) lo hi

  pub schedule-Picked :
      (fuel : ℕ) (k : Kernel Memory) {k' : Kernel Memory}
      → schedule hw fuel k ≡ some k'
      → Picked fuel (k.processes k.current).pid k k'
  unfolding schedule
  schedule-Picked fuel k e = schedule_from-Picked fuel (k.processes k.current).pid k e
