-- ===== src/Shell/AndOr.antt =====
-- Assign5/sh61.c, `run_list`: `;`, `&&` and `||` against the shell language.
use systems_programming.Prelude.{
  ℕ, zero, suc, ◌≤◌, ◌≡◌, ◌⊎◌, refl, sym, ap, ◌∙◌, Bool, true, false, not, Option, none, some, List,
  [], ◌∷◌, ◌==◌, length, arith, inl, inr, Bool-cases,
}
use systems_programming.Shell.Command.{Command, neutral}
use systems_programming.Shell.Run.{
  exited, System, Run, Finished, finished, is_cd, selected, waited, ran, run_plain, run_node,
  transition, visit, run_loop, run_list,
}

-- A command of its own process, outside any if statement.
pub record IsSimple (c : Command) : Type 0 where
  pub no_pipe : c.pipe_nxt ≡ false
  pub no_cd : is_cd c ≡ false
  pub outside_if : c.ctrl_blk ≡ neutral
  pub link : (c.cond ≡ none) ⊎ (c.cond ≡ some 0) ⊎ (c.cond ≡ some 1)

abbrev pub AllSimple : List Command → Type 0
AllSimple [] = Unit {0}
AllSimple (c ∷ cs) = IsSimple c × AllSimple cs

-- The shell language: after `&&` a command runs if the last exit status is 0, after `||` if it is
-- not 0, and otherwise always.
pub due : Option ℕ → ℕ → Bool
due none status = true
due (some zero) status = status == 0
due (some (suc n)) status = not (status == 0)

module _ {World : Type 0} (sys : System World) where
  -- The state after a list of commands by that rule.
  pub and_or : (Command → World → ℕ) → List Command → ℕ → World → ℕ × World
  and_or status [] last w = (last, w)
  and_or status (c ∷ cs) last w = elim (due c.cond last) [
    | true ↦ and_or status cs (status c w) (sys.run_command c w).1
    | false ↦ and_or status cs last w
  ]

  visit-simple :
      (c : Command) (r : Run World) (cs : List Command) (n : ℕ)
      → IsSimple c
      → selected sys none c r ≡ true
      → (sys.run_command c r.world).0 ≡ exited n
      → visit sys none c r cs
        ≡ ran (record r { world = (sys.run_command c r.world).1; prev_exit_stat = n }) neutral cs
  unfolding visit run_node run_plain waited
  visit-simple c r cs n s sel e = ground (arith, s.no_pipe, s.no_cd, s.outside_if)

  -- Outside any if statement, after exit status `st`.
  abbrev pub outside_at : World → ℕ → Run World
  outside_at w st = record { world = w; prev_exit_stat = st; ctrl_result = none }

  transition-simple :
      (w : World) (st : ℕ) (cs : List Command)
      → AllSimple cs
      → transition sys neutral (outside_at w st) cs ≡ outside_at w st
  unfolding transition
  transition-simple w st [] s = refl
  transition-simple w st (c ∷ cs) s = rw s.0.outside_if refl

  selected-due :
      (c : Command) (w : World) (st : ℕ)
      → IsSimple c
      → st ≤ 1
      → selected sys none c (outside_at w st) ≡ due c.cond st
  unfolding selected due
  selected-due c w st s h = ground (arith, s.link)

  visit-skipped :
      (c : Command) (r : Run World) (cs : List Command)
      → selected sys none c r ≡ false
      → visit sys none c r cs ≡ ran r neutral cs
  unfolding visit
  visit-skipped c r cs e = rw (e, visit) refl

  run_loop-step :
      (fuel : ℕ) (c : Command) (cs : List Command) (r : Run World) (rest : List Command)
      {r' : Run World}
      → visit sys none c r cs ≡ ran r' neutral rest
      → run_loop sys (suc fuel) none (c ∷ cs) r
        ≡ run_loop sys fuel none rest (transition sys neutral r' rest)
  unfolding run_loop
  run_loop-step fuel c cs r rest e = rw (e, run_loop) refl

  and_or-run :
      (status : Command → World → ℕ) (c : Command) (cs : List Command) (st : ℕ) (w : World)
      → due c.cond st ≡ true
      → and_or status (c ∷ cs) st w ≡ and_or status cs (status c w) (sys.run_command c w).1
  unfolding and_or
  and_or-run status c cs st w e = rw (e, and_or) refl

  and_or-skip :
      (status : Command → World → ℕ) (c : Command) (cs : List Command) (st : ℕ) (w : World)
      → due c.cond st ≡ false
      → and_or status (c ∷ cs) st w ≡ and_or status cs st w
  unfolding and_or
  and_or-skip status c cs st w e = rw (e, and_or) refl

  abbrev reached : ℕ × World → Finished World
  reached (st, w) = finished (outside_at w st)

  module _ (status : Command → World → ℕ)
      (ends : (c : Command) (w : World) → (sys.run_command c w).0 ≡ exited (status c w))
      (small : (c : Command) (w : World) → status c w ≤ 1) where
    run_loop-and_or :
        (cs : List Command) (fuel : ℕ) (w : World) (st : ℕ)
        → AllSimple cs
        → length cs ≤ fuel
        → st ≤ 1
        → run_loop sys fuel none cs (outside_at w st)
          ≡ finished (outside_at (and_or status cs st w).1 (and_or status cs st w).0)
    unfolding run_loop and_or
    run_loop-and_or [] zero w st s h k = refl
    run_loop-and_or [] (suc fuel) w st s h k = refl
    run_loop-and_or (c ∷ cs) zero w st s h k = absurd (omega arith)
    run_loop-and_or (c ∷ cs) (suc fuel) w st s h k = elim (Bool-cases (due c.cond st)) [
      | inl e ↦
          run_loop-step fuel c cs (outside_at w st) cs (
            visit-simple c (outside_at w st) cs (status c w) s.0 (selected-due c w st s.0 k ∙ e)
              (ends c w))
          ∙ ap (run_loop sys fuel none cs)
              (transition-simple (sys.run_command c w).1 (status c w) cs s.1)
          ∙ run_loop-and_or cs fuel (sys.run_command c w).1 (status c w) s.1 (omega arith)
              (small c w)
          ∙ ap reached (sym (and_or-run status c cs st w e))
      | inr e ↦
          run_loop-step fuel c cs (outside_at w st) cs
            (visit-skipped c (outside_at w st) cs (selected-due c w st s.0 k ∙ e))
          ∙ ap (run_loop sys fuel none cs) (transition-simple w st cs s.1)
          ∙ run_loop-and_or cs fuel w st s.1 (omega arith) k
          ∙ ap reached (sym (and_or-skip status c cs st w e))
    ]

    -- Where every process exits with 0 or 1, `run_list` runs a list of simple commands joined by `;`,
    -- `&&` and `||` as the shell language says, and ends outside any if statement.
    pub run_list-and_or :
        (cs : List Command) (w : World)
        → AllSimple cs
        → run_list sys cs none w
          ≡ finished (outside_at (and_or status cs 0 w).1 (and_or status cs 0 w).0)
    unfolding run_list
    run_list-and_or cs w s = run_loop-and_or cs (length cs) w 0 s (omega arith) (omega arith)

  -- After a process that exits with 2 or more, the command behind `||` does not run, though the
  -- shell language says that it should.
  pub or_after_two :
      (a b : Command) (w : World) (n : ℕ)
      → IsSimple a
      → IsSimple b
      → a.cond ≡ none
      → b.cond ≡ some 1
      → (sys.run_command a w).0 ≡ exited n
      → 2 ≤ n
      → (run_list sys (a ∷ b ∷ []) none w ≡ finished (outside_at (sys.run_command a w).1 n))
        × (due b.cond n ≡ true)
  unfolding run_list run_loop selected due
  or_after_two a b w n sa sb ca cb e h = (
    run_loop-step 1 a (b ∷ []) (outside_at w 0) (b ∷ [])
          (visit-simple a (outside_at w 0) (b ∷ []) n sa (ground (arith, ca)) e)
        ∙ ap (run_loop sys 1 none (b ∷ []))
            (transition-simple (sys.run_command a w).1 n (b ∷ []) (sb, tt))
        ∙ run_loop-step 0 b [] (outside_at (sys.run_command a w).1 n) []
            (visit-skipped b (outside_at (sys.run_command a w).1 n) [] (ground (arith, cb)))
        ∙ ap finished (transition-simple (sys.run_command a w).1 n [] tt),
    ground (arith, cb),
  )
