-- ===== src/Shell/IfThen.antt =====
-- Assign5/sh61.c, `run_list`: which block of an if statement runs.
use systems_programming.Prelude.{ℕ, ◌≡◌, ◌⊎◌, false, none, some, List, [], ◌∷◌, ◌==◌, if◌then◌else◌}
use systems_programming.Shell.Command.{Command, Ctrl, then_block, else_block}
use systems_programming.Shell.Run.{exited, System, Run, Finished, finished, is_cd}

-- An unconditional command of its own process in a block.
pub record IsStep (b : Ctrl) (c : Command) : Type 0 where
  pub no_pipe : c.pipe_nxt ≡ false
  pub no_cd : is_cd c ≡ false
  pub no_cond : c.cond ≡ none
  pub block : c.ctrl_blk ≡ b

abbrev pub AllSteps : Ctrl → List Command → Type 0
AllSteps b [] = Unit {0}
AllSteps b (c ∷ cs) = IsStep b c × AllSteps b cs

module _ {World : Type 0} (sys : System World) (status : Command → World → ℕ)
    (ends : (c : Command) (w : World) → (sys.run_command c w).0 ≡ exited (status c w)) where
  -- All commands one after the other.
  pub run_all : List Command → ℕ → World → ℕ × World
  run_all [] st w = (st, w)
  run_all (c ∷ cs) st w = run_all cs (status c w) (sys.run_command c w).1

  -- Inside an if statement whose condition ended with status `res`.
  abbrev inside_at : ℕ → ℕ × World → Run World
  inside_at res (st, w) = record { world = w; prev_exit_stat = st; ctrl_result = some res }

  abbrev after_if : ℕ → ℕ × World → Finished World
  after_if res p = finished (inside_at res p)

  -- The next command, if there is one, stands in a block of the statement.
  abbrev HeadInside : List Command → Type 0
  HeadInside [] = Unit {0}
  HeadInside (c ∷ cs) = (c.ctrl_blk ≡ then_block) ⊎ (c.ctrl_blk ≡ else_block)

  -- The state that the blocks lead to, by the status of the condition.
  pub chosen : ℕ → List Command → List Command → ℕ → World → ℕ × World
  chosen res ts es st w =
      if res == 0 then run_all ts st w else if res == 1 then run_all es st w else (st, w)
