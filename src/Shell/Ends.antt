-- ===== src/Shell/Ends.antt =====
-- Assign5/sh61.c, `run_list`: the loop ends, and what a list that ends in a pipe does.
use systems_programming.Prelude.{◌≤◌, ◌≡◌, true, none, List, [], ◌∷◌, length}
use systems_programming.Shell.Command.{Command}
use systems_programming.Shell.Run.{
  System, Run, Finished, finished, exit_shell, null_access, no_fuel, is_cd, Ran, ran, ran_exit,
  ran_null,
}

-- The last command of the list pipes to a next one, which there is not.
abbrev pub Dangles : List Command → Type 0
Dangles [] = ⊥
Dangles (c ∷ []) = c.pipe_nxt ≡ true
Dangles (c ∷ d ∷ cs) = Dangles (d ∷ cs)

module _ {World : Type 0} (sys : System World) where
  -- Some redirection of a cd does not open its file.
  abbrev pub CdFails : Type 0
  CdFails = (c : Command) × (w : World) × (is_cd c ≡ true) × (sys.redirect c w ≡ none)

  -- What a round leaves behind is no longer than what stood behind its node, and ends as it does.
  abbrev Shrinks : Command → List Command → Ran sys → Type 0
  Shrinks c cs (ran r prev rest) = (length rest ≤ length cs) × (Dangles rest → Dangles (c ∷ cs))
  Shrinks c cs ran_exit = CdFails
  Shrinks c cs ran_null = Dangles (c ∷ cs)

  -- How the run of a list ends.
  abbrev pub EndsPost : List Command → Finished World → Type 0
  EndsPost cs (finished r) = Unit
  EndsPost cs exit_shell = CdFails
  EndsPost cs null_access = Dangles cs
  EndsPost cs no_fuel = ⊥

  abbrev pub AllPiped : List Command → Type 0
  AllPiped [] = Unit {0}
  AllPiped (c ∷ cs) = (c.pipe_nxt ≡ true) × AllPiped cs
