-- ===== src/Shell/Prompt.antt =====
-- Assign5/sh61.c, `main` and the end of eval_line: the prompt loop and the lines that it evaluates.
-- fgets is a list of what it answers; the tokenizer is a parameter.
use systems_programming.Prelude.{
  ℕ, ◌-◌, Bool, true, false, ◌&&◌, ◌||◌, not, Option, none, some, List, [], ◌∷◌, ◌++◌, ◌==◌, ltb,
  if◌then◌else◌, length,
}
use systems_programming.Shell.Command.{Word}
use systems_programming.Shell.Parse.{Token, Parsed, runs, exit_one, crash, parse_line}
use systems_programming.Shell.Run.{
  System, Finished, finished, exit_shell, null_access, no_fuel, run_list,
}

-- What a call of fgets comes to: bytes, with what feof says then; a read that a signal interrupted; or
-- NULL for another reason.
pub data Input : Type 0 where
  got : Word → Bool → Input
  interrupted : Input
  ends : Input

-- The locals of the loop; `buf` is the string in the buffer, of length `bufpos`.
pub record Prompt (World : Type 0) : Type 0 where
  pub buf : Word
  pub needprompt : Bool
  pub si_flag : Bool
  pub world : World

-- What evaluating a line comes to.
pub data Evaluated (World : Type 0) : Type 0 where
  goes_on : World → Evaluated World
  exits : Evaluated World
  crashes : Evaluated World

-- How the loop goes on behind a round.
pub data Round (World : Type 0) : Type 0 where
  again : Prompt World → Round World
  leaves : Prompt World → Round World
  exits_shell : Round World
  crashes_shell : Round World

-- The string up to its first null byte.
abbrev pub until_null : Word → Word
until_null [] = []
until_null (c ∷ w) = if c == 0 then [] else c ∷ until_null w

abbrev pub last_byte : Word → ℕ
last_byte [] = 0
last_byte (c ∷ []) = c
last_byte (c ∷ d ∷ w) = last_byte (d ∷ w)

-- bufpos == BUFSIZ - 1 || (bufpos > 0 && buf[bufpos - 1] == '\n')
abbrev pub is_complete : ℕ → Word → Bool
is_complete bufsiz buf = length buf == bufsiz - 1 || (ltb 0 (length buf) && last_byte buf == 10)

module _ {World : Type 0} (sys : System World) (tokens : Word → World → List Token) where
  -- Behind run_list: the background process of a group exits.
  unfoldable pub after_run : Option ℕ → Finished World → Evaluated World
  after_run exgrp (finished r) = elim exgrp [ none ↦ goes_on r.world | some g ↦ exits ]
  after_run exgrp exit_shell = exits
  after_run exgrp null_access = crashes
  after_run exgrp no_fuel = crashes

  unfoldable pub run_parsed : Parsed → World → Evaluated World
  run_parsed (runs [] exgrp) w = elim exgrp [ none ↦ goes_on w | some g ↦ exits ]
  run_parsed (runs (c ∷ cs) exgrp) w = after_run exgrp (run_list sys (c ∷ cs) exgrp w)
  run_parsed exit_one w = exits
  run_parsed crash w = crashes

  unfoldable pub eval_line : Word → World → Evaluated World
  eval_line line w = run_parsed (parse_line (tokens line w)) w

  -- The prompt is printed.
  unfoldable pub show_prompt : Bool → Prompt World → Prompt World
  show_prompt quiet p = if p.needprompt && not quiet then record p { needprompt = false } else p

  -- A command line that is complete is run; the zombies that are waited for are no part of the model.
  unfoldable pub evaluated : Prompt World → Bool → Evaluated World → Round World
  evaluated p at_end (goes_on w) =
      let next : Prompt World = record p { buf = []; needprompt = true; world = w } in
      if at_end then leaves next else again next
  evaluated p at_end exits = exits_shell
  evaluated p at_end crashes = crashes_shell

  unfoldable pub run_complete : ℕ → Prompt World → Bool → Round World
  run_complete bufsiz p at_end =
      if is_complete bufsiz p.buf
      then evaluated p at_end (eval_line p.buf p.world)
      else if at_end
      then leaves p
      else again p

  unfoldable pub on_input : ℕ → Input → Prompt World → Round World
  on_input bufsiz (got w at_end) p =
      run_complete bufsiz (record p { buf = until_null (p.buf ++ w) }) at_end
  on_input bufsiz interrupted p =
      run_complete bufsiz (if p.si_flag then record p { si_flag = false; needprompt = true } else p)
        false
  on_input bufsiz ends p = leaves p

  -- The rounds behind a round.
  unfoldable pub after_round : (Prompt World → Round World) → Round World → Round World
  after_round rest (again p) = rest p
  after_round rest (leaves p) = leaves p
  after_round rest exits_shell = exits_shell
  after_round rest crashes_shell = crashes_shell

  -- `while (!feof(command_file))`, for the answers of fgets; where they run out the loop waits.
  unfoldable pub prompt_loop : ℕ → Bool → List Input → Prompt World → Round World
  prompt_loop bufsiz quiet [] p = again p
  prompt_loop bufsiz quiet (i ∷ rest) p =
      after_round (prompt_loop bufsiz quiet rest) (on_input bufsiz i (show_prompt quiet p))
