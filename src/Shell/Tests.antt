-- ===== src/Shell/Tests.antt =====
-- Assign5/sh61.c: lines and runs, and the theorems at them.
use systems_programming.Prelude.{
  ℕ, ◌+◌, ◌≤◌, ◌≡◌, ◌⊎◌, refl, false, Option, none, some, List, [], ◌∷◌, arith, inl, inr,
}
use systems_programming.Shell.Command.{
  Word, Command, command_alloc, add_cmd_node, command_append_arg, free_command_grp, same_word,
  neutral, Ctrl,
}
use systems_programming.Shell.Control.{if_word, then_word, fi_word, is_control_cmd}
use systems_programming.Shell.Parse.{
  Token, TokenType, normal, sequence, background, in_parent, Line, runs, crash, exit_one,
  parse_line, finish_line, close_line, read_tokens, read_token, on_type, on_word, on_background,
  drop_background, start_line,
}
use systems_programming.Shell.Groups.{
  IsGrouped, StepGrouped, read_tokens-StepGrouped, free_command_grp-outside,
}
use systems_programming.Shell.IfLine.{IfLine, keywords, IsPlain}
use systems_programming.Shell.Accept.{parse_line-IfLine}
use systems_programming.Shell.Run.{exited, System, finished, run_list, is_cd}
use systems_programming.Shell.AndOr.{IsSimple, and_or, outside_at, run_list-and_or}

-- `a`
abbrev word_a : Word
word_a = b'a' ∷ []

abbrev word : Word → Token
word w = record { type = normal; text = w; forked = in_parent }

abbrev operator : TokenType → Token
operator t = record { type = t; text = b'+' ∷ []; forked = in_parent }

-- if a ; then a ; fi
abbrev if_line : List Token
if_line =
    word if_word
    ∷ word word_a
    ∷ operator sequence
    ∷ word then_word
    ∷ word word_a
    ∷ operator sequence
    ∷ word fi_word
    ∷ []

-- `; a &` crashes the parent shell.
background_crash : parse_line (operator sequence ∷ word word_a ∷ operator background ∷ []) ≡ crash
unfolding parse_line finish_line close_line read_tokens read_token on_type on_word on_background
    drop_background start_line is_control_cmd same_word command_append_arg add_cmd_node
    command_alloc free_command_grp
background_crash = refl

abbrev command_of : Word → Option ℕ → Command
command_of w cond = record {
  argv = w ∷ [];
  cond = cond;
  rungrp = 0;
  ctrl_blk = neutral;
  pipe_nxt = false;
  redir_app_out = false;
  redir_app_err = false;
  redir_in = none;
  redir_out = none;
  redir_err = none;
}

abbrev fresh_line : Line
fresh_line = record {
  cmd = command_of [] none;
  cmds = [];
  grp = 0;
  redir_nxt = none;
  ctrl = neutral;
}

fresh_line-IsGrouped : IsGrouped (start_line neutral)
unfolding start_line command_alloc
fresh_line-IsGrouped = record { list = omega arith; last = inl refl }

read_tokens-StepGrouped_example : StepGrouped (read_tokens if_line (start_line neutral))
read_tokens-StepGrouped_example =
    read_tokens-StepGrouped if_line (start_line neutral) fresh_line-IsGrouped

two_groups : List Command
two_groups = command_of word_a none ∷ record (command_of word_a none) { rungrp = 1 } ∷ []

free_command_grp-outside_example :
    free_command_grp 1 two_groups ≡ some (command_of word_a none ∷ [])
unfolding two_groups
free_command_grp-outside_example =
    free_command_grp-outside 1 two_groups
      (omega arith, (λ e. cc), (omega arith, (λ e. cc), omega arith))

if_line-IsPlain : IsPlain if_line
if_line-IsPlain = (
  (λ e. cc),
  (λ e. cc),
  (
    (λ e. cc),
    (λ e. cc),
    (
      (λ e. cc),
      (λ e. cc),
      (
        (λ e. cc),
        (λ e. cc),
        ((λ e. cc), (λ e. cc), ((λ e. cc), (λ e. cc), ((λ e. cc), (λ e. cc), tt))),
      ),
    ),
  ),
)

parse_line-IfLine_example :
    (IfLine (keywords if_line) × ((cs : List Command) × (parse_line if_line ≡ runs cs none)))
    ⊎ (¬ (IfLine (keywords if_line)) × (parse_line if_line ≡ exit_one))
parse_line-IfLine_example = parse_line-IfLine if_line if_line-IsPlain

-- A command with no condition exits with 0, and any other with 1; the world counts the commands.
abbrev status_of : Command → ℕ → ℕ
status_of c w = elim c.cond [ none ↦ 0 | some n ↦ 1 ]

status_small : (c : Command) (w : ℕ) → status_of c w ≤ 1
status_small c w = ground arith

abbrev counting : System ℕ
counting = record {
  run_command = λ c w. (exited (status_of c w), w + 1);
  run_pipeline = λ cs w. (exited 0, w);
  start_pipeline = λ cs w. w;
  redirect = λ c w. some w;
  change_dir = λ d w. (0, w);
}

command_of-IsSimple :
    (cond : Option ℕ)
    → (cond ≡ none) ⊎ (cond ≡ some 0) ⊎ (cond ≡ some 1)
    → IsSimple (command_of word_a cond)
unfolding is_cd same_word
command_of-IsSimple cond h = record { no_pipe = refl; no_cd = refl; outside_if = refl; link = h }

-- a && a || a
abbrev and_or_line : List Command
and_or_line = command_of word_a none ∷ command_of word_a (some 0) ∷ command_of word_a (some 1) ∷ []

run_list-and_or_example :
    run_list counting and_or_line none 0
    ≡ finished (
        outside_at counting
          (and_or counting status_of and_or_line 0 0).1
          (and_or counting status_of and_or_line 0 0).0)
run_list-and_or_example =
    run_list-and_or counting status_of (λ c w. refl) status_small and_or_line 0
      (
        command_of-IsSimple none (inl refl),
        (
          command_of-IsSimple (some 0) (inr (inl refl)),
          (command_of-IsSimple (some 1) (inr (inr refl)), tt),
        ),
      )

abbrev block_of : Ctrl → Command
block_of b = record (command_of word_a none) { ctrl_blk = b }
