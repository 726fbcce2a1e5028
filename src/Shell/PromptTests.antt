-- ===== src/Shell/PromptTests.antt =====
-- Assign5/sh61.c: the prompt loop at input that comes in pieces.
use systems_programming.Prelude.{◌≡◌, refl, some, List, [], ◌∷◌, ◌++◌, true, false, arith}
use systems_programming.Shell.Command.{
  Word, same_word, add_cmd_node, before_group, char_at, command_alloc, command_append_arg,
  free_command_grp,
}
use systems_programming.Shell.Parse.{
  Token, normal, in_parent, parse_line, finish_line, read_tokens, read_token, start_line, on_type,
  on_word, close_line, drop_background, on_background, redir_of, set_redir,
}
use systems_programming.Shell.Run.{
  System, exited, begin_piping, is_cd, run_cd, run_list, run_loop, run_node, run_pipe, run_plain,
  second_arg, selected, transition, visit, waited,
}
use systems_programming.Shell.Control.{is_control_cmd, on_else, on_fi, on_if, on_then}
use systems_programming.Shell.Prompt.{
  Input, got, interrupted, leaves, prompt_loop, after_round, on_input, run_complete, show_prompt,
  evaluated, eval_line, run_parsed, after_run,
}
use systems_programming.Shell.PromptLines.{Agrees, eval_all, prompt_loop-Agrees}
use systems_programming.Shell.Pieces.{Fed, split, input_bytes}

-- The world is what the commands were, one behind the other.
abbrev logging : System Word
logging = record {
  run_command = λ c w. (exited 0, elim c.argv [ [] ↦ w | name ∷ args ↦ w ++ name ]);
  run_pipeline = λ cs w. (exited 0, w);
  start_pipeline = λ cs w. w;
  redirect = λ c w. some w;
  change_dir = λ d w. (0, w);
}

-- A line is one word.
abbrev one_token : Word → Word → List Token
one_token line w = record { type = normal; text = line; forked = in_parent } ∷ []

-- "ab", a signal, "c\n", "de" and the end of the file.
abbrev in_pieces : List Input
in_pieces =
    got (97 ∷ 98 ∷ []) false
    ∷ interrupted
    ∷ got (99 ∷ 10 ∷ []) false
    ∷ got (100 ∷ 101 ∷ []) true
    ∷ []

pieces_Fed : Fed 1023 [] in_pieces
pieces_Fed = (
  (ground arith, ground arith, (ground arith, ground arith)),
  (
    (ground arith, ground arith, (ground arith, ground arith)),
    (ground arith, ground arith, (ground arith, ground arith)),
  ),
)

prompt_loop-Agrees_example :
    Agrees logging one_token
      (prompt_loop logging one_token 1024 true in_pieces
        (record { buf = []; needprompt = true; si_flag = false; world = [] }))
      (eval_all logging one_token (split 1023 [] (input_bytes in_pieces)).0 [])
      (split 1023 [] (input_bytes in_pieces)).1
prompt_loop-Agrees_example =
    prompt_loop-Agrees logging one_token 1023 true in_pieces [] (omega arith) pieces_Fed

-- The last line, without a newline, is not run.
last_line_stays :
    prompt_loop logging one_token 1024 true in_pieces
      (record { buf = []; needprompt = true; si_flag = false; world = [] })
    ≡ leaves (record {
      buf = 100 ∷ 101 ∷ [];
      needprompt = true;
      si_flag = false;
      world = 97 ∷ 98 ∷ 99 ∷ 10 ∷ [];
    })
unfolding prompt_loop after_round on_input run_complete show_prompt evaluated eval_line run_parsed
    parse_line finish_line read_tokens read_token start_line on_type on_word is_control_cmd
    same_word close_line add_cmd_node before_group char_at command_alloc command_append_arg
    free_command_grp on_else on_fi on_if on_then drop_background on_background redir_of set_redir
    after_run begin_piping is_cd run_cd run_list run_loop run_node run_pipe run_plain second_arg
    selected transition visit waited
last_line_stays = refl
