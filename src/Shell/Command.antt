-- ===== src/Shell/Command.antt =====
-- Assign5/sh61.c: commands, words and the list of commands. A word is its bytes without the final 0.
use systems_programming.Prelude.{
  ℕ, zero, suc, Bool, true, false, ◌&&◌, Option, none, some, List, [], ◌∷◌, ◌++◌, ◌==◌,
  if◌then◌else◌,
}

abbrev pub Word : Type 0
Word = List ℕ

-- strcmp(a, b) == 0
unfoldable pub same_word : Word → Word → Bool
same_word [] [] = true
same_word [] (b ∷ bs) = false
same_word (a ∷ as') [] = false
same_word (a ∷ as') (b ∷ bs) = a == b && same_word as' bs

-- `token[i]`, with the final 0 behind the word's bytes.
unfoldable pub char_at : Word → ℕ → ℕ
char_at [] i = 0
char_at (c ∷ w) zero = c
char_at (c ∷ w) (suc i) = char_at w i

-- `enum states`
pub data Ctrl : Type 0 where
  neutral want_then then_block else_block : Ctrl

-- `enum redir_to`
pub data RedirTo : Type 0 where
  rd_stdin rd_stdout rd_stderr rd_app_stdout rd_app_stderr : RedirTo

-- `argc` is the length of `argv`; `none` stands for -1 in `cond` and for NULL in the file names.
-- (`pid` is written when the command is started; see `Shell.Run`.)
pub record Command : Type 0 where
  pub argv : List Word
  pub cond : Option ℕ
  pub rungrp : ℕ
  pub ctrl_blk : Ctrl
  pub pipe_nxt : Bool
  pub redir_app_out : Bool
  pub redir_app_err : Bool
  pub redir_in : Option Word
  pub redir_out : Option Word
  pub redir_err : Option Word

unfoldable pub command_alloc : Command
command_alloc = record {
  argv = [];
  cond = none;
  rungrp = 0;
  ctrl_blk = neutral;
  pipe_nxt = false;
  redir_app_out = false;
  redir_app_err = false;
  redir_in = none;
  redir_out = none;
  redir_err = none;
}

-- `head_cmd` and what follows it; `curr_cmd` is its last element.
unfoldable pub add_cmd_node : Ctrl → Command → List Command → List Command
add_cmd_node ctrl c cs = elim c.argv [ [] ↦ cs | w ∷ ws ↦ cs ++ record c { ctrl_blk = ctrl } ∷ [] ]

unfoldable pub command_append_arg : Command → Word → Command
command_append_arg c word = record c { argv = c.argv ++ word ∷ [] }

-- The commands in front of the first of the group. (Groups ascend along the list, `Shell.Groups`, so
-- that a group that is freed while it is the last is what `prev_grp->next = NULL` cuts off.)
unfoldable pub before_group : ℕ → List Command → List Command
before_group grp [] = []
before_group grp (c ∷ cs) =
    let rest = c ∷ before_group grp cs in if c.rungrp == grp then [] else rest

-- `none` is an access through NULL: `head_cmd->rungrp` of an empty list, or `prev_grp->next` where
-- the head itself is of the group.
unfoldable pub free_command_grp : ℕ → List Command → Option (List Command)
free_command_grp grp [] = none
free_command_grp grp (c ∷ cs) = if c.rungrp == grp then none else some (before_group grp (c ∷ cs))
