-- ===== src/Shell/Parse.antt =====
-- Assign5/sh61.c, `eval_line`: from the tokens of a line to the list of commands. The tokenizer
-- parse_shell_token is not in the repository; a line is the sequence of what it returns.
use systems_programming.Prelude.{
  ℕ, ◌+◌, true, Option, none, some, List, [], ◌∷◌, ◌==◌, if◌then◌else◌,
}
use systems_programming.Shell.Command.{
  Word, char_at, Ctrl, neutral, RedirTo, rd_stdin, rd_stdout, rd_stderr, rd_app_stdout,
  rd_app_stderr, Command, command_alloc, add_cmd_node, command_append_arg, free_command_grp,
}
use systems_programming.Shell.Control.{CtrlResult, not_control, control, bad_order, is_control_cmd}

pub data TokenType : Type 0 where
  normal redirection sequence background pipe and_op or_op lparen rparen other_token : TokenType

-- What fork() returns at a `&`.
pub data ForkResult : Type 0 where
  failed in_child in_parent : ForkResult

-- A token, and what fork() returns if it is a `&`.
pub record Token : Type 0 where
  pub type : TokenType
  pub text : Word
  pub forked : ForkResult

-- The locals of `eval_line`, with `head_cmd` and `curr_ctrl_state`.
pub record Line : Type 0 where
  pub cmd : Command
  pub cmds : List Command
  pub grp : ℕ
  pub redir_nxt : Option RedirTo
  pub ctrl : Ctrl

-- After a token: read on, leave the loop as the background process of a group, exit(1), or crash.
pub data Step : Type 0 where
  more : Line → Step
  subshell : Line → Step
  exits : Step
  crashes : Step

unfoldable pub set_redir : RedirTo → Word → Command → Command
set_redir rd_stdin w c = record c { redir_in = some w }
set_redir rd_stdout w c = record c { redir_out = some w }
set_redir rd_app_stdout w c = record c { redir_out = some w; redir_app_out = true }
set_redir rd_app_stderr w c = record c { redir_err = some w; redir_app_err = true }
set_redir rd_stderr w c = record c { redir_err = some w }

-- `none` leaves `redir_nxt` at -1.
unfoldable pub redir_of : Word → Option RedirTo
redir_of token =
    if char_at token 0 == b'<'
    then some rd_stdin
    else if char_at token 0 == b'>'
    then (if char_at token 1 == b'>' then some rd_app_stdout else some rd_stdout)
    else if char_at token 0 == b'2'
    then (if char_at token 2 == b'>' then some rd_app_stderr else some rd_stderr)
    else none

-- add_cmd_node(c); c = command_alloc();
abbrev pub next_command : Line → Line
next_command l = record l { cmds = add_cmd_node l.ctrl l.cmd l.cmds; cmd = command_alloc }

-- The lines under `// Parent`, which a failed fork reaches too.
unfoldable pub drop_background : Line → Step
drop_background l =
    if l.grp == 0
    then more (record l { cmds = []; cmd = command_alloc })
    else elim (free_command_grp l.grp l.cmds) [
      | none ↦ crashes
      | some cs ↦ more (record l { cmds = cs; cmd = command_alloc })
    ]

unfoldable pub on_background : ForkResult → Line → Step
on_background in_child l = subshell (next_command l)
on_background in_parent l = drop_background (next_command l)
on_background failed l = drop_background (next_command l)

unfoldable pub on_word : Word → CtrlResult → Line → Step
on_word w (control s) l = more (record l { ctrl = s })
on_word w bad_order l = exits
on_word w not_control l =
    more (record l { cmd = record (command_append_arg l.cmd w) { rungrp = l.grp } })

unfoldable pub on_type : Token → TokenType → Line → Step
on_type t redirection l = more (record l { redir_nxt = redir_of t.text })
on_type t pipe l = more (next_command (record l { cmd = record l.cmd { pipe_nxt = true } }))
on_type t and_op l = more (record (next_command l) { cmd = record command_alloc { cond = some 0 } })
on_type t or_op l = more (record (next_command l) { cmd = record command_alloc { cond = some 1 } })
on_type t sequence l = more (record (next_command l) { grp = l.grp + 1 })
on_type t background l = on_background t.forked l
on_type t normal l = on_word t.text (is_control_cmd t.text l.ctrl) l
on_type t lparen l = on_word t.text (is_control_cmd t.text l.ctrl) l
on_type t rparen l = on_word t.text (is_control_cmd t.text l.ctrl) l
on_type t other_token l = on_word t.text (is_control_cmd t.text l.ctrl) l

-- A token after a redirection operator is a file name, whatever its type.
unfoldable pub read_token : Token → Line → Step
read_token t l = elim l.redir_nxt [
  | none ↦ on_type t t.type l
  | some r ↦ more (record l { cmd = set_redir r t.text l.cmd; redir_nxt = none })
]

abbrev pub and_then : Step → (Line → Step) → Step
and_then (more l) next = next l
and_then (subshell l) next = subshell l
and_then exits next = exits
and_then crashes next = crashes

unfoldable pub read_tokens : List Token → Line → Step
read_tokens [] l = more l
read_tokens (t ∷ ts) l = and_then (read_token t l) (λ l'. read_tokens ts l')

-- `curr_ctrl_state` is left over from the last line; the list is empty.
unfoldable pub start_line : Ctrl → Line
start_line s = record { cmd = command_alloc; cmds = []; grp = 0; redir_nxt = none; ctrl = s }

-- What the line asks for: `run_list` of the commands, with the group of a background process.
pub data Parsed : Type 0 where
  runs : List Command → Option ℕ → Parsed
  exit_one : Parsed
  crash : Parsed

unfoldable pub close_line : Line → Option ℕ → Parsed
close_line l exgrp = elim l.ctrl [
  | neutral ↦ runs (add_cmd_node l.ctrl l.cmd l.cmds) exgrp
  | _ ↦ exit_one
]

unfoldable pub finish_line : Step → Parsed
finish_line (more l) = close_line l none
finish_line (subshell l) = close_line l (some l.grp)
finish_line exits = exit_one
finish_line crashes = crash

unfoldable pub parse_line : List Token → Parsed
parse_line ts = finish_line (read_tokens ts (start_line neutral))
