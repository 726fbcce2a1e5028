-- ===== src/Shell/Run.antt =====
-- Assign5/sh61.c, `run_list` and `begin_piping`: which commands of a list run, and in what order.
-- Processes and the file system are the parameter `System`: what a started command or pipeline
-- returns to waitpid, and whether redirection and chdir succeed.
use systems_programming.Prelude.{
  ℕ, zero, suc, Bool, true, false, ◌&&◌, ◌||◌, Option, none, some, List, [], ◌∷◌, ◌==◌,
  if◌then◌else◌, length,
}
use systems_programming.Shell.Command.{
  Word, same_word, Ctrl, neutral, want_then, then_block, else_block, Command,
}

-- WIFEXITED with the exit status, killed by SIGINT, or anything else that waitpid reports.
pub data WaitStatus : Type 0 where
  exited : ℕ → WaitStatus
  interrupted : WaitStatus
  other_status : WaitStatus

pub record System (World : Type 0) : Type 0 where
  -- start_command, then waitpid
  pub run_command : Command → World → WaitStatus × World
  -- the processes of a pipeline, then waitpid for the last
  pub run_pipeline : List Command → World → WaitStatus × World
  -- the same without waiting
  pub start_pipeline : List Command → World → World
  -- cmd_redir, with the descriptors put back at the end; `none` is its exit(1)
  pub redirect : Command → World → Option World
  -- change_dir: 0, or 1 where chdir fails; `none` is a missing argument
  pub change_dir : Option Word → World → ℕ × World

-- The locals of `run_list`; `none` in `ctrl_result` is -1.
pub record Run (World : Type 0) : Type 0 where
  pub world : World
  pub prev_exit_stat : ℕ
  pub ctrl_result : Option ℕ

-- The end of a list: the last state, an exit(1), an access through NULL, or no fuel.
pub data Finished (World : Type 0) : Type 0 where
  finished : Run World → Finished World
  exit_shell : Finished World
  null_access : Finished World
  no_fuel : Finished World

-- `begin_piping` from `c`: the commands up to the first without a pipe to the next, that one, and
-- what follows it; `none` is the NULL that it returns where the list ends in a pipe.
pub record Pipeline : Type 0 where
  pub members : List Command
  pub last : Command
  pub rest : List Command

unfoldable pub begin_piping : Command → List Command → Option Pipeline
begin_piping c [] =
    if c.pipe_nxt then none else some (record { members = c ∷ []; last = c; rest = [] })
begin_piping c (d ∷ cs) =
    let piped = begin_piping d cs in
    if c.pipe_nxt
    then elim piped [ none ↦ none | some p ↦ some (record p { members = c ∷ p.members }) ]
    else some (record { members = c ∷ []; last = c; rest = d ∷ cs })

abbrev pub option_is : Option ℕ → ℕ → Bool
option_is none n = false
option_is (some m) n = m == n

abbrev pub is_none : {A : Type 0} → Option A → Bool
is_none none = true
is_none (some a) = false

abbrev pub is_then : Ctrl → Bool
is_then then_block = true
is_then _ = false

abbrev pub is_else : Ctrl → Bool
is_else else_block = true
is_else _ = false

abbrev pub is_want_then : Ctrl → Bool
is_want_then want_then = true
is_want_then _ = false

abbrev pub is_neutral : Ctrl → Bool
is_neutral neutral = true
is_neutral _ = false

abbrev pub cd_word : Word
cd_word = b'c' ∷ b'd' ∷ []

-- strcmp(exec_node->argv[0], "cd") == 0; a command of a list has a word.
unfoldable pub is_cd : Command → Bool
is_cd c = elim c.argv [ [] ↦ false | w ∷ ws ↦ same_word w cd_word ]

unfoldable pub second_arg : Command → Option Word
second_arg c = elim c.argv [ [] ↦ none | w ∷ ws ↦ elim ws [ [] ↦ none | d ∷ ds ↦ some d ] ]

module _ {World : Type 0} (sys : System World) where
  -- The condition of the loop's `if`; `rungrp` is `none` for -1.
  unfoldable pub selected : Option ℕ → Command → Run World → Bool
  selected rungrp c r =
      (is_none rungrp || option_is rungrp c.rungrp)
      && (is_none c.cond || option_is c.cond r.prev_exit_stat)
      && (is_none r.ctrl_result
          || (is_then c.ctrl_blk && option_is r.ctrl_result 0)
          || (is_else c.ctrl_blk && option_is r.ctrl_result 1))

  -- After waitpid: the exit status, and the list behind the command, cut by SIGINT.
  unfoldable pub waited : WaitStatus → World → Run World → List Command → Run World × List Command
  waited (exited n) w r cs = (record r { world = w; prev_exit_stat = n }, cs)
  waited interrupted w r cs = (record r { world = w }, [])
  waited other_status w r cs = (record r { world = w }, cs)

  -- What running a command leaves: the state, the last node that ran, and the nodes behind it.
  pub data Ran : Type 0 where
    ran : Run World → Ctrl → List Command → Ran
    ran_exit ran_null : Ran

  unfoldable pub run_pipe : Bool → Option Pipeline → Run World → Ran
  run_pipe cd none r = ran_null
  run_pipe true (some p) r =
      ran (record r { world = sys.start_pipeline p.members r.world }) p.last.ctrl_blk p.rest
  run_pipe false (some p) r =
      let (status, w) = sys.run_pipeline p.members r.world in
      let (r', cs) = waited status w r p.rest in ran r' p.last.ctrl_blk cs

  unfoldable pub run_cd : Command → Run World → List Command → Ran
  run_cd c r cs = elim (sys.redirect c r.world) [
    | none ↦ ran_exit
    | some w ↦
        let (status, w') = sys.change_dir (second_arg c) w in
        ran (record r { world = w'; prev_exit_stat = status }) c.ctrl_blk cs
  ]

  unfoldable pub run_plain : Command → Run World → List Command → Ran
  run_plain c r cs =
      let (status, w) = sys.run_command c r.world in
      let (r', cs') = waited status w r cs in ran r' c.ctrl_blk cs'

  unfoldable pub run_node : Command → Run World → List Command → Ran
  run_node c r cs =
      if c.pipe_nxt
      then run_pipe (is_cd c) (begin_piping c cs) r
      else if is_cd c
      then run_cd c r cs
      else run_plain c r cs

  -- The check for the transition from `if` to `then`, at the next node.
  unfoldable pub transition : Ctrl → Run World → List Command → Run World
  transition prev_ctrl r [] = r
  transition prev_ctrl r (c ∷ cs) =
      if is_then c.ctrl_blk && is_want_then prev_ctrl
      then record r { ctrl_result = some r.prev_exit_stat }
      else if is_neutral c.ctrl_blk
      then record r { ctrl_result = none }
      else r

  -- The body of the loop at node `c`, with the nodes behind it.
  unfoldable pub visit : Option ℕ → Command → Run World → List Command → Ran
  visit rungrp c r cs = if selected rungrp c r then run_node c r cs else ran r neutral cs

  -- `while (exec_node != NULL)`; a round leaves fewer nodes, so the length of the list is fuel.
  unfoldable pub run_loop : ℕ → Option ℕ → List Command → Run World → Finished World
  run_loop zero rungrp [] r = finished r
  run_loop zero rungrp (c ∷ cs) r = no_fuel
  run_loop (suc fuel) rungrp [] r = finished r
  run_loop (suc fuel) rungrp (c ∷ cs) r = elim (visit rungrp c r cs) [
    | ran r' prev_ctrl rest ↦ run_loop fuel rungrp rest (transition prev_ctrl r' rest)
    | ran_exit ↦ exit_shell
    | ran_null ↦ null_access
  ]

  unfoldable pub run_list : List Command → Option ℕ → World → Finished World
  run_list cs rungrp w =
      run_loop (length cs) rungrp cs (record { world = w; prev_exit_stat = 0; ctrl_result = none })
