-- ===== src/Shell/Launch.antt =====
-- Assign5/sh61.c: do_redir, cmd_redir, change_dir, start_command, and begin_piping with its
-- descriptors. A child process is followed up to its execvp or its exit.
use systems_programming.Prelude.{ℕ, Bool, Option, none, some, List, [], ◌∷◌, ◌==◌, if◌then◌else◌}
use systems_programming.Shell.Command.{Word, Command}
use systems_programming.Shell.Posix.{Posix, OpenMode, read_only, truncating, appending, minus_one}

-- How a child ends its part of the shell.
pub data ChildEnd (Os : Type 0) : Type 0 where
  executes : List Word → Os → ChildEnd Os
  exits_one : ChildEnd Os

-- What fork came to: the pid, and the child unless fork failed.
abbrev pub Child : Type 0 → Type 0
Child Os = ℕ × Option (ChildEnd Os)

-- What begin_piping leaves: the node that it returns with its pid and the nodes behind it, `none`
-- for NULL; the children in the order of the pipeline; and the shell's own process.
pub record Launched (Os : Type 0) : Type 0 where
  pub node : Option (Command × ℕ × List Command)
  pub children : List (Child Os)
  pub shell : Os

module _ {Os : Type 0} (os : Posix Os) where
  -- `none` is exit(1).
  unfoldable pub do_redir : ℕ → Word → OpenMode → Os → Option Os
  do_redir redirfd fname mode p =
      let (opened, p1) = os.open_file fname mode p in
      elim opened [
        | none ↦ none
        | some fd ↦
            let (ok, p2) = os.dup2 fd redirfd p1 in if ok then some (os.close fd p2) else none
      ]

  -- One of the three redirections, where the command has it.
  unfoldable pub redir_to : ℕ → Option Word → OpenMode → Os → Option Os
  redir_to redirfd none mode p = some p
  redir_to redirfd (some fname) mode p = do_redir redirfd fname mode p

  abbrev pub out_mode : Bool → OpenMode
  out_mode append = if append then appending else truncating

  unfoldable pub cmd_redir : Command → Os → Option Os
  cmd_redir c p = elim (redir_to 0 c.redir_in read_only p) [
    | none ↦ none
    | some p1 ↦ elim (redir_to 1 c.redir_out (out_mode c.redir_app_out) p1) [
      | none ↦ none
      | some p2 ↦ redir_to 2 c.redir_err (out_mode c.redir_app_err) p2
    ]
  ]

  -- The child's last lines, from cmd_redir on.
  unfoldable pub exec_command : Command → Os → ChildEnd Os
  exec_command c p = elim (cmd_redir c p) [
    | none ↦ exits_one
    | some p1 ↦ if os.exec_fails c.argv p1 then exits_one else executes c.argv p1
  ]

  -- 0, or 1 where chdir fails.
  unfoldable pub change_dir : Option Word → Os → ℕ × Os
  change_dir none p = (0, p)
  change_dir (some dir_str) p = let (ok, p1) = os.chdir dir_str p in ((if ok then 0 else 1), p1)

  -- What fork returns, in the parent.
  abbrev pub fork_pid : Option (ℕ × Os) → ℕ
  fork_pid none = minus_one
  fork_pid (some (pid, child)) = pid

  -- The child's branch, where there is a child.
  abbrev pub in_child : (Os → ChildEnd Os) → Option (ℕ × Os) → Child Os
  in_child body none = (minus_one, none)
  in_child body (some (pid, child)) = (pid, some (body child))

  unfoldable pub start_command : Command → ℕ → Os → Child Os × Os
  start_command c pgid p =
      let (forked, p1) = os.fork p in
      let pid = fork_pid forked in
      (
        in_child (λ child. exec_command c (os.setpgid 0 pgid child)) forked,
        os.setpgid pid (if pgid == 0 then pid else pgid) p1,
      )

  -- if (exec_node->pipe_nxt == 1) pipe(pipefd); the outer `none` is the failed assertion.
  unfoldable pub open_pipe : Command → Os → Option (Option (ℕ × ℕ) × Os)
  open_pipe c p =
      if c.pipe_nxt
      then (let (opened, p1) = os.pipe p in
          elim opened [ none ↦ none | some fds ↦ some (some fds, p1) ])
      else some (none, p)

  -- Standard input from the pipe before, if there is one.
  unfoldable pub take_input : Option ℕ → Os → Os
  take_input none p = p
  take_input (some prev_pipefd0) p = os.close prev_pipefd0 (os.dup2 prev_pipefd0 0 p).1

  -- Standard output to the pipe behind, if there is one.
  unfoldable pub give_output : Option (ℕ × ℕ) → Os → Os
  give_output none p = p
  give_output (some (r, w)) p = os.close w (os.dup2 w 1 (os.close r p)).1

  -- The child of a pipeline.
  unfoldable pub pipe_child : Command → Option ℕ → Option (ℕ × ℕ) → ℕ → Os → ChildEnd Os
  pipe_child c prev fds pgid p =
      exec_command c (give_output fds (take_input prev (os.setpgid 0 pgid p)))

  -- The parent closes the read end that the child has taken.
  unfoldable pub close_prev : Option ℕ → Os → Os
  close_prev none p = p
  close_prev (some prev_pipefd0) p = os.close prev_pipefd0 p

  -- The parent's part of a round, up to the check for the end of the pipeline.
  unfoldable pub in_parent : Option ℕ → ℕ → ℕ → Os → Os
  in_parent prev pgid pid p = close_prev prev (os.setpgid pid (if pgid == 0 then pid else pgid) p)

  abbrev pub with_child : Child Os → Option (Launched Os) → Option (Launched Os)
  with_child child none = none
  with_child child (some l) = some (record l { children = child ∷ l.children })

  -- The end of a round. `none` is a failed assertion; `rest` is the loop on the nodes behind.
  unfoldable pub next_round :
      (Option ℕ → ℕ → Os → Option (Launched Os))
      → Command
      → List Command
      → Child Os
      → Option (ℕ × ℕ)
      → ℕ
      → Os
      → Option (Launched Os)
  next_round rest c cs child none pgid p =
      some (record { node = some (c, child.0, cs); children = child ∷ []; shell = p })
  next_round rest c cs child (some (r, w)) pgid p =
      with_child child (rest (some r) (if pgid == 0 then child.0 else pgid) (os.close w p))

  -- A round behind its call of pipe: the fork, the child, and the parent.
  unfoldable pub after_pipe :
      (Option ℕ → ℕ → Os → Option (Launched Os))
      → Command
      → List Command
      → Option ℕ
      → ℕ
      → Option (Option (ℕ × ℕ) × Os)
      → Option (Launched Os)
  after_pipe rest c cs prev pgid none = none
  after_pipe rest c cs prev pgid (some (fds, p)) =
      let (forked, p1) = os.fork p in
      let child = in_child (pipe_child c prev fds pgid) forked in
      next_round rest c cs child fds pgid (in_parent prev pgid child.0 p1)

  -- A round of the piping loop at node `c`, with the nodes behind it.
  unfoldable pub pipe_round :
      (Option ℕ → ℕ → Os → Option (Launched Os))
      → Command
      → List Command
      → Option ℕ
      → ℕ
      → Os
      → Option (Launched Os)
  pipe_round rest c cs prev pgid p = after_pipe rest c cs prev pgid (open_pipe c p)

  -- `while (exec_node != NULL && end_pipe == 1)`
  unfoldable pub pipe_loop : List Command → Option ℕ → ℕ → Os → Option (Launched Os)
  pipe_loop [] prev pgid p = some (record { node = none; children = []; shell = p })
  pipe_loop (c ∷ cs) prev pgid p = pipe_round (pipe_loop cs) c cs prev pgid p

  unfoldable pub begin_piping : Command → List Command → ℕ → Os → Option (Launched Os)
  begin_piping c cs pgid p = pipe_loop (c ∷ cs) none pgid p

  -- dup2(oldfds[i], i), where dup may have failed
  abbrev pub put_back : Option ℕ → ℕ → Os → Os
  put_back none fd p = (os.dup2 minus_one fd p).1
  put_back (some old) fd p = (os.dup2 old fd p).1

  -- The cd branch of run_list; `none` is exit(1).
  unfoldable pub run_cd : Command → Option Word → Os → Option (ℕ × Os)
  run_cd c dirname p =
      let (in0, p1) = os.dup 0 p in
      let (out, p2) = os.dup 1 p1 in
      let (err, p3) = os.dup 2 p2 in
      elim (cmd_redir c p3) [
        | none ↦ none
        | some p4 ↦
            let (status, p5) = change_dir dirname p4 in
            some (status, put_back err 2 (put_back out 1 (put_back in0 0 p5)))
      ]
