-- ===== src/Shell/ProcessTests.antt =====
-- Assign5/sh61.c: a small process, and the theorems on descriptors at it.
use systems_programming.Prelude.{
  ℕ, ◌+◌, ◌*◌, ◌<◌, ◌≡◌, refl, sym, ap, Bool, true, false, Option, none, some, List, [], ◌∷◌, arith,
  if◌then◌else◌, ltb, update,
}
use systems_programming.Shell.Command.{Command, neutral}
use systems_programming.Shell.Run.{Pipeline, begin_piping as pipeline_of}
use systems_programming.Shell.Posix.{Posix, View, PosixLaws, with_entry}
use systems_programming.Shell.Launch.{
  ChildEnd, executes, exits_one, Launched, do_redir, redir_to, cmd_redir, exec_command, change_dir,
  open_pipe, take_input, give_output, pipe_child, close_prev, in_parent, next_round, after_pipe,
  pipe_round, pipe_loop, begin_piping, run_cd,
}
use systems_programming.Shell.CdRestores.{CdPost, run_cd-CdPost}
use systems_programming.Shell.Wiring.{PipesPost, begin_piping-Pipes}

-- Descriptors below `used + 3` are as in `files`; the others are free. Pipe `k` has the ends `2 * k`
-- and `2 * k + 1`, every file that is opened is 1000, and the standard descriptors are 500 to 502.
record Proc : Type 0 where
  files : ℕ → Option ℕ
  used : ℕ

abbrev entry : Proc → ℕ → Option ℕ
entry p i = if ltb i (p.used + 3) then p.files i else none

abbrev add_file : Option ℕ → Proc → Proc
add_file f p = record { files = update p.files (p.used + 3) f; used = p.used + 1 }

abbrev copy_to : ℕ → Option ℕ → Proc → Bool × Proc
copy_to new none p = (false, p)
copy_to new (some f) p = (true, record p { files = update p.files new (some f) })

abbrev machine : Posix Proc
machine = record {
  open_file = λ name mode p. (some (p.used + 3), add_file (some 1000) p);
  dup = λ old p. (some (p.used + 3), add_file (entry p old) p);
  dup2 = λ old new p. copy_to new (entry p old) p;
  close = λ fd p. record p { files = update p.files fd none };
  pipe = λ p. (
    some (p.used + 3, p.used + 4),
    add_file (some (2 * p.used + 1)) (add_file (some (2 * p.used)) p),
  );
  fork = λ p. (some (7, p), p);
  setpgid = λ pid pgid p. p;
  chdir = λ name p. (true, p);
  exec_fails = λ argv p. false;
}

abbrev view : View Proc
view = record {
  File = ℕ;
  table = entry;
  Joined = λ to from. to ≡ from + 1;
  Opened = λ name mode f. f ≡ 1000;
}

copies :
    (new : ℕ) (p : Proc) (o : Option ℕ) (file : ℕ)
    → o ≡ some file
    → new < 3
    → ((copy_to new o p).0 ≡ true)
      × ((i : ℕ) → entry (copy_to new o p).1 i ≡ with_entry (entry p) new (some file) i)
copies new p none file e lt = absurd (cc)
copies new p (some f) file e lt = (refl, λ i. ground (arith, e, lt))

some_injective : {A : Type 0} {a b : A} → some a ≡ some b → a ≡ b
some_injective e = cc

added :
    (f : Option ℕ) (p : Proc) (fd : ℕ)
    → p.used + 3 ≡ fd
    → (entry p fd ≡ none) × ((i : ℕ) → entry (add_file f p) i ≡ with_entry (entry p) fd f i)
added f p fd e = (ground (arith, e), λ i. ground (arith, e))

machine_laws : PosixLaws machine view
machine_laws = record {
  opens = λ name mode p fd e. (
    (added (some 1000) p fd (some_injective e)).0,
    (1000, refl, (added (some 1000) p fd (some_injective e)).1),
  );
  dup2s = λ old new p file e lt. copies new p (entry p old) file e lt;
  dups = λ old p fd e. added (entry p old) p fd (some_injective e);
  closes = λ fd p i. ground arith;
  pipes = λ p r w e.
      let both = some_injective e in
      let er = ap (λ (x : ℕ × ℕ). x.0) both in
      let ew = ap (λ (x : ℕ × ℕ). x.1) both in
      (
        ground (arith, er),
        ground (arith, ew),
        omega (arith, er, ew),
        (2 * p.used + 1, 2 * p.used, refl, λ i. ground (arith, er, ew)),
      );
  forks = λ p pid child e i.
      ap (λ x. entry x i)
        (sym (ap (λ (x : Option (ℕ × Proc)). elim x as (λ _. Proc) [ none ↦ p | some y ↦ y.1 ]) e));
  fork_parent = λ p i. refl;
  setpgids = λ pid pgid p i. refl;
  chdirs = λ name p i. refl;
}

-- The shell, with its standard descriptors.
abbrev shell : Proc
shell = record { files = λ i. some (i + 500); used = 0 }

abbrev command_of : ℕ → Bool → Command
command_of name piped = record {
  argv = (name ∷ []) ∷ [];
  cond = none;
  rungrp = 0;
  ctrl_blk = neutral;
  pipe_nxt = piped;
  redir_app_out = false;
  redir_app_err = false;
  redir_in = none;
  redir_out = none;
  redir_err = none;
}

-- a | b | c
abbrev pipeline : Pipeline
pipeline = record {
  members = command_of b'a' true ∷ command_of b'b' true ∷ command_of b'c' false ∷ [];
  last = command_of b'c' false;
  rest = [];
}

is_pipeline :
    pipeline_of (command_of b'a' true) (command_of b'b' true ∷ command_of b'c' false ∷ [])
    ≡ some pipeline
unfolding pipeline_of
is_pipeline = refl

begin_piping-Pipes_example :
    PipesPost machine view machine_laws (entry shell) (entry shell 0) pipeline (
      begin_piping machine
        (command_of b'a' true)
        (command_of b'b' true ∷ command_of b'c' false ∷ [])
        0
        shell)
begin_piping-Pipes_example =
    begin_piping-Pipes machine view machine_laws (command_of b'a' true)
      (command_of b'b' true ∷ command_of b'c' false ∷ []) pipeline 0 shell (λ e. cc) (λ e. cc)
      is_pipeline

abbrev descriptors : ChildEnd Proc → List (Option ℕ)
descriptors exits_one = []
descriptors (executes argv p) =
    entry p 0 ∷ entry p 1 ∷ entry p 2 ∷ entry p 3 ∷ entry p 4 ∷ entry p 5 ∷ []

abbrev wires : Option (Launched Proc) → List (List (Option ℕ))
wires none = []
wires (some l) = go l.children
  where
    go : List (ℕ × Option (ChildEnd Proc)) → List (List (Option ℕ))
    go [] = []
    go ((pid, none) ∷ cs) = [] ∷ go cs
    go ((pid, some end) ∷ cs) = descriptors end ∷ go cs

-- `a` writes pipe 0, `b` reads it and writes pipe 2, and `c` reads that.
wires_test :
    wires (
      begin_piping machine
        (command_of b'a' true)
        (command_of b'b' true ∷ command_of b'c' false ∷ [])
        0
        shell)
    ≡ (some 500 ∷ some 1 ∷ some 502 ∷ none ∷ none ∷ none ∷ [])
      ∷ (some 0 ∷ some 5 ∷ some 502 ∷ none ∷ none ∷ none ∷ [])
      ∷ (some 4 ∷ some 501 ∷ some 502 ∷ none ∷ none ∷ none ∷ [])
      ∷ []
unfolding begin_piping pipe_loop pipe_round after_pipe next_round in_parent close_prev pipe_child
    give_output take_input open_pipe exec_command cmd_redir redir_to
wires_test = refl

-- cd d > f
abbrev cd_command : Command
cd_command = record (command_of b'c' false) { redir_out = some (b'f' ∷ []) }

abbrev after_cd : Proc
after_cd = elim (run_cd machine cd_command (some (b'd' ∷ [])) shell) as (λ _. Proc) [
  | none ↦ shell
  | some r ↦ r.1
]

cd_runs : run_cd machine cd_command (some (b'd' ∷ [])) shell ≡ some (0, after_cd)
unfolding run_cd cmd_redir redir_to do_redir change_dir
cd_runs = refl

run_cd-CdPost_example :
    CdPost machine view machine_laws cd_command shell 3 4 5
      (run_cd machine cd_command (some (b'd' ∷ [])) shell)
run_cd-CdPost_example =
    run_cd-CdPost machine view machine_laws cd_command (some (b'd' ∷ [])) shell 3 4 5
      (λ i lt e. ground (arith, lt, e)) (record { input = refl; out = refl; err = refl })
