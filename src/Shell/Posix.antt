-- ===== src/Shell/Posix.antt =====
-- Assign5/sh61.c: the system calls of the shell on one process, and what POSIX says of them.
use systems_programming.Prelude.{
  ℕ, ◌^◌, ◌-◌, ◌<◌, ◌≡◌, ◌≢◌, Bool, true, Option, none, some, List, ◌==◌, if◌then◌else◌,
}
use systems_programming.Shell.Command.{Word}

-- The flags of the `open` calls of cmd_redir.
pub data OpenMode : Type 0 where
  read_only truncating appending : OpenMode

-- -1 as a pid or a descriptor
abbrev pub minus_one : ℕ
minus_one = 2 ^ 32 - 1

-- `Os` is what the kernel keeps of one process; `none` is -1.
pub record Posix (Os : Type 0) : Type 0 where
  pub open_file : Word → OpenMode → Os → Option ℕ × Os
  pub dup : ℕ → Os → Option ℕ × Os
  -- dup2(old, new)
  pub dup2 : ℕ → ℕ → Os → Bool × Os
  pub close : ℕ → Os → Os
  -- the read end and the write end
  pub pipe : Os → Option (ℕ × ℕ) × Os
  -- the pid of the child and its process; and the parent's
  pub fork : Os → Option (ℕ × Os) × Os
  pub setpgid : ℕ → ℕ → Os → Os
  pub chdir : Word → Os → Bool × Os
  -- Does execvp return?
  pub exec_fails : List Word → Os → Bool

-- One entry of a table of descriptors.
abbrev pub with_entry : {File : Type 0} → (ℕ → Option File) → ℕ → Option File → ℕ → Option File
with_entry t fd entry i = if i == fd then entry else t i

-- The open descriptors of a process. `Joined w r` are the ends of one pipe, and `Opened name mode f`
-- is what open returns.
pub record View (Os : Type 0) : Type 1 where
  pub File : Type 0
  pub table : Os → ℕ → Option File
  pub Joined : File → File → Type 0
  pub Opened : Word → OpenMode → File → Type 0

-- What the calls do to them.
pub record PosixLaws {Os : Type 0} (os : Posix Os) (v : View Os) : Type 0 where
  pub opens :
      (name : Word) (mode : OpenMode) (p : Os) (fd : ℕ)
      → (os.open_file name mode p).0 ≡ some fd
      → (v.table p fd ≡ none)
        × ((file : v.File) × v.Opened name mode file
            × ((i : ℕ)
                → v.table (os.open_file name mode p).1 i ≡ with_entry (v.table p) fd (some file) i))
  -- The descriptors 0 to 2 are in the range of every process.
  pub dup2s :
      (old new : ℕ) (p : Os) (file : v.File)
      → v.table p old ≡ some file
      → new < 3
      → ((os.dup2 old new p).0 ≡ true)
        × ((i : ℕ) → v.table (os.dup2 old new p).1 i ≡ with_entry (v.table p) new (some file) i)
  pub dups :
      (old : ℕ) (p : Os) (fd : ℕ)
      → (os.dup old p).0 ≡ some fd
      → (v.table p fd ≡ none)
        × ((i : ℕ) → v.table (os.dup old p).1 i ≡ with_entry (v.table p) fd (v.table p old) i)
  pub closes :
      (fd : ℕ) (p : Os) (i : ℕ) → v.table (os.close fd p) i ≡ with_entry (v.table p) fd none i
  pub pipes :
      (p : Os) (r w : ℕ)
      → (os.pipe p).0 ≡ some (r, w)
      → (v.table p r ≡ none)
        × (v.table p w ≡ none)
        × (r ≢ w)
        × ((to : v.File) × (from : v.File) × v.Joined to from
            × ((i : ℕ)
                → v.table (os.pipe p).1 i
                  ≡ with_entry (with_entry (v.table p) r (some from)) w (some to) i))
  -- The child starts with the descriptors of its parent.
  pub forks :
      (p : Os) (pid : ℕ) (child : Os)
      → (os.fork p).0 ≡ some (pid, child)
      → (i : ℕ) → v.table child i ≡ v.table p i
  pub fork_parent : (p : Os) (i : ℕ) → v.table (os.fork p).1 i ≡ v.table p i
  pub setpgids : (pid pgid : ℕ) (p : Os) (i : ℕ) → v.table (os.setpgid pid pgid p) i ≡ v.table p i
  pub chdirs : (name : Word) (p : Os) (i : ℕ) → v.table (os.chdir name p).1 i ≡ v.table p i
