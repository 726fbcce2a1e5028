-- ===== src/Shell/Wiring.antt =====
-- Assign5/sh61.c, begin_piping: how the children of a pipeline are joined.
use mathlib.Core.Path.{subst}
use systems_programming.Prelude.{
  ℕ, ◌≡◌, ◌≢◌, refl, sym, ap, ◌∙◌, true, false, Option, none, some, List, [], ◌∷◌, ◌==◌, arith,
  if◌then◌else◌, inl, inr, Option-cases, Bool-cases,
}
use systems_programming.Shell.Command.{Command}
use systems_programming.Shell.Posix.{Posix, View, PosixLaws, minus_one}
use systems_programming.Shell.Run.{Pipeline, begin_piping as pipeline_of}
use systems_programming.Shell.Launch.{
  ChildEnd, Child, Launched, exec_command, in_child, open_pipe, take_input, give_output, pipe_child,
  in_parent, with_child, next_round, pipe_round, after_pipe, pipe_loop, begin_piping,
}
use systems_programming.Shell.Descriptors.{
  seen, Table, Holding, Holding-same, with_pipe, Holding-with_pipe, in_parent-lem, take_input-lem,
  give_output-lem,
}

module _ {Os : Type 0} (os : Posix Os) (v : View Os) (laws : PosixLaws os v) where
  -- A child redirects and executes its command with these descriptors; or its fork failed.
  abbrev pub Sees : Command → (ℕ → Option v.File) → Child Os → Type 0
  Sees c table (pid, none) = (pid ≡ minus_one) × ((p : Os) × ((os.fork p).0 ≡ none))
  Sees c table (pid, some end) =
      (p : Os) × (end ≡ exec_command os c p) × ((i : ℕ) → v.table p i ≡ table i)

  -- The children of a pipeline: the first has `input`, each one's output is joined to the next one's
  -- input by a pipe, and the last has the output of the shell. They have nothing else open but what the
  -- shell has.
  abbrev pub Wired : Table v → Option v.File → List Command → List (Child Os) → Type 0
  Wired base input [] [] = Unit {0}
  Wired base input (c ∷ []) (s ∷ []) = Sees c (seen base input (base 1)) s
  Wired base input (c ∷ d ∷ ds) (s ∷ ss) =
      (to : v.File) × (from : v.File) × v.Joined to from
      × Sees c (seen base input (some to)) s
      × Wired base (some from) (d ∷ ds) ss
  Wired base input _ _ = ⊥

  abbrev pub node_of : Command × ℕ × List Command → Command × List Command
  node_of (c, pid, cs) = (c, cs)

  -- What is launched is the pipeline that `p` describes, and the shell has the descriptors of before.
  pub record Pipes (base : Table v) (input : Option v.File) (q : Pipeline) (l : Launched Os)
      : Type 0 where
    pub returns : (pid : ℕ) × (l.node ≡ some (q.last, pid, q.rest))
    pub wired : Wired base input q.members l.children
    pub nothing_left : (i : ℕ) → v.table l.shell i ≡ base i

  -- Some call of pipe fails.
  abbrev pub PipeFails : Type 0
  PipeFails = (p : Os) × ((os.pipe p).0 ≡ none)

  abbrev pub PipesPost : Table v → Option v.File → Pipeline → Option (Launched Os) → Type 0
  PipesPost base input q none = PipeFails
  PipesPost base input q (some l) = Pipes base input q l

  -- A child that sees `table` where it is not for want of a child.
  in_child-Sees :
      (c : Command) (table : ℕ → Option v.File) (p : Os) (body : Os → ChildEnd Os)
      → ((child : Os)
          → ((i : ℕ) → v.table child i ≡ v.table p i)
          → (x : Os) × (body child ≡ exec_command os c x) × ((i : ℕ) → v.table x i ≡ table i))
      → Sees c table (in_child os body (os.fork p).0)
  in_child-Sees c table p body h = go (os.fork p).0 refl (λ pid child e. laws.forks p pid child e)
    where
      go :
          (o : Option (ℕ × Os))
          → (os.fork p).0 ≡ o
          → ((pid : ℕ) (child : Os)
              → o ≡ some (pid, child)
              → (i : ℕ) → v.table child i ≡ v.table p i)
          → Sees c table (in_child os body o)
      go none e f = (refl, (p, e))
      go (some (pid, child)) e f = h child (f pid child refl)

  module _ (base : Table v) (std0 : base 0 ≢ none) (std1 : base 1 ≢ none) where
    -- The child of the last command.
    last-Sees :
        (c : Command) (input : Option v.File) (prev : Option ℕ) (pgid : ℕ) (p : Os)
        → Holding v base input prev p
        → Sees c
            (seen base input (base 1))
            (in_child os (pipe_child os c prev none pgid) (os.fork p).0)
    unfolding pipe_child give_output
    last-Sees c input prev pgid p h =
        in_child-Sees c (seen base input (base 1)) p (pipe_child os c prev none pgid) λ child same.
          (
            take_input os prev (os.setpgid 0 pgid child),
            refl,
            take_input-lem os v laws base input prev (os.setpgid 0 pgid child) std0 (
                Holding-same v base input prev p (os.setpgid 0 pgid child)
                  (λ i. laws.setpgids 0 pgid child i ∙ same i) h),
          )

    -- The child of another command, behind the call of pipe.
    member-Sees :
        (c : Command) (input : Option v.File) (prev : Option ℕ) (pgid : ℕ) (p : Os) (r w : ℕ)
        (from to : v.File)
        → base r ≡ none
        → base w ≡ none
        → r ≢ w
        → Holding v (with_pipe v base r w from to) input prev p
        → Sees c
            (seen base input (some to))
            (in_child os (pipe_child os c prev (some (r, w)) pgid) (os.fork p).0)
    unfolding pipe_child
    member-Sees c input prev pgid p r w from to er ew rw h =
        let r0 : r ≢ 0 = λ z. std0 (ap base (sym z) ∙ er) in
        let w0 : w ≢ 0 = λ z. std0 (ap base (sym z) ∙ ew) in
        let r1 : r ≢ 1 = λ z. std1 (ap base (sym z) ∙ er) in
        let w1 : w ≢ 1 = λ z. std1 (ap base (sym z) ∙ ew) in
        let wide = with_pipe v base r w from to in
        let same0 : wide 0 ≡ base 0 = ground (arith, r0, w0) in
        let same1 : wide 1 ≡ base 1 = ground (arith, r1, w1) in
        in_child-Sees c (seen base input (some to)) p (pipe_child os c prev (some (r, w)) pgid)
          λ child same.
            let own = os.setpgid 0 pgid child in
            (
              give_output os (some (r, w)) (take_input os prev own),
              refl,
              give_output-lem os v laws base input r w from to (take_input os prev own) std0 std1 er
                  ew rw
                  (λ i.
                    take_input-lem os v laws wide input prev own (λ z. std0 (sym same0 ∙ z))
                      (Holding-same v wide input prev p own
                        (λ j. laws.setpgids 0 pgid child j ∙ same j) h)
                      i
                    ∙ ap (λ x. seen wide input x i) same1),
            )

    pipeline_of-members :
        (c : Command) (cs : List Command) {q : Pipeline}
        → pipeline_of c cs ≡ some q
        → (ms : List Command) × (q.members ≡ c ∷ ms)
    unfolding pipeline_of
    pipeline_of-members c [] {q} e = ([], ground (arith, e))
    pipeline_of-members c (d ∷ cs) {q} e = elim (Bool-cases c.pipe_nxt) [
      | inr n ↦ ([], ground (arith, e, n))
      | inl n ↦ elim (Option-cases (pipeline_of d cs)) [
        | inl m ↦ absurd (ground (arith, e, n, m))
        | inr (q1, m) ↦ (q1.members, ground (arith, e, n, m))
      ]
    ]

    open_pipe-last : (c : Command) (p : Os) → c.pipe_nxt ≡ false → open_pipe os c p ≡ some (none, p)
    unfolding open_pipe
    open_pipe-last c p e = ground (arith, e)

    open_pipe-fails :
        (c : Command) (p : Os) → c.pipe_nxt ≡ true → (os.pipe p).0 ≡ none → open_pipe os c p ≡ none
    unfolding open_pipe
    open_pipe-fails c p e n = ground (arith, e, n)

    open_pipe-member :
        (c : Command) (p : Os) (fds : ℕ × ℕ)
        → c.pipe_nxt ≡ true
        → (os.pipe p).0 ≡ some fds
        → open_pipe os c p ≡ some (some fds, (os.pipe p).1)
    unfolding open_pipe
    open_pipe-member c p fds e n = ground (arith, e, n)

    last-Pipes :
        (rest : Option ℕ → ℕ → Os → Option (Launched Os)) (c : Command) (cs : List Command)
        (input : Option v.File) (prev : Option ℕ) (pgid : ℕ) (p : Os)
        → c.pipe_nxt ≡ false
        → Holding v base input prev p
        → PipesPost base input
            (record { members = c ∷ []; last = c; rest = cs })
            (pipe_round os rest c cs prev pgid p)
    unfolding pipe_round after_pipe next_round
    last-Pipes rest c cs input prev pgid p e h =
        let one : Pipeline = record { members = c ∷ []; last = c; rest = cs } in
        let launched : PipesPost base input one
            (after_pipe os rest c cs prev pgid (some (none, p))) =
          record {
            returns = ((in_child os (pipe_child os c prev none pgid) (os.fork p).0).0, refl);
            wired = last-Sees c input prev pgid p h;
            nothing_left =
                in_parent-lem os v laws base input prev pgid _ (os.fork p).1
                  (Holding-same v base input prev p (os.fork p).1 (λ i. laws.fork_parent p i) h);
          } in
        subst (λ o. PipesPost base input one (after_pipe os rest c cs prev pgid o))
          (sym (open_pipe-last c p e)) launched

    with_child-Pipes :
        (c d : Command) (ms : List Command) (input : Option v.File) (child : Child Os)
        (q : Pipeline) (from to : v.File) (o : Option (Launched Os))
        → q.members ≡ d ∷ ms
        → v.Joined to from
        → Sees c (seen base input (some to)) child
        → PipesPost base (some from) q o
        → PipesPost base input (record q { members = c ∷ q.members }) (with_child os child o)
    with_child-Pipes c d ms input child q from to none e j s p = p
    with_child-Pipes c d ms input child q from to (some l) e j s p = record {
      returns = p.returns;
      wired =
          subst (λ m. Wired base input (c ∷ m) (child ∷ l.children)) (sym e)
            (to, from, j, s, subst (λ m. Wired base (some from) m l.children) e p.wired);
      nothing_left = p.nothing_left;
    }

    member-Pipes :
        (rest : Option ℕ → ℕ → Os → Option (Launched Os)) (c d : Command) (cs ms : List Command)
        (input : Option v.File) (prev : Option ℕ) (pgid : ℕ) (p : Os) (q : Pipeline)
        → c.pipe_nxt ≡ true
        → q.members ≡ d ∷ ms
        → ((input' : Option v.File) (prev' : Option ℕ) (pgid' : ℕ) (p' : Os)
            → Holding v base input' prev' p'
            → PipesPost base input' q (rest prev' pgid' p'))
        → Holding v base input prev p
        → PipesPost base input
            (record q { members = c ∷ q.members })
            (pipe_round os rest c cs prev pgid p)
    unfolding pipe_round after_pipe next_round
    member-Pipes rest c d cs ms input prev pgid p q e me ih h =
        let all : Pipeline = record q { members = c ∷ q.members } in
        elim (Option-cases (os.pipe p).0) [
          | inl n ↦
              subst (λ o. PipesPost base input all (after_pipe os rest c cs prev pgid o))
                (sym (open_pipe-fails c p e n)) (p, n)
          | inr ((r, w), n) ↦
              let (er, ew, rw', (to, from, joined, t)) = laws.pipes p r w n in
              let p1 = (os.pipe p).1 in
              let (h1, br, bw) =
                Holding-with_pipe v base input prev p p1 r w from to std0 er ew t h in
              let child = in_child os (pipe_child os c prev (some (r, w)) pgid) (os.fork p1).0 in
              let p2 = in_parent os prev pgid child.0 (os.fork p1).1 in
              let t2 =
                in_parent-lem os v laws (with_pipe v base r w from to) input prev pgid child.0
                  (os.fork p1).1
                  (Holding-same v (with_pipe v base r w from to) input prev p1 (os.fork p1).1
                    (λ i. laws.fork_parent p1 i) h1) in
              let h3 : Holding v base (some from) (some r) (os.close w p2) = (
                br,
                (from, refl),
                λ i.
                    laws.closes w p2 i
                    ∙ ap (λ x. if i == w then none else x) (t2 i)
                    ∙ ground (arith, br, bw, rw'),
              ) in
              subst (λ o. PipesPost base input all (after_pipe os rest c cs prev pgid o))
                (sym (open_pipe-member c p (r, w) e n))
                (with_child-Pipes c d ms input child q from to _ me joined
                  (member-Sees c input prev pgid p1 r w from to br bw rw' h1)
                  (ih (some from) (some r) _ (os.close w p2) h3))
        ]

    pipe_loop-Pipes :
        (c : Command) (cs : List Command) {q : Pipeline} (input : Option v.File) (prev : Option ℕ)
        (pgid : ℕ) (p : Os)
        → pipeline_of c cs ≡ some q
        → Holding v base input prev p
        → PipesPost base input q (pipe_loop os (c ∷ cs) prev pgid p)
    unfolding pipe_loop pipeline_of
    pipe_loop-Pipes c [] {q} input prev pgid p e h = elim (Bool-cases c.pipe_nxt) [
      | inl n ↦ absurd (ground (arith, e, n))
      | inr n ↦
          subst (λ x. PipesPost base input x (pipe_loop os (c ∷ []) prev pgid p))
            (ground (arith, e, n)) (last-Pipes (pipe_loop os []) c [] input prev pgid p n h)
    ]
    pipe_loop-Pipes c (d ∷ cs) {q} input prev pgid p e h = elim (Bool-cases c.pipe_nxt) [
      | inr n ↦
          subst (λ x. PipesPost base input x (pipe_loop os (c ∷ d ∷ cs) prev pgid p))
            (ground (arith, e, n))
            (last-Pipes (pipe_loop os (d ∷ cs)) c (d ∷ cs) input prev pgid p n h)
      | inl n ↦ elim (Option-cases (pipeline_of d cs)) [
        | inl m ↦ absurd (ground (arith, e, n, m))
        | inr (q1, m) ↦
            let (ms, me) = pipeline_of-members d cs m in
            subst (λ x. PipesPost base input x (pipe_loop os (c ∷ d ∷ cs) prev pgid p))
              (ground (arith, e, n, m))
              (member-Pipes (pipe_loop os (d ∷ cs)) c d (d ∷ cs) ms input prev pgid p q1 n me
                (λ input' prev' pgid' p' h'. pipe_loop-Pipes d cs input' prev' pgid' p' m h') h)
      ]
    ]

  -- With standard input and output open: begin_piping goes through the pipeline that `pipeline_of`
  -- describes and returns its last node; for each of its commands there is a child, or fork failed; each
  -- child's output is joined to the input that is meant for the next one, and no other descriptor is
  -- left open, neither in the children where they redirect and execute nor in the shell; or an
  -- assertion fails, and then some call of pipe fails.
  pub begin_piping-Pipes :
      (c : Command) (cs : List Command) (q : Pipeline) (pgid : ℕ) (p : Os)
      → v.table p 0 ≢ none
      → v.table p 1 ≢ none
      → pipeline_of c cs ≡ some q
      → PipesPost (v.table p) (v.table p 0) q (begin_piping os c cs pgid p)
  unfolding begin_piping
  begin_piping-Pipes c cs q pgid p std0 std1 e =
      pipe_loop-Pipes (v.table p) std0 std1 c cs (v.table p 0) none pgid p e (refl, λ i. refl)
