-- ===== src/Shell/Descriptors.antt =====
-- Assign5/sh61.c, begin_piping: the descriptors of the shell and of a child in one round.
use systems_programming.Prelude.{
  ℕ, ◌≡◌, ◌≢◌, sym, ap, ◌∙◌, Option, none, some, ◌==◌, arith, if◌then◌else◌,
}
use systems_programming.Shell.Posix.{Posix, View, PosixLaws, with_entry}
use systems_programming.Shell.Launch.{take_input, give_output, close_prev, in_parent}

-- What a member of a pipeline has open: standard input and output, and else what the shell has.
abbrev pub seen : {File : Type 0} → (ℕ → Option File) → Option File → Option File → ℕ → Option File
seen base input out i = if i == 0 then input else if i == 1 then out else base i

module _ {Os : Type 0} (v : View Os) where
  abbrev pub Table : Type 0
  Table = ℕ → Option v.File

  -- The descriptors are those of `base`, and the read end `prev` of the pipe before is `input`.
  abbrev pub Holding : Table → Option v.File → Option ℕ → Os → Type 0
  Holding base input none p = (input ≡ base 0) × ((i : ℕ) → v.table p i ≡ base i)
  Holding base input (some r) p =
      (base r ≡ none)
      × ((f : v.File) × (input ≡ some f))
      × ((i : ℕ) → v.table p i ≡ with_entry base r input i)

  pub Holding-same :
      (base : Table) (input : Option v.File) (prev : Option ℕ) (p q : Os)
      → ((i : ℕ) → v.table q i ≡ v.table p i)
      → Holding base input prev p
      → Holding base input prev q
  Holding-same base input none p q same (e, t) = (e, λ i. same i ∙ t i)
  Holding-same base input (some r) p q same (e, f, t) = (e, f, λ i. same i ∙ t i)

  -- A new pipe beside what is held.
  abbrev pub with_pipe : Table → ℕ → ℕ → v.File → v.File → Table
  with_pipe base r w from to = with_entry (with_entry base r (some from)) w (some to)

  pub Holding-with_pipe :
      (base : Table) (input : Option v.File) (prev : Option ℕ) (p q : Os) (r w : ℕ)
      (from to : v.File)
      → base 0 ≢ none
      → v.table p r ≡ none
      → v.table p w ≡ none
      → ((i : ℕ) → v.table q i ≡ with_pipe (v.table p) r w from to i)
      → Holding base input prev p
      → Holding (with_pipe base r w from to) input prev q × (base r ≡ none) × (base w ≡ none)
  Holding-with_pipe base input none p q r w from to std er ew t (e, tp) =
      let br = sym (tp r) ∙ er in
      let bw = sym (tp w) ∙ ew in
      let r0 : r ≢ 0 = λ z. std (ap base (sym z) ∙ br) in
      let w0 : w ≢ 0 = λ z. std (ap base (sym z) ∙ bw) in
      ((e ∙ ground (arith, r0, w0), λ i. t i ∙ ground (arith, tp i)), br, bw)
  Holding-with_pipe base input (some l) p q r w from to std er ew t (e, (f, ef), tp) =
      let rl : r ≢ l = λ z. ground (arith, z, tp r, er, ef) in
      let wl : w ≢ l = λ z. ground (arith, z, tp w, ew, ef) in
      (
        (ground (arith, e, rl, wl), (f, ef), λ i. t i ∙ ground (arith, tp i, rl, wl)),
        ground (arith, rl, tp r, er),
        ground (arith, wl, tp w, ew),
      )

module _ {Os : Type 0} (os : Posix Os) (v : View Os) (laws : PosixLaws os v) where
  -- The parent closes the read end of the pipe before.
  pub in_parent-lem :
      (base : Table v) (input : Option v.File) (prev : Option ℕ) (pgid pid : ℕ) (p : Os)
      → Holding v base input prev p
      → (i : ℕ) → v.table (in_parent os prev pgid pid p) i ≡ base i
  unfolding in_parent close_prev
  in_parent-lem base input none pgid pid p (e, t) i = laws.setpgids pid _ p i ∙ t i
  in_parent-lem base input (some r) pgid pid p (e, f, t) i =
      laws.closes r _ i
      ∙ ap (λ x. if i == r then none else x) (laws.setpgids pid _ p i ∙ t i)
      ∙ ground (arith, e)

  -- The child takes it as its standard input.
  pub take_input-lem :
      (base : Table v) (input : Option v.File) (prev : Option ℕ) (p : Os)
      → base 0 ≢ none
      → Holding v base input prev p
      → (i : ℕ) → v.table (take_input os prev p) i ≡ seen base input (base 1) i
  unfolding take_input
  take_input-lem base input none p std (e, t) i = t i ∙ ground (arith, e)
  take_input-lem base input (some r) p std (e, (f, ef), t) i =
      let r0 : r ≢ 0 = λ z. std (ap base (sym z) ∙ e) in
      let (ok, after) = laws.dup2s r 0 p f (t r ∙ ground (arith, ef)) (omega arith) in
      laws.closes r _ i
      ∙ ap (λ x. if i == r then none else x)
          (after i ∙ ap (λ x. if i == 0 then some f else x) (t i))
      ∙ ground (arith, e, ef, r0)

  -- And the write end of the new pipe as its standard output.
  pub give_output-lem :
      (base : Table v) (input : Option v.File) (r w : ℕ) (from to : v.File) (p : Os)
      → base 0 ≢ none
      → base 1 ≢ none
      → base r ≡ none
      → base w ≡ none
      → r ≢ w
      → ((i : ℕ) → v.table p i ≡ seen (with_pipe v base r w from to) input (base 1) i)
      → (i : ℕ) → v.table (give_output os (some (r, w)) p) i ≡ seen base input (some to) i
  unfolding give_output
  give_output-lem base input r w from to p std0 std1 er ew rw t i =
      let r0 : r ≢ 0 = λ z. std0 (ap base (sym z) ∙ er) in
      let w0 : w ≢ 0 = λ z. std0 (ap base (sym z) ∙ ew) in
      let r1 : r ≢ 1 = λ z. std1 (ap base (sym z) ∙ er) in
      let w1 : w ≢ 1 = λ z. std1 (ap base (sym z) ∙ ew) in
      let closed = laws.closes r p in
      let (ok, after) =
        laws.dup2s w 1 (os.close r p) to (closed w ∙ ground (arith, t w, w0, w1, rw))
          (omega arith) in
      laws.closes w _ i
      ∙ ap (λ x. if i == w then none else x)
          (after i
            ∙ ap (λ x. if i == 1 then some to else x)
                (closed i ∙ ap (λ x. if i == r then none else x) (t i)))
      ∙ ground (arith, er, ew, r0, w0, r1, w1)
