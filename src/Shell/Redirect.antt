-- ===== src/Shell/Redirect.antt =====
-- Assign5/sh61.c, cmd_redir and the cd branch of run_list: what they do to the descriptors.
use systems_programming.Prelude.{
  ℕ, ◌<◌, ◌≤◌, ◌≡◌, ◌≢◌, ◌⊎◌, refl, sym, ap, ◌∙◌, Option, none, some, ◌==◌, arith, if◌then◌else◌,
  inl, inr, Option-cases,
}
use systems_programming.Shell.Command.{Word, Command}
use systems_programming.Shell.Posix.{Posix, OpenMode, read_only, View, PosixLaws}
use systems_programming.Shell.Launch.{do_redir, redir_to, out_mode, cmd_redir}

module _ {Os : Type 0} (os : Posix Os) (v : View Os) (laws : PosixLaws os v) where
  -- The standard descriptors are open.
  abbrev pub StdOpen : Os → Type 0
  StdOpen p = (i : ℕ) → i < 3 → v.table p i ≢ none

  -- A standard descriptor: as before, or the file of the redirection.
  abbrev pub Slot : Option Word → OpenMode → Option v.File → Option v.File → Type 0
  Slot none mode old new = new ≡ old
  Slot (some name) mode old new = (file : v.File) × v.Opened name mode file × (new ≡ some file)

  -- One descriptor is redirected, the others are as before.
  pub record Redirects (fd : ℕ) (name : Option Word) (mode : OpenMode) (p p' : Os) : Type 0 where
    pub slot : Slot name mode (v.table p fd) (v.table p' fd)
    pub others : (i : ℕ) → i ≢ fd → v.table p' i ≡ v.table p i

  do_redir-Redirects :
      (fd : ℕ) (name : Word) (mode : OpenMode) (p : Os) {p' : Os}
      → fd < 3
      → v.table p fd ≢ none
      → do_redir os fd name mode p ≡ some p'
      → Redirects fd (some name) mode p p'
  unfolding do_redir
  do_redir-Redirects fd name mode p {p'} lt std e =
      elim (Option-cases (os.open_file name mode p).0) [
        | inl n ↦ absurd (ground (arith, n))
        | inr (new, n) ↦
            let (fresh, (file, opened, t1)) = laws.opens name mode p new n in
            let p1 = (os.open_file name mode p).1 in
            let (ok, t2) = laws.dup2s new fd p1 file (t1 new ∙ ground arith) lt in
            let q : p' ≡ os.close new (os.dup2 new fd p1).1 = ground (arith, e, n, ok) in
            let ne : new ≢ fd = λ z. std (ap (v.table p) (sym z) ∙ fresh) in
            let after : (i : ℕ)
                → v.table p' i ≡ (
                    if i == new
                    then none
                    else if i == fd
                    then some file
                    else if i == new
                    then some file
                    else v.table p i) =
              λ i.
                ap (λ x. v.table x i) q
                ∙ laws.closes new _ i
                ∙ ap (λ x. if i == new then none else x)
                    (t2 i ∙ ap (λ x. if i == fd then some file else x) (t1 i)) in
            record {
              slot = (file, opened, after fd ∙ ground (arith, ne));
              others = λ i other. after i ∙ ground (arith, fresh, other);
            }
      ]

  redir_to-Redirects :
      (fd : ℕ) (name : Option Word) (mode : OpenMode) (p : Os) {p' : Os}
      → fd < 3
      → v.table p fd ≢ none
      → redir_to os fd name mode p ≡ some p'
      → Redirects fd name mode p p'
  unfolding redir_to
  redir_to-Redirects fd none mode p {p'} lt std e =
      let q : p ≡ p' = ground (arith, e) in
      record {
        slot = ap (λ x. v.table x fd) (sym q);
        others = λ i ne. ap (λ x. v.table x i) (sym q);
      }
  redir_to-Redirects fd (some name) mode p lt std e = do_redir-Redirects fd name mode p lt std e

  -- The standard descriptors of a command as its redirections say, and the others as before.
  pub record Redirected (c : Command) (p p' : Os) : Type 0 where
    pub input : Slot c.redir_in read_only (v.table p 0) (v.table p' 0)
    pub out : Slot c.redir_out (out_mode os c.redir_app_out) (v.table p 1) (v.table p' 1)
    pub err : Slot c.redir_err (out_mode os c.redir_app_err) (v.table p 2) (v.table p' 2)
    pub others : (i : ℕ) → 3 ≤ i → v.table p' i ≡ v.table p i

  Slot-from :
      (name : Option Word) (mode : OpenMode) (a b c d : Option v.File)
      → Slot name mode b c
      → b ≡ a
      → d ≡ c
      → Slot name mode a d
  Slot-from none mode a b c d s e f = f ∙ s ∙ e
  Slot-from (some name) mode a b c d (file, opened, s) e f = (file, opened, f ∙ s)

  -- cmd_redir with the standard descriptors open, where it does not exit: each of them is the file of
  -- its redirection, opened in its mode, or as before, and no other descriptor is left open or closed.
  pub cmd_redir-Redirected :
      (c : Command) (p : Os) {p' : Os} → StdOpen p → cmd_redir os c p ≡ some p' → Redirected c p p'
  unfolding cmd_redir
  cmd_redir-Redirected c p {p'} std e = elim (Option-cases (redir_to os 0 c.redir_in read_only p)) [
    | inl n ↦ absurd (ground (arith, n, e))
    | inr (p1, n1) ↦
        elim (Option-cases (redir_to os 1 c.redir_out (out_mode os c.redir_app_out) p1)) [
          | inl n ↦ absurd (ground (arith, n1, n, e))
          | inr (p2, n2) ↦
              let last : redir_to os 2 c.redir_err (out_mode os c.redir_app_err) p2 ≡ some p' =
                ground (arith, n1, n2, e) in
              let r0 =
                redir_to-Redirects 0 c.redir_in read_only p (omega arith) (std 0 (omega arith))
                  n1 in
              let r1 =
                redir_to-Redirects 1 c.redir_out (out_mode os c.redir_app_out) p1 (omega arith)
                  (λ z. std 1 (omega arith) (sym (r0.others 1 (omega arith)) ∙ z)) n2 in
              let r2 =
                redir_to-Redirects 2 c.redir_err (out_mode os c.redir_app_err) p2 (omega arith)
                  (λ z.
                    std 2 (omega arith)
                      (sym (r0.others 2 (omega arith)) ∙ sym (r1.others 2 (omega arith)) ∙ z))
                  last in
              record {
                input =
                    Slot-from c.redir_in read_only _ _ _ _ r0.slot refl
                      (r2.others 0 (omega arith) ∙ r1.others 0 (omega arith));
                out =
                    Slot-from c.redir_out (out_mode os c.redir_app_out) _ _ _ _ r1.slot
                      (r0.others 1 (omega arith)) (r2.others 1 (omega arith));
                err =
                    Slot-from c.redir_err (out_mode os c.redir_app_err) _ _ _ _ r2.slot
                      (r1.others 2 (omega arith) ∙ r0.others 2 (omega arith)) refl;
                others = λ i far.
                    r2.others i (omega arith)
                    ∙ r1.others i (omega arith)
                    ∙ r0.others i (omega arith);
              }
        ]
  ]

  -- A file that the command redirects to does not open.
  pub record CannotOpen (c : Command) : Type 0 where
    pub name : Word
    pub mode : OpenMode
    pub before : Os
    pub named : (c.redir_in ≡ some name) ⊎ (c.redir_out ≡ some name) ⊎ (c.redir_err ≡ some name)
    pub fails : (os.open_file name mode before).0 ≡ none

  redir_to-fails :
      (fd : ℕ) (name : Option Word) (mode : OpenMode) (p : Os)
      → fd < 3
      → redir_to os fd name mode p ≡ none
      → (f : Word) × (name ≡ some f) × ((os.open_file f mode p).0 ≡ none)
  unfolding redir_to do_redir
  redir_to-fails fd none mode p lt e = absurd (ground (arith, e))
  redir_to-fails fd (some name) mode p lt e = elim (Option-cases (os.open_file name mode p).0) [
    | inl n ↦ (name, refl, n)
    | inr (new, n) ↦
        let (fresh, (file, opened, t1)) = laws.opens name mode p new n in
        let (ok, t2) =
          laws.dup2s new fd (os.open_file name mode p).1 file (t1 new ∙ ground arith) lt in
        absurd (ground (arith, e, n, ok))
  ]

  pub cmd_redir-CannotOpen : (c : Command) (p : Os) → cmd_redir os c p ≡ none → CannotOpen c
  unfolding cmd_redir
  cmd_redir-CannotOpen c p e = elim (Option-cases (redir_to os 0 c.redir_in read_only p)) [
    | inl n ↦
        let (f, named, fails) = redir_to-fails 0 c.redir_in read_only p (omega arith) n in
        record { name = f; mode = read_only; before = p; named = inl named; fails = fails }
    | inr (p1, n1) ↦
        elim (Option-cases (redir_to os 1 c.redir_out (out_mode os c.redir_app_out) p1)) [
          | inl n ↦
              let (f, named, fails) =
                redir_to-fails 1 c.redir_out (out_mode os c.redir_app_out) p1 (omega arith) n in
              record {
                name = f;
                mode = out_mode os c.redir_app_out;
                before = p1;
                named = inr (inl named);
                fails = fails;
              }
          | inr (p2, n2) ↦
              let last : redir_to os 2 c.redir_err (out_mode os c.redir_app_err) p2 ≡ none =
                ground (arith, n1, n2, e) in
              let (f, named, fails) =
                redir_to-fails 2 c.redir_err (out_mode os c.redir_app_err) p2 (omega arith) last in
              record {
                name = f;
                mode = out_mode os c.redir_app_err;
                before = p2;
                named = inr (inr named);
                fails = fails;
              }
        ]
  ]
