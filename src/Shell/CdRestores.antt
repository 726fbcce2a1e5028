-- ===== src/Shell/CdRestores.antt =====
-- Assign5/sh61.c, the cd branch of run_list: the descriptors that it saves and puts back.
use mathlib.Core.Path.{subst}
use systems_programming.Prelude.{
  ℕ, zero, suc, ◌<◌, ◌≤◌, ◌≡◌, ◌≢◌, refl, sym, ap, ◌∙◌, Option, none, some, ◌==◌, arith,
  if◌then◌else◌, ltb, inl, inr, Option-cases, Bool-cases,
}
use systems_programming.Shell.Command.{Word, Command}
use systems_programming.Shell.Posix.{Posix, View, PosixLaws}
use systems_programming.Shell.Launch.{cmd_redir, change_dir, put_back, run_cd}
use systems_programming.Shell.Redirect.{
  StdOpen, cmd_redir-Redirected, CannotOpen, cmd_redir-CannotOpen,
}

module _ {Os : Type 0} (os : Posix Os) (v : View Os) (laws : PosixLaws os v) where
  -- The calls of dup for the standard descriptors return `a`, `b` and `c`.
  pub record Saves (p : Os) (a b c : ℕ) : Type 0 where
    pub input : (os.dup 0 p).0 ≡ some a
    pub out : (os.dup 1 (os.dup 0 p).1).0 ≡ some b
    pub err : (os.dup 2 (os.dup 1 (os.dup 0 p).1).1).0 ≡ some c

  -- Copies of the standard descriptors are open at `a`, `b` and `c`, which were closed; all else is as
  -- before.
  pub record Copied (p : Os) (a b c : ℕ) (p' : Os) : Type 0 where
    pub input : (v.table p a ≡ none) × (v.table p' a ≡ v.table p 0)
    pub out : (v.table p b ≡ none) × (v.table p' b ≡ v.table p 1)
    pub err : (v.table p c ≡ none) × (v.table p' c ≡ v.table p 2)
    pub distinct : (a ≢ b) × (a ≢ c) × (b ≢ c)
    pub others : (i : ℕ) → i ≢ a → i ≢ b → i ≢ c → v.table p' i ≡ v.table p i

  far_off : (p : Os) (x : ℕ) → StdOpen os v laws p → v.table p x ≡ none → 3 ≤ x
  far_off p x std e = elim (Bool-cases (ltb x 3)) [
    | inl lt ↦ absurd (std x (ground (arith, lt)) e)
    | inr ge ↦ ground (arith, ge)
  ]

  three : Os → Os
  three p = (os.dup 2 (os.dup 1 (os.dup 0 p).1).1).1

  dups-Copied :
      (p : Os) (a b c : ℕ) → StdOpen os v laws p → Saves p a b c → Copied p a b c (three p)
  unfolding three
  dups-Copied p a b c std s =
      let p1 = (os.dup 0 p).1 in
      let p2 = (os.dup 1 p1).1 in
      let (fa, ta) = laws.dups 0 p a s.input in
      let (fb, tb) = laws.dups 1 p1 b s.out in
      let (fc, tc) = laws.dups 2 p2 c s.err in
      let at1 : (i : ℕ) → v.table p1 i ≡ (if i == a then v.table p 0 else v.table p i) = ta in
      let at2 : (i : ℕ) → v.table p2 i ≡ (if i == b then v.table p1 1 else v.table p1 i) = tb in
      let at3 : (i : ℕ)
          → v.table (os.dup 2 p2).1 i ≡ (if i == c then v.table p2 2 else v.table p2 i) =
        tc in
      let a3 = far_off p a std fa in
      let one : v.table p1 1 ≡ v.table p 1 = at1 1 ∙ ground (arith, a3) in
      let ab : b ≢ a = λ z. std 0 (omega arith) (ground (arith, z, at1 b, fb)) in
      let pb : v.table p b ≡ none = ground (arith, ab, at1 b, fb) in
      let b3 = far_off p b std pb in
      let two : v.table p2 2 ≡ v.table p 2 = at2 2 ∙ ground (arith, a3, b3, at1 2) in
      let bc : c ≢ b = λ z. std 1 (omega arith) (ground (arith, z, at2 c, fc, one)) in
      let ac : c ≢ a = λ z. std 0 (omega arith) (ground (arith, z, at2 c, at1 c, fc, bc)) in
      let pc : v.table p c ≡ none = ground (arith, ac, bc, at2 c, at1 c, fc) in
      record {
        input = (fa, ground (arith, at3 a, at2 a, at1 a, ab, ac));
        out = (pb, ground (arith, at3 b, at2 b, one, bc));
        err = (pc, ground (arith, at3 c, two));
        distinct = ((λ z. ab (sym z)), (λ z. ac (sym z)), (λ z. bc (sym z)));
        others = λ i ia ib ic. ground (arith, at3 i, at2 i, at1 i, ia, ib, ic);
      }

  change_dir-table :
      (dir : Option Word) (p : Os) (i : ℕ) → v.table (change_dir os dir p).1 i ≡ v.table p i
  unfolding change_dir
  change_dir-table none p i = refl
  change_dir-table (some name) p i = laws.chdirs name p i

  -- dup2 of a copy of what `fd` was.
  put_back-lem :
      (old fd : ℕ) (p : Os) (file : v.File)
      → fd < 3
      → v.table p old ≡ some file
      → (i : ℕ)
      → v.table (put_back os (some old) fd p) i ≡ (if i == fd then some file else v.table p i)
  put_back-lem old fd p file lt e = (laws.dup2s old fd p file e lt).1

  std_file :
      (p : Os) (i : ℕ) → StdOpen os v laws p → i < 3 → (file : v.File) × (v.table p i ≡ some file)
  std_file p i std lt = elim (Option-cases (v.table p i)) [
    | inl e ↦ absurd (std i lt e)
    | inr found ↦ found
  ]

  -- The standard descriptors are written, and the others are as before.
  standard :
      (t t' : ℕ → Option v.File) (f0 f1 f2 : v.File)
      → t 0 ≡ some f0
      → t 1 ≡ some f1
      → t 2 ≡ some f2
      → (i : ℕ) → (3 ≤ i → t' i ≡ t i)
      → (if i == 2 then some f2 else if i == 1 then some f1 else if i == 0 then some f0 else t' i)
        ≡ t i
  standard t t' f0 f1 f2 e0 e1 e2 zero h = sym e0
  standard t t' f0 f1 f2 e0 e1 e2 (suc zero) h = sym e1
  standard t t' f0 f1 f2 e0 e1 e2 (suc (suc zero)) h = sym e2
  standard t t' f0 f1 f2 e0 e1 e2 (suc (suc (suc i))) h = ground (arith, h (omega arith))

  -- A cd whose three calls of dup return descriptors, and whose redirections do not exit: the standard
  -- descriptors are as before, whatever was redirected, and the three copies of them stay open.
  run_cd-Copied :
      (cmd : Command) (dir : Option Word) (p : Os) (a b c status : ℕ) {p' : Os}
      → StdOpen os v laws p
      → Saves p a b c
      → run_cd os cmd dir p ≡ some (status, p')
      → Copied p a b c p'
  unfolding run_cd three
  run_cd-Copied cmd dir p a b c status {p'} std s e =
      elim (Option-cases (cmd_redir os cmd (three p))) [
        | inl n ↦ absurd (ground (arith, n, e, s.input, s.out, s.err))
        | inr (p4, n) ↦
            let copied = dups-Copied p a b c std s in
            let (f0, e0) = std_file p 0 std (omega arith) in
            let (f1, e1) = std_file p 1 std (omega arith) in
            let (f2, e2) = std_file p 2 std (omega arith) in
            let a3 = far_off p a std copied.input.0 in
            let b3 = far_off p b std copied.out.0 in
            let c3 = far_off p c std copied.err.0 in
            let std3 : StdOpen os v laws (three p) = λ i lt z. std i lt (
              sym (
                copied.others i (omega (arith, a3, lt)) (omega (arith, b3, lt))
                  (omega (arith, c3, lt)))
              ∙ z) in
            let r = cmd_redir-Redirected os v laws cmd (three p) std3 n in
            let p5 = (change_dir os dir p4).1 in
            let kept : (i : ℕ) → 3 ≤ i → v.table p5 i ≡ v.table (three p) i =
              λ i le. change_dir-table dir p4 i ∙ r.others i le in
            let q0 = put_back os (some a) 0 p5 in
            let q1 = put_back os (some b) 1 q0 in
            let t0 = put_back-lem a 0 p5 f0 (omega arith) (kept a a3 ∙ copied.input.1 ∙ e0) in
            let t1 =
              put_back-lem b 1 q0 f1 (omega arith)
                (t0 b ∙ ground (arith, b3, kept b b3, copied.out.1, e1)) in
            let t2 =
              put_back-lem c 2 q1 f2 (omega arith)
                (t1 c ∙ ground (arith, c3, t0 c, kept c c3, copied.err.1, e2)) in
            let q : p' ≡ put_back os (some c) 2 q1 = ground (arith, n, e, s.input, s.out, s.err) in
            let after : (i : ℕ)
                → v.table p' i ≡ (
                    if i == 2
                    then some f2
                    else if i == 1
                    then some f1
                    else if i == 0
                    then some f0
                    else v.table p5 i) =
              λ i.
                ap (λ x. v.table x i) q
                ∙ t2 i
                ∙ ap (λ x. if i == 2 then some f2 else x)
                    (t1 i ∙ ap (λ x. if i == 1 then some f1 else x) (t0 i)) in
            record {
              input = (copied.input.0, after a ∙ ground (arith, a3, kept a a3, copied.input.1));
              out = (copied.out.0, after b ∙ ground (arith, b3, kept b b3, copied.out.1));
              err = (copied.err.0, after c ∙ ground (arith, c3, kept c c3, copied.err.1));
              distinct = copied.distinct;
              others = λ i ia ib ic.
                  after i
                  ∙ standard (v.table p) (v.table p5) f0 f1 f2 e0 e1 e2 i
                      (λ le. kept i le ∙ copied.others i ia ib ic);
            }
      ]

  -- What the branch leaves: the copies, or the shell ends, since a redirection does not open.
  abbrev pub CdPost : Command → Os → ℕ → ℕ → ℕ → Option (ℕ × Os) → Type 0
  CdPost cmd p a b c none = CannotOpen os v laws cmd
  CdPost cmd p a b c (some (status, p')) = Copied p a b c p'

  -- A cd with the standard descriptors open, whose three calls of dup return descriptors: behind it the
  -- standard descriptors are as before, whatever was redirected, and the three copies of them stay open;
  -- or the shell exits, and then a file that the cd redirects to does not open.
  pub run_cd-CdPost :
      (cmd : Command) (dir : Option Word) (p : Os) (a b c : ℕ)
      → StdOpen os v laws p
      → Saves p a b c
      → CdPost cmd p a b c (run_cd os cmd dir p)
  unfolding run_cd three
  run_cd-CdPost cmd dir p a b c std s = elim (Option-cases (run_cd os cmd dir p)) [
    | inl n ↦ subst (CdPost cmd p a b c) (sym n) (
        cmd_redir-CannotOpen os v laws cmd (three p)
          (elim (Option-cases (cmd_redir os cmd (three p))) [
            | inl e ↦ e
            | inr (p4, e) ↦ absurd (ground (arith, e, n))
          ]))
    | inr ((status, p'), n) ↦
        subst (CdPost cmd p a b c) (sym n) (run_cd-Copied cmd dir p a b c status std s n)
  ]
