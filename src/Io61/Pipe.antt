-- ===== src/Io61/Pipe.antt =====
-- Assign2/io61.c: whole files through the buffers, and what is written to a pipe read back.
use systems_programming.Prelude.{
  ℕ, zero, suc, ◌<◌, ◌≤◌, ◌^◌, ◌≡◌, ◌⊎◌, refl, sym, ap, ◌∙◌, Option, none, some, List, [], ◌∷◌,
  ◌++◌, length, length-append, arith, inl, inr,
}
use mathlib.Core.List.{append-nil}
use mathlib.Core.Path.{ap₂}
use systems_programming.Io61.State.{IoFile, CacheBuf, Io, System, slice, M, ◌>>=◌, ◌>>◌, pure, call}
use systems_programming.Io61.Ensures.{Ensures, Ensures-and_then, Ensures-map, Ensures-exit}
use systems_programming.Io61.Read.{is_spent, io61_readc}
use systems_programming.Io61.Files.{open_unmapped}
use systems_programming.Io61.Write.{buffered, io61_flush}
use systems_programming.Io61.Input.{Drains, ReadFails, Reads, Got}
use systems_programming.Io61.Refill.{io61_readc-Got}
use systems_programming.Io61.Output.{
  Appends, FallsShort, bytes, write_chars, Given, write_chars-Given,
}

-- The characters are the next ones of the file; there are `n` of them, or it ends with them.
abbrev pub ReadFrom : {World : Type 0} → ℕ → List ℕ → List ℕ → Io World → Type 0
ReadFrom n all cs s' = (rest : List ℕ) × (all ≡ cs ++ rest) × ((length cs ≡ n) ⊎ (rest ≡ []))

-- After a character, the rest; at the end of the file, nothing.
abbrev pub read_on : {World : Type 0} → Option ℕ → M World (List ℕ) → M World (List ℕ)
read_on none rest = pure []
read_on (some c) rest = rest >>= (λ cs. pure (c ∷ cs))

module _ {World : Type 0} (sys : System World) (g : IoFile) where
  -- A program that reads up to `n` characters.
  abbrev pub read_chars : ℕ → ℕ → M World (List ℕ)
  read_chars fuel zero = pure []
  read_chars fuel (suc n) = io61_readc sys fuel g >>= (λ o. read_on o (read_chars fuel n))

module _ {World : Type 0} (sys : System World) (g : IoFile) (input : World → List ℕ)
    (law : Drains sys g.fd input) where
  read_chars-ReadFrom :
      (fuel n : ℕ) (s : Io World) (rest : List ℕ) (count : ℕ)
      → Reads input s rest count
      → Ensures (ReadFrom n rest) (ReadFails sys g) (read_chars sys g fuel n s)
  read_chars-ReadFrom fuel zero s rest count r = (rest, refl, inl refl)
  read_chars-ReadFrom fuel (suc n) s rest count r =
      Ensures-and_then (Got input rest) (ReadFails sys g) (ReadFrom (suc n) rest)
        (io61_readc sys fuel g s) _ (io61_readc-Got sys g input law fuel s rest count r)
        (λ o s' got.
          each o s' got (λ rest' count' r'. read_chars-ReadFrom fuel n s' rest' count' r'))
    where
      each :
          (o : Option ℕ) (s' : Io World)
          → Got input rest o s'
          → ((rest' : List ℕ) (count' : ℕ)
              → Reads input s' rest' count'
              → Ensures (ReadFrom n rest') (ReadFails sys g) (read_chars sys g fuel n s'))
          → Ensures
              (ReadFrom (suc n) rest)
              (ReadFails sys g)
              (read_on o (read_chars sys g fuel n) s')
      each none s' (e, _) ih = ([], e, inr refl)
      each (some c) s' (rest', e, (count', r')) ih =
          Ensures-and_then (ReadFrom n rest') (ReadFails sys g) (ReadFrom (suc n) rest)
            (read_chars sys g fuel n s') (λ cs. pure (c ∷ cs)) (ih rest' count' r')
            (λ cs t from.
              let (more, split, stop) = from in
              (
                more,
                e ∙ ap (λ x. c ∷ x) split,
                elim stop [ inl l ↦ inl (ap suc l) | inr z ↦ inr z ],
              ))

  opened-Reads :
      (s t : Io World)
      → t.mmaphead ≡ 0
      → t.readbuf ≡ (open_unmapped s).readbuf
      → length (input t.world) < 2 ^ 31
      → Reads input t (input t.world) 0
  unfolding open_unmapped is_spent
  opened-Reads s t e b small =
      let at_start : (t.readbuf.fileoffsetmin ≡ 0) × (t.readbuf.localoffset ≡ 0) =
        (ap (λ (x : CacheBuf). x.fileoffsetmin) b, ap (λ (x : CacheBuf). x.localoffset) b) in
      record {
        unmapped = e;
        holds = (omega (arith, at_start.0, at_start.1), inl (refl, ap is_spent b));
        left = refl;
        small = omega (arith, at_start.0, at_start.1, small);
      }

  -- With no file mapped, and fewer than 2^31 bytes left in a file that was opened: reading up to `n`
  -- characters of it gives its next bytes in order, and fewer than `n` only where the file ends; or the
  -- program exits, and then some read of the file fails.
  pub read_chars-input :
      (fuel n : ℕ) (s : Io World)
      → s.mmaphead ≡ 0
      → length (input s.world) < 2 ^ 31
      → Ensures
          (ReadFrom n (input s.world))
          (ReadFails sys g)
          (read_chars sys g fuel n (open_unmapped s))
  unfolding open_unmapped
  read_chars-input fuel n s e small =
      read_chars-ReadFrom fuel n (open_unmapped s) (input s.world) 0
        (opened-Reads s (open_unmapped s) e refl small)

length-bytes : (cs : List ℕ) → length (bytes cs) ≡ length cs
length-bytes [] = refl
length-bytes (c ∷ cs) = ap suc (length-bytes cs)

append-whole :
    (all got rest : List ℕ) (n : ℕ)
    → all ≡ got ++ rest
    → (length got ≡ n) ⊎ (rest ≡ [])
    → length all ≤ n
    → got ≡ all
append-whole all got [] n e stop le = sym (append-nil got) ∙ sym e
append-whole all got (x ∷ xs) n e (inl full) le =
    absurd (omega (arith, ap length e, length-append got (x ∷ xs), full))
append-whole all got (x ∷ xs) n e (inr none_left) le = absurd (cc)

-- Closing a file takes nothing out of the pipe.
abbrev pub KeepsPipe : {World : Type 0} → System World → IoFile → (World → List ℕ) → Type 0
KeepsPipe {World} sys f pipe = (w : World) → pipe (sys.close f.fd w).1 ≡ pipe w

-- The calls answer as `sys` while the write end `f` is open, and as `ended` once it is closed.
module _ {World : Type 0} (sys ended : System World) (f g : IoFile) (pipe : World → List ℕ)
    (appends : Appends sys f.fd pipe) (keeps : KeepsPipe sys f pipe)
    (drains : Drains ended g.fd pipe) where
  abbrev pub Fails : Type 0
  Fails = FallsShort sys f pipe ⊎ ReadFails ended g

  -- What the closed end leaves.
  abbrev Sent : Io World → List ℕ → ℕ → Io World → Type 0
  Sent s bs r s' = Given pipe s bs none s'

  closed-Sent :
      (cs : List ℕ) (s : Io World) (bs : List ℕ)
      → Ensures
          (Given pipe s bs)
          (FallsShort sys f pipe)
          ((write_chars sys f cs >> io61_flush sys f) s)
      → Ensures
          (Sent s bs)
          Fails
          ((write_chars sys f cs >> io61_flush sys f >> call (sys.close f.fd)) s)
  closed-Sent cs s bs flushed =
      Ensures-and_then (Given pipe s bs) Fails (Sent s bs)
        ((write_chars sys f cs >> io61_flush sys f) s) (λ _. call (sys.close f.fd))
        (Ensures-exit (Given pipe s bs) (FallsShort sys f pipe) Fails _ flushed inl)
        (λ r t given. (keeps t.world ∙ given.0, given.1, given.2))

  -- With no file mapped, an empty write buffer and an empty pipe: fewer than 2^31 characters written
  -- to one end, a flush, and a close of that end: reading at least as many characters at the other
  -- end, opened before, gives their bytes in order and no more; or the program exits, and then some
  -- write fell short or some read failed.
  pub pipe_roundtrip :
      (fuel n : ℕ) (cs : List ℕ) (s : Io World)
      → s.mmaphead ≡ 0
      → s.writebuf.localoffset ≡ 0
      → pipe s.world ≡ []
      → length cs ≤ n
      → length cs < 2 ^ 31
      → Ensures
          (λ got s'. got ≡ bytes cs)
          Fails
          ((write_chars sys f cs
              >> io61_flush sys f
              >> call (sys.close f.fd)
              >> read_chars ended g fuel n)
            (open_unmapped s))
  unfolding open_unmapped
  pipe_roundtrip fuel n cs s e l p le small =
      let all = bytes cs in
      let len : length all ≡ length cs = length-bytes cs in
      let goal = pipe s.world ++ buffered (open_unmapped s) ++ all in
      let before : goal ≡ all = ap₂ (λ w k. w ++ slice s.writebuf.cbuf 0 k ++ all) p l in
      Ensures-and_then (Sent (open_unmapped s) goal) Fails (λ got s'. got ≡ all)
        ((write_chars sys f cs >> io61_flush sys f >> call (sys.close f.fd)) (open_unmapped s)) _
        (closed-Sent cs (open_unmapped s) goal
          (write_chars-Given sys f pipe appends cs (open_unmapped s) (omega (arith, l))))
        (λ r t given.
          let out : pipe t.world ≡ all = given.0 ∙ before in
          Ensures-map (ReadFrom n (pipe t.world)) Fails (λ got s'. got ≡ all)
            (read_chars ended g fuel n t)
            (Ensures-exit (ReadFrom n (pipe t.world)) (ReadFails ended g) Fails _
              (read_chars-ReadFrom ended g pipe drains fuel n t (pipe t.world) 0 (
                opened-Reads ended g pipe drains s t (given.2.1 ∙ e) given.2.0
                  (omega (arith, ap length out, len))))
              inr)
            (λ got u from.
              let (rest, split, stop) = from in
              append-whole (pipe t.world) got rest n split stop (omega (arith, ap length out, len))
              ∙ out))
