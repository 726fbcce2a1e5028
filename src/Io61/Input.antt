-- ===== src/Io61/Input.antt =====
-- Assign2/io61.c: characters of a file that is not mapped.
use systems_programming.Prelude.{
  ℕ, ◌+◌, ◌<◌, ◌≤◌, ◌^◌, ◌≡◌, ◌≢◌, ◌⊎◌, refl, sym, ◌∙◌, true, false, Option, none, some, List, [],
  ◌∷◌, ◌++◌, ◌==◌, length, arith,
}
use mathlib.Core.Path.{subst}
use systems_programming.Io61.State.{IoFile, Io, System, returned, slice}
use systems_programming.Io61.Ensures.{Ensures}
use systems_programming.Io61.ReadBuf.{Holds}
use systems_programming.Io61.Read.{io61_eof, read_unmapped}

-- `input` is what is left to read of file `fd`: a read takes bytes from its front, no more than were
-- asked for, and none only at its end; at the end it does not fail.
pub record Drains {World : Type 0} (sys : System World) (fd : ℕ) (input : World → List ℕ)
    : Type 0 where
  pub taken :
      (n : ℕ) (w : World) (bs : List ℕ)
      → (sys.read fd n w).0 ≡ some bs
      → input w ≡ bs ++ input (sys.read fd n w).1
  pub at_most : (n : ℕ) (w : World) (bs : List ℕ) → (sys.read fd n w).0 ≡ some bs → length bs ≤ n
  pub only_end : (n : ℕ) (w : World) → (sys.read fd n w).0 ≡ some [] → n ≢ 0 → input w ≡ []
  pub at_end : (n : ℕ) (w : World) → input w ≡ [] → (sys.read fd n w).0 ≡ some []

module _ {World : Type 0} (sys : System World) (f : IoFile) where
  -- Some read of the file fails.
  abbrev pub ReadFails : Type 0
  ReadFails = (n : ℕ) × (w : World) × ((sys.read f.fd n w).0 ≡ none)

module _ {World : Type 0} (sys : System World) (f : IoFile) (input : World → List ℕ)
    (law : Drains sys f.fd input) where
  -- A read outside the buffer: it took these bytes, and none only at the end.
  abbrev pub Took : Io World → ℕ → Option (List ℕ) → Io World → Type 0
  Took s sz r s' =
      (bs : List ℕ) × (r ≡ some bs)
      × (s' ≡ record s { world = s'.world })
      × (input s.world ≡ bs ++ input s'.world)
      × (length bs ≤ sz)
      × (bs ≡ [] → input s.world ≡ [])

  eof-at_end :
      (s : Io World)
      → input s.world ≡ []
      → io61_eof sys f s ≡ returned true (record s { world = (sys.read f.fd 1 s.world).1 })
  unfolding io61_eof
  eof-at_end s e = rw (law.at_end 1 s.world e) refl

  -- The state after a read.
  abbrev after : Io World → ℕ → Io World
  after s sz = record s { world = (sys.read f.fd sz s.world).1 }

  read_unmapped-some :
      (s : Io World) (sz b : ℕ) (bs : List ℕ)
      → (sys.read f.fd sz s.world).0 ≡ some (b ∷ bs)
      → read_unmapped sys f sz s ≡ returned (some (b ∷ bs)) (after s sz)
  unfolding read_unmapped
  read_unmapped-some s sz b bs e = ground (arith, e)

  read_unmapped-end :
      (s : Io World) (sz : ℕ)
      → sz ≢ 0
      → (sys.read f.fd sz s.world).0 ≡ some []
      → input (after s sz).world ≡ []
      → read_unmapped sys f sz s ≡ returned (some []) (after (after s sz) 1)
  unfolding read_unmapped
  read_unmapped-end s sz nz e at =
      let not_zero : (sz == 0) ≡ false = ground arith in
      rw (e, not_zero, eof-at_end (after s sz) at) refl

  pub read_unmapped-Took :
      (s : Io World) (sz : ℕ)
      → sz ≢ 0
      → Ensures (Took s sz) (ReadFails sys f) (read_unmapped sys f sz s)
  unfolding read_unmapped
  read_unmapped-Took s sz nz = go (sys.read f.fd sz s.world).0 refl
    where
      go :
          (o : Option (List ℕ))
          → (sys.read f.fd sz s.world).0 ≡ o
          → Ensures (Took s sz) (ReadFails sys f) (read_unmapped sys f sz s)
      go none e = rw e (sz, s.world, e)
      go (some []) e =
          let rest : input s.world ≡ [] = law.only_end sz s.world e nz in
          let at : input (after s sz).world ≡ [] = sym (law.taken sz s.world [] e) ∙ rest in
          let at' : input (after s sz).world ≡ input (after (after s sz) 1).world =
            law.taken 1 (after s sz).world [] (law.at_end 1 (after s sz).world at) in
          subst (Ensures (Took s sz) (ReadFails sys f)) (sym (read_unmapped-end s sz nz e at))
            ([], refl, refl, rest ∙ sym at ∙ at', omega arith, λ _. rest)
      go (some (b ∷ bs)) e =
          subst (Ensures (Took s sz) (ReadFails sys f)) (sym (read_unmapped-some s sz b bs e)) (
            b ∷ bs,
            refl,
            refl,
            law.taken sz s.world (b ∷ bs) e,
            law.at_most sz s.world (b ∷ bs) e,
            λ n. cc,
          )

module _ {World : Type 0} (input : World → List ℕ) where
  -- What is left to read: `n` bytes of the buffer, and then the file.
  abbrev pub ahead : Io World → ℕ → List ℕ
  ahead s n = slice s.readbuf.cbuf s.readbuf.localoffset n ++ input s.world

  -- The file is not mapped, `rest` is left of it, `count` bytes of that in the buffer, and it ends below 2^31.
  pub record Reads (s : Io World) (rest : List ℕ) (count : ℕ) : Type 0 where
    pub unmapped : s.mmaphead ≡ 0
    pub holds : Holds s.readbuf count
    pub left : rest ≡ ahead s count
    pub small : s.readbuf.fileoffsetmin + s.readbuf.localoffset + length rest < 2 ^ 31

  -- After the buffer is looked after: 0 at the end of the file, and else a byte in the buffer.
  abbrev pub Ready : List ℕ → ℕ → Io World → Type 0
  Ready rest bytes_read s =
      (count : ℕ) × Reads s rest count
      × ((bytes_read ≡ 0) × (rest ≡ []) ⊎ (bytes_read ≢ 0) × (count ≢ 0))

  -- A character and what is left, or the end of the file.
  abbrev pub Got : List ℕ → Option ℕ → Io World → Type 0
  Got rest none s' = (rest ≡ []) × ((count : ℕ) × Reads s' [] count)
  Got rest (some c) s' =
      (rest' : List ℕ) × (rest ≡ c ∷ rest') × ((count : ℕ) × Reads s' rest' count)
