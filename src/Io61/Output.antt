-- ===== src/Io61/Output.antt =====
-- Assign2/io61.c: what is written through the buffer comes out in order.
use systems_programming.Prelude.{
  ℕ, suc, ◌+◌, ◌<◌, ◌%◌, ◌≡◌, ◌≢◌, refl, sym, ap, ◌∙◌, Option, none, some, List, [], ◌∷◌, ◌++◌,
  ◌==◌, update, length, arith, lt→ltb, inl, inr, Bool-cases, Option-cases,
}
use mathlib.Core.List.{append-nil, append_assoc}
use mathlib.Core.Path.{subst, ap₂}
use systems_programming.Io61.State.{
  sbuf_sz, IoFile, Io, System, returned, exits, slice, M, ◌>>◌, pure,
}
use systems_programming.Io61.Slices.{slice-update, slice-snoc}
use systems_programming.Io61.Ensures.{Ensures, Ensures-and_then, Ensures-map}
use systems_programming.Io61.Write.{
  buffered, append_char, write_round, write_loop, io61_write, write_out, io61_writec, io61_flush,
}

-- A write that is accepted as a whole appends its bytes to what file `fd` has been given.
pub record Appends {World : Type 0} (sys : System World) (fd : ℕ) (output : World → List ℕ)
    : Type 0 where
  pub appended :
      (bs : List ℕ) (w : World)
      → (sys.write fd bs w).0 ≡ some (length bs)
      → output (sys.write fd bs w).1 ≡ output w ++ bs

some_injective : {A : Type 0} {a b : A} → some a ≡ some b → a ≡ b
some_injective e = cc

module _ {World : Type 0} (sys : System World) (f : IoFile) (output : World → List ℕ) where
  -- Some write to the file fails or falls short.
  abbrev pub FallsShort : Type 0
  FallsShort = (bs : List ℕ) × (w : World) × ((sys.write f.fd bs w).0 ≢ some (length bs))

  abbrev pub Written : Io World → List ℕ → Option ℕ → Io World → Type 0
  Written s buf r s' =
      (r ≡ some (length buf))
      × (s' ≡ record s { world = s'.world })
      × (output s'.world ≡ output s.world ++ buf)

  module _ (b : ℕ) (bs : List ℕ) (s : Io World) where
    io61_write-fails :
        (sys.write f.fd (b ∷ bs) s.world).0 ≡ none → io61_write sys f (b ∷ bs) s ≡ exits
    unfolding io61_write write_loop write_round
    io61_write-fails e = ground (arith, e)

    io61_write-short :
        (r : ℕ)
        → (sys.write f.fd (b ∷ bs) s.world).0 ≡ some r
        → r ≢ suc (length bs)
        → io61_write sys f (b ∷ bs) s ≡ exits
    unfolding io61_write write_loop write_round
    io61_write-short r e ne = ground (arith, e, ne)

    io61_write-full :
        (sys.write f.fd (b ∷ bs) s.world).0 ≡ some (suc (length bs))
        → io61_write sys f (b ∷ bs) s
          ≡ returned
              (some (suc (length bs)))
              (record s { world = (sys.write f.fd (b ∷ bs) s.world).1 })
    unfolding io61_write write_loop write_round
    io61_write-full e = ground (arith, e)

  module _ (law : Appends sys f.fd output) where
    io61_write-Written :
        (buf : List ℕ) (s : Io World) → Ensures (Written s buf) FallsShort (io61_write sys f buf s)
    unfolding io61_write write_loop
    io61_write-Written [] s = (refl, refl, sym (append-nil (output s.world)))
    io61_write-Written (b ∷ bs) s = elim (Option-cases (sys.write f.fd (b ∷ bs) s.world).0) [
      | inl e ↦
          subst (Ensures (Written s (b ∷ bs)) FallsShort) (sym (io61_write-fails b bs s e))
            (b ∷ bs, s.world, λ full. cc)
      | inr (r, e) ↦ elim (Bool-cases (r == suc (length bs))) [
        | inl full ↦
            let e' : (sys.write f.fd (b ∷ bs) s.world).0 ≡ some (suc (length bs)) = ground arith in
            subst (Ensures (Written s (b ∷ bs)) FallsShort) (sym (io61_write-full b bs s e'))
              (refl, refl, law.appended (b ∷ bs) s.world e')
        | inr short ↦
            let ne : r ≢ suc (length bs) = ground arith in
            subst (Ensures (Written s (b ∷ bs)) FallsShort) (sym (io61_write-short b bs s r e ne))
              (b ∷ bs, s.world, λ full. ne (some_injective (sym e ∙ full)))
      ]
    ]

-- The reading side is as it was.
abbrev pub Untouched : {World : Type 0} → Io World → Io World → Type 0
Untouched s s' = (s'.readbuf ≡ s.readbuf) × (s'.mmaphead ≡ s.mmaphead)

Untouched-trans :
    {World : Type 0} (s t u : Io World) → Untouched s t → Untouched t u → Untouched s u
Untouched-trans s t u a b = (b.0 ∙ a.0, b.1 ∙ a.1)

module _ {World : Type 0} (ch : ℕ) (s : Io World) (room : s.writebuf.localoffset < sbuf_sz) where
  local-append_char : (append_char ch s).writebuf.localoffset ≡ s.writebuf.localoffset + 1
  unfolding append_char
  local-append_char = ground arith

  world-append_char : (append_char ch s).world ≡ s.world
  unfolding append_char
  world-append_char = ground arith

  cbuf-append_char :
      (append_char ch s).writebuf.cbuf ≡ update s.writebuf.cbuf s.writebuf.localoffset (ch % 256)
  unfolding append_char
  cbuf-append_char = rw (lt→ltb s.writebuf.localoffset sbuf_sz room) refl

  append_char-Untouched : Untouched s (append_char ch s)
  unfolding append_char
  append_char-Untouched = rw (lt→ltb s.writebuf.localoffset sbuf_sz room) (refl, refl)

  buffered-append_char : buffered (append_char ch s) ≡ buffered s ++ (ch % 256) ∷ []
  buffered-append_char =
      ap₂ (λ f n. slice f 0 n) cbuf-append_char (local-append_char ∙ add-one)
      ∙ slice-snoc (update s.writebuf.cbuf s.writebuf.localoffset (ch % 256)) 0
          s.writebuf.localoffset
      ∙ ap₂ (λ xs x. xs ++ x ∷ [])
          (slice-update s.writebuf.cbuf s.writebuf.localoffset (ch % 256) 0 s.writebuf.localoffset
            (omega arith) (omega (arith, room)))
          (ground arith)
    where
      add-one : s.writebuf.localoffset + 1 ≡ suc s.writebuf.localoffset
      add-one = omega arith

-- The bytes of characters.
abbrev pub bytes : List ℕ → List ℕ
bytes [] = []
bytes (c ∷ cs) = (c % 256) ∷ bytes cs

module _ {World : Type 0} (sys : System World) (f : IoFile) where
  -- A program that writes character by character.
  abbrev pub write_chars : List ℕ → M World (Unit {0})
  write_chars [] = pure tt
  write_chars (c ∷ cs) = io61_writec sys f c >> write_chars cs

module _ {World : Type 0} (output : World → List ℕ) where
  -- The buffer is written out and empty.
  abbrev Flushed : Io World → Option ℕ → Io World → Type 0
  Flushed s r s' =
      (output s'.world ≡ output s.world ++ buffered s)
      × (s'.writebuf.localoffset ≡ 0)
      × Untouched s s'

  -- What has been given to the file and what waits in the buffer, together.
  abbrev sent : Io World → List ℕ
  sent s = output s.world ++ buffered s

  abbrev Sends : {A : Type 0} → Io World → List ℕ → A → Io World → Type 0
  Sends s bs r s' = (sent s' ≡ sent s ++ bs) × (s'.writebuf.localoffset < sbuf_sz) × Untouched s s'

  -- The file has been given these bytes, the buffer is empty, and the reading side is as it was.
  abbrev pub Given : Io World → List ℕ → Option ℕ → Io World → Type 0
  Given s bs r s' = (output s'.world ≡ bs) × (s'.writebuf.localoffset ≡ 0) × Untouched s s'

module _ {World : Type 0} (sys : System World) (f : IoFile) (output : World → List ℕ)
    (law : Appends sys f.fd output) where
  abbrev Short : Type 0
  Short = FallsShort sys f output

  write_out-Flushed : (s : Io World) → Ensures (Flushed output s) Short (write_out sys f s)
  unfolding write_out
  write_out-Flushed s =
      Ensures-and_then (Written sys f output s (buffered s)) Short (Flushed output s)
        (io61_write sys f (buffered s) s) _ (io61_write-Written sys f output law (buffered s) s)
        (λ r s' w. (
          w.2,
          refl,
          (ap (λ (x : Io World). x.readbuf) w.1, ap (λ (x : Io World). x.mmaphead) w.1),
        ))

  io61_writec-Sends :
      (ch : ℕ) (s : Io World)
      → s.writebuf.localoffset < sbuf_sz
      → Ensures (Sends output s ((ch % 256) ∷ [])) Short (io61_writec sys f ch s)
  unfolding io61_writec
  io61_writec-Sends ch s room =
      elim (Bool-cases ((append_char ch s).writebuf.localoffset == sbuf_sz)) [
        | inl full ↦ rw full (
            Ensures-map (Flushed output (append_char ch s)) Short (Sends output s ((ch % 256) ∷ []))
              (write_out sys f (append_char ch s)) (write_out-Flushed (append_char ch s))
              (λ r s' w. (
                ap₂ (λ o n. o ++ slice s'.writebuf.cbuf 0 n) w.0 w.1
                    ∙ append-nil (sent output (append_char ch s))
                    ∙ grown,
                omega (arith, w.1),
                Untouched-trans s (append_char ch s) s' (append_char-Untouched ch s room) w.2,
              )))
        | inr more ↦
            rw more
              (grown, ground (arith, local-append_char ch s room), append_char-Untouched ch s room)
      ]
    where
      grown : sent output (append_char ch s) ≡ sent output s ++ (ch % 256) ∷ []
      grown =
          ap₂ (λ w b. output w ++ b) (world-append_char ch s room) (buffered-append_char ch s room)
          ∙ sym (append_assoc (output s.world) (buffered s) ((ch % 256) ∷ []))

  write_chars-Sends :
      (cs : List ℕ) (s : Io World)
      → s.writebuf.localoffset < sbuf_sz
      → Ensures (Sends output s (bytes cs)) Short (write_chars sys f cs s)
  write_chars-Sends [] s room = (sym (append-nil (sent output s)), room, (refl, refl))
  write_chars-Sends (c ∷ cs) s room =
      Ensures-and_then (Sends output s ((c % 256) ∷ [])) Short (Sends output s (bytes (c ∷ cs)))
        (io61_writec sys f c s) (λ _. write_chars sys f cs) (io61_writec-Sends c s room)
        (λ r s' w.
          Ensures-map (Sends output s' (bytes cs)) Short (Sends output s (bytes (c ∷ cs)))
            (write_chars sys f cs s') (write_chars-Sends cs s' w.1)
            (λ r' t v. (
              v.0
                  ∙ ap (λ x. x ++ bytes cs) w.0
                  ∙ append_assoc (sent output s) ((c % 256) ∷ []) (bytes cs),
              v.1,
              Untouched-trans s s' t w.2 v.2,
            )))

  flush-Given :
      (s t : Io World) (bs : List ℕ)
      → sent output t ≡ bs
      → Untouched s t
      → Ensures (Given output s bs) Short (io61_flush sys f t)
  unfolding io61_flush
  flush-Given s t bs e u =
      Ensures-map (Flushed output t) Short (Given output s bs) (write_out sys f t)
        (write_out-Flushed t) (λ r s' w. (w.0 ∙ e, w.1, Untouched-trans s t s' u w.2))

  -- Characters written one by one where the buffer is not full, and then a flush: the file is given
  -- the bytes that waited in the buffer and those of the characters, in order and with nothing left
  -- over, and the reading side is untouched; or the program exits,
  -- and then some write to the file fails or falls short.
  pub write_chars-Given :
      (cs : List ℕ) (s : Io World)
      → s.writebuf.localoffset < sbuf_sz
      → Ensures
          (Given output s (output s.world ++ buffered s ++ bytes cs))
          (FallsShort sys f output)
          ((write_chars sys f cs >> io61_flush sys f) s)
  write_chars-Given cs s room =
      Ensures-and_then (Sends output s (bytes cs)) Short
        (Given output s (sent output s ++ bytes cs)) (write_chars sys f cs s)
        (λ _. io61_flush sys f) (write_chars-Sends cs s room)
        (λ r s' w. flush-Given s s' (sent output s ++ bytes cs) w.0 w.2)

  -- A call of io61_write while characters wait in the buffer, and then a flush: the bytes of the call
  -- come out before those characters, which were written first; or the program exits, and then some
  -- write to the file fails or falls short.
  pub io61_write-overtakes :
      (buf : List ℕ) (s : Io World)
      → Ensures
          (Given output s (output s.world ++ (buf ++ buffered s)))
          (FallsShort sys f output)
          ((io61_write sys f buf >> io61_flush sys f) s)
  io61_write-overtakes buf s =
      Ensures-and_then (Written sys f output s buf) Short
        (Given output s (output s.world ++ (buf ++ buffered s))) (io61_write sys f buf s)
        (λ _. io61_flush sys f) (io61_write-Written sys f output law buf s)
        (λ r s' w.
          flush-Given s s' (output s.world ++ (buf ++ buffered s))
            (ap₂ ◌++◌ w.2 (ap buffered w.1) ∙ append_assoc (output s.world) buf (buffered s))
            (ap (λ (x : Io World). x.readbuf) w.1, ap (λ (x : Io World). x.mmaphead) w.1))
