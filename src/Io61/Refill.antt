-- ===== src/Io61/Refill.antt =====
-- Assign2/io61.c, `io61_readc`: the read buffer of a file that is not mapped.
use systems_programming.Prelude.{
  ℕ, zero, suc, ◌+◌, ◌<◌, ◌≤◌, ◌%◌, ◌^◌, ◌≡◌, refl, sym, ap, ◌∙◌, false, List, [], ◌∷◌, ◌++◌, ◌==◌,
  if◌then◌else◌, length, length-append, add64, arith, inl, inr, Bool-cases,
}
use mathlib.Core.Path.{subst, ap₂}
use systems_programming.Io61.State.{sbuf_sz, IoFile, CacheBuf, Io, System, slice, ◌>>=◌}
use systems_programming.Io61.Ensures.{Ensures, Ensures-and_then}
use systems_programming.Io61.ReadBuf.{Holds-is_spent, Holds-advance, refilled_plain, Holds-refilled}
use systems_programming.Io61.Slices.{slice-fill}
use systems_programming.Io61.Maps.{search_in_list}
use systems_programming.Io61.Read.{
  found, read_mapped, readc_mapped, fill, read_unmapped, io61_read, count_of, bytes_of, read_chunk,
  refilled, refill, take_char, io61_readc,
}
use systems_programming.Io61.Input.{
  Drains, ReadFails, Reads, Ready, Got, ahead, Took, read_unmapped-Took,
}

module _ {World : Type 0} (sys : System World) (f : IoFile) (input : World → List ℕ)
    (law : Drains sys f.fd input) where
  abbrev Fails : Type 0
  Fails = ReadFails sys f

  io61_read-unmapped :
      (fuel sz : ℕ) (s : Io World)
      → s.mmaphead ≡ 0
      → io61_read sys fuel f sz s ≡ read_unmapped sys f sz s
  unfolding io61_read
  io61_read-unmapped fuel sz s e =
      ap
        (λ h.
          if h == 0
          then read_unmapped sys f sz s
          else (found (search_in_list fuel s.maps f.fd s.mmaphead) >>= (λ n. read_mapped n sz)) s)
        e

  -- `bs` in the buffer, and a world behind it.
  abbrev loaded : Io World → List ℕ → World → Io World
  loaded s bs w = record s {
    world = w;
    readbuf = record s.readbuf { cbuf = fill bs s.readbuf.cbuf };
  }

  abbrev Chunk : Io World → ℕ → Io World → Type 0
  Chunk s k s' =
      (bs : List ℕ) × (k ≡ length bs)
      × (s' ≡ loaded s bs s'.world)
      × (input s.world ≡ bs ++ input s'.world)
      × (length bs ≤ sbuf_sz)
      × (bs ≡ [] → input s.world ≡ [])

  read_chunk-Chunk :
      (fuel : ℕ) (s : Io World) → s.mmaphead ≡ 0 → Ensures (Chunk s) Fails (read_chunk sys fuel f s)
  unfolding read_chunk
  read_chunk-Chunk fuel s e =
      Ensures-and_then (Took sys f input law s sbuf_sz) Fails (Chunk s)
        (io61_read sys fuel f sbuf_sz s) _
        (subst (Ensures (Took sys f input law s sbuf_sz) Fails)
          (sym (io61_read-unmapped fuel sbuf_sz s e))
          (read_unmapped-Took sys f input law s sbuf_sz (omega arith)))
        (λ r s' t.
          let (bs, got, same, out, most, end) = t in
          (
            bs,
            ap count_of got,
            ap₂ (λ (x : Io World) b. loaded x (bytes_of b) x.world) same got,
            out,
            most,
            end,
          ))

  -- The buffer with a chunk in it, and the offsets set.
  module _ (s : Io World) (rest bs : List ℕ) (count : ℕ) (w : World) (r : Reads input s rest count)
      (e : rest ≡ bs ++ input w) where
    abbrev chunk : CacheBuf
    chunk = record s.readbuf { cbuf = fill bs s.readbuf.cbuf }

    abbrev refreshed : Io World
    refreshed = record s { world = w; readbuf = refilled (length bs) chunk }

    room : s.readbuf.fileoffsetmin + s.readbuf.localoffset + length bs < 2 ^ 31
    room = omega (arith, r.small, ap length e, length-append bs (input w))

    refreshed-Reads : Reads input refreshed rest (length bs)
    unfolding refilled
    refreshed-Reads = record {
      unmapped = r.unmapped;
      holds = Holds-refilled chunk (length bs) room;
      left = e ∙ ap (λ x. x ++ input w) (sym (slice-fill bs s.readbuf.cbuf (omega (arith, room))));
      small =
          subst (λ (c : CacheBuf). c.fileoffsetmin + c.localoffset + length rest < 2 ^ 31)
            (sym (refilled_plain chunk (length bs) room)) (omega (arith, r.small));
    }

  loaded-Ready :
      (s : Io World) (rest bs : List ℕ) (count : ℕ) (w : World) (r : Reads input s rest count)
      → (e : rest ≡ bs ++ input w) → (bs ≡ [] → rest ≡ [])
      → Ready input rest (length bs) (refreshed s rest bs count w r e)
  loaded-Ready s rest [] count w r e end =
      (0, refreshed-Reads s rest [] count w r e, inl (refl, end refl))
  loaded-Ready s rest (b ∷ bs) count w r e end =
      (suc (length bs), refreshed-Reads s rest (b ∷ bs) count w r e, inr (omega arith, omega arith))

  refill-Ready :
      (fuel : ℕ) (s : Io World) (rest : List ℕ) (count : ℕ)
      → Reads input s rest count
      → Ensures (Ready input rest) Fails (refill sys fuel f s)
  unfolding refill
  refill-Ready fuel s rest count r = elim (Bool-cases (count == 0)) [
    | inl empty ↦
        let none_left : count ≡ 0 = ground arith in
        let from_file : rest ≡ input s.world = r.left ∙ ap (ahead input s) none_left in
        rw (Holds-is_spent s.readbuf count r.holds ∙ empty) (
          Ensures-and_then (Chunk s) Fails (Ready input rest) (read_chunk sys fuel f s) _
            (read_chunk-Chunk fuel s r.unmapped)
            (λ k s' c.
              let (bs, len, same, out, most, end) = c in
              subst
                (λ (x : Io World). Ready input rest k (record x { readbuf = refilled k x.readbuf }))
                (sym same)
                (subst
                  (λ k'. Ready input rest k' (record s {
                    world = s'.world;
                    readbuf = refilled k' (record s.readbuf { cbuf = fill bs s.readbuf.cbuf });
                  }))
                  (sym len)
                  (loaded-Ready s rest bs count s'.world r (from_file ∙ out)
                    (λ n. from_file ∙ end n)))))
    | inr some_left ↦
        rw (Holds-is_spent s.readbuf count r.holds ∙ some_left)
          (count, r, inr (omega arith, ground arith))
  ]

  take_char-Got :
      (rest : List ℕ) (bytes_read : ℕ) (s : Io World)
      → Ready input rest bytes_read s
      → Ensures (Got input rest) Fails (take_char bytes_read s)
  unfolding take_char
  take_char-Got rest bytes_read s (count, r, inl (z, e)) =
      rw z (e, (count, subst (λ x. Reads input s x count) e r))
  take_char-Got rest bytes_read s (zero, r, inr (nz, some_left)) = absurd (some_left refl)
  take_char-Got rest bytes_read s (suc n, r, inr (nz, some_left)) =
      let not_zero : (bytes_read == 0) ≡ false = ground arith in
      let b = s.readbuf in
      let here : b.localoffset % 2 ^ 64 ≡ b.localoffset = omega (arith, r.holds.0) in
      let next : add64 b.localoffset 1 ≡ b.localoffset + 1 = omega (arith, r.holds.0) in
      let rest' = slice b.cbuf (b.localoffset + 1) n ++ input s.world in
      let split : rest ≡ b.cbuf b.localoffset ∷ rest' = r.left ∙ ap (λ i. b.cbuf i ∷ rest') here in
      rw not_zero (
        rest',
        split,
        (
          n,
          record {
            unmapped = r.unmapped;
            holds = Holds-advance b n r.holds;
            left = ap (λ i. slice b.cbuf i n ++ input s.world) (sym next);
            small = omega (arith, r.small, next, ap length split);
          },
        ),
      )

  pub io61_readc-Got :
      (fuel : ℕ) (s : Io World) (rest : List ℕ) (count : ℕ)
      → Reads input s rest count
      → Ensures (Got input rest) Fails (io61_readc sys fuel f s)
  unfolding io61_readc
  io61_readc-Got fuel s rest count r =
      subst (Ensures (Got input rest) Fails)
        (sym (
          ap
            (λ h.
              if h == 0
              then (refill sys fuel f >>= take_char) s
              else (found (search_in_list fuel s.maps f.fd s.mmaphead) >>= readc_mapped) s)
            r.unmapped))
        (Ensures-and_then (Ready input rest) Fails (Got input rest) (refill sys fuel f s) take_char
          (refill-Ready fuel s rest count r) (take_char-Got rest))
