-- ===== src/Io61/Read.antt =====
-- Assign2/io61.c: `io61_eof`, `io61_read`, `io61_readc` and the search that they start from. `fuel`
-- bounds the walk along the list of mapped files.
use systems_programming.Prelude.{
  ℕ, zero, suc, ◌%◌, ◌^◌, Bool, not, ◌||◌, Option, none, some, List, [], ◌∷◌, ◌==◌, if◌then◌else◌,
  update, length, add64, sub64, sign_extend, signed_ltb, signed_leb,
}
use systems_programming.Io61.State.{
  sbuf_sz, minus_one, IoFile, CacheBuf, MemMap, Io, System, returned, aborts, null_access, endless,
  slice, M, ◌>>=◌, ◌>>◌, pure, modify, call, or_exit,
}
use systems_programming.Io61.Maps.{search_in_list}

-- The bytes of an array, overwritten from index 0 on.
unfoldable pub fill : List ℕ → (ℕ → ℕ) → ℕ → ℕ
fill [] f i = f i
fill (b ∷ bs) f zero = b
fill (b ∷ bs) f (suc i) = fill bs (λ j. f (suc j)) i

-- `io61_read` as it stands in `ssize_t`.
abbrev pub count_of : Option (List ℕ) → ℕ
count_of none = minus_one
count_of (some bs) = length bs

abbrev pub bytes_of : Option (List ℕ) → List ℕ
bytes_of none = []
bytes_of (some bs) = bs

-- The assignments after a chunk is read.
unfoldable pub refilled : ℕ → CacheBuf → CacheBuf
refilled bytes_read b =
    let low = add64 (sign_extend b.fileoffsetmin) b.localoffset % 2 ^ 32 in
    record b {
      fileoffsetmin = low;
      fileoffsetmax = add64 (sign_extend low) bytes_read % 2 ^ 32;
      localoffset = 0;
    }

-- Is the next character outside the buffer?
unfoldable pub is_spent : CacheBuf → Bool
is_spent b =
    signed_leb (sign_extend b.fileoffsetmax) (add64 (sign_extend b.fileoffsetmin) b.localoffset)

module _ {World : Type 0} where
  abbrev pub set_map : ℕ → MemMap → Io World → Io World
  set_map n m s = record s { maps = update s.maps n m }

  -- The node that is used without a test for NULL.
  unfoldable pub found : Option (Option ℕ) → M World ℕ
  found none s = endless
  found (some none) s = null_access
  found (some (some n)) s = returned n s

  -- The branch for a mapped file.
  unfoldable pub read_mapped : ℕ → ℕ → M World (Option (List ℕ))
  read_mapped n sz s =
      let m = s.maps n in
      let nread =
        if signed_leb (add64 m.localoffset sz) m.filesize
        then sz
        else sub64 m.filesize m.localoffset in
      returned (some (slice m.mapped_file m.localoffset nread))
        (set_map n (record m { localoffset = add64 m.localoffset nread }) s)

  -- A character from the buffer; `none` is EOF.
  unfoldable pub take_char : ℕ → M World (Option ℕ)
  take_char bytes_read s =
      if bytes_read == 0
      then returned none s
      else returned (some (s.readbuf.cbuf s.readbuf.localoffset))
          (record s { readbuf = record s.readbuf { localoffset = add64 s.readbuf.localoffset 1 } })

  unfoldable pub readc_mapped : ℕ → M World (Option ℕ)
  readc_mapped n s =
      let m = s.maps n in
      if signed_ltb m.localoffset m.filesize
      then returned (some (m.mapped_file m.localoffset))
          (set_map n (record m { localoffset = add64 m.localoffset 1 }) s)
      else returned none s

module _ {World : Type 0} (sys : System World) where
  unfoldable pub io61_eof : IoFile → M World Bool
  io61_eof f = do
    r ← call (sys.read f.fd 1)
    elim r [
      | none ↦ pure Bool.false
      | some bs ↦ if length bs == 1 then (λ s. aborts) else pure (length bs == 0)
    ]

  -- The branch for a file that is not mapped: the bytes that `buf` gets, `none` for -1.
  unfoldable pub read_unmapped : IoFile → ℕ → M World (Option (List ℕ))
  read_unmapped f sz = do
    r ← call (sys.read f.fd sz)
    bs ← or_exit r
    if not (length bs == 0) || sz == 0
        then pure (some bs)
        else (do e ← io61_eof f; if e then pure (some bs) else pure none)

  unfoldable pub io61_read : ℕ → IoFile → ℕ → M World (Option (List ℕ))
  io61_read fuel f sz s =
      if s.mmaphead == 0
      then read_unmapped f sz s
      else (found (search_in_list fuel s.maps f.fd s.mmaphead) >>= λ n. read_mapped n sz) s

  -- io61_read(f, readbuf.cbuf, SBUF_SZ)
  unfoldable pub read_chunk : ℕ → IoFile → M World ℕ
  read_chunk fuel f = do
    r ← io61_read fuel f sbuf_sz
    modify
        (λ s. record s { readbuf = record s.readbuf { cbuf = fill (bytes_of r) s.readbuf.cbuf } })
    pure (count_of r)

  unfoldable pub refill : ℕ → IoFile → M World ℕ
  refill fuel f s =
      if is_spent s.readbuf
      then (do
        bytes_read ← read_chunk fuel f
        modify (λ s'. record s' { readbuf = refilled bytes_read s'.readbuf })
        pure bytes_read)
          s
      else returned minus_one s

  unfoldable pub io61_readc : ℕ → IoFile → M World (Option ℕ)
  io61_readc fuel f s =
      if s.mmaphead == 0
      then (refill fuel f >>= take_char) s
      else (found (search_in_list fuel s.maps f.fd s.mmaphead) >>= readc_mapped) s
