-- ===== src/Io61/Write.antt =====
-- Assign2/io61.c: `io61_write`, `io61_writec` and `io61_flush`.
use systems_programming.Prelude.{
  ℕ, zero, suc, ◌+◌, ◌%◌, ◌||◌, Option, none, some, List, ◌==◌, ltb, if◌then◌else◌, update, length,
  add64,
}
use systems_programming.Io61.State.{
  sbuf_sz, IoFile, Io, System, returned, exits, endless, slice, M, ◌>>=◌, ◌>>◌, pure, modify, call,
  or_exit,
}

-- The bytes from the start of the write buffer to its local offset.
abbrev pub buffered : {World : Type 0} → Io World → List ℕ
buffered s = slice s.writebuf.cbuf 0 s.writebuf.localoffset

module _ {World : Type 0} where
  unfoldable pub append_char : ℕ → Io World → Io World
  append_char ch s =
      if ltb s.writebuf.localoffset sbuf_sz
      then record s {
        writebuf = record s.writebuf {
          cbuf = update s.writebuf.cbuf s.writebuf.localoffset (ch % 256);
          localoffset = add64 s.writebuf.localoffset 1;
        };
      }
      else s

module _ {World : Type 0} (sys : System World) where
  -- The body of the loop: what `nwritten` grows by.
  unfoldable pub write_round : IoFile → List ℕ → M World ℕ
  write_round f buf = do
    o ← call (sys.write f.fd buf)
    r ← or_exit o
    if r == length buf then pure r else (λ s. exits)

  -- `while (nwritten < sz)`
  unfoldable pub write_loop : ℕ → IoFile → List ℕ → ℕ → M World ℕ
  write_loop zero f buf nwritten s =
      if ltb nwritten (length buf) then endless else returned nwritten s
  write_loop (suc fuel) f buf nwritten s =
      if ltb nwritten (length buf)
      then (write_round f buf >>= λ r. write_loop fuel f buf (nwritten + r)) s
      else returned nwritten s

  -- A round that comes back has written everything, so one is enough; `none` is -1.
  unfoldable pub io61_write : IoFile → List ℕ → M World (Option ℕ)
  io61_write f buf = do
    nwritten ← write_loop 1 f buf 0
    if ltb 0 nwritten || length buf == 0 then pure (some nwritten) else pure none

  -- io61_write(f, writebuf.cbuf, writebuf.localoffset); writebuf.localoffset = 0;
  unfoldable pub write_out : IoFile → M World (Option ℕ)
  write_out f s =
      (do
        ret ← io61_write f (buffered s)
        modify (λ s'. record s' { writebuf = record s'.writebuf { localoffset = 0 } })
        pure ret)
        s

  unfoldable pub io61_writec : IoFile → ℕ → M World (Option ℕ)
  io61_writec f ch s =
      let s1 = append_char ch s in
      if s1.writebuf.localoffset == sbuf_sz then write_out f s1 else returned (some 0) s1

  unfoldable pub io61_flush : IoFile → M World (Option ℕ)
  io61_flush f = write_out f
