-- ===== src/Io61/Files.antt =====
-- Assign2/io61.c: `io61_fdopen`, `io61_close` and `io61_seek`.
use systems_programming.Prelude.{
  ℕ, ◌-◌, ◌%◌, ◌^◌, Bool, ◌&&◌, Option, none, some, ◌==◌, if◌then◌else◌, add64, sub64, sign_extend,
  signed_ltb, signed_leb,
}
use systems_programming.Io61.State.{
  sbuf_sz, Mode, rdonly, wronly, rdwr, IoFile, CacheBuf, Io, System, returned, M, ◌>>=◌, ◌>>◌, pure,
  gets, modify, call, or_exit,
}
use systems_programming.Io61.Maps.{insert_first, remove_mmap, search_in_list}
use systems_programming.Io61.Read.{set_map, found, read_chunk}
use systems_programming.Io61.Write.{io61_flush}

-- pos >= readbuf.fileoffsetmin && pos <= readbuf.fileoffsetmax
unfoldable pub is_buffered : ℕ → CacheBuf → Bool
is_buffered pos b =
    signed_leb (sign_extend b.fileoffsetmin) pos && signed_leb pos (sign_extend b.fileoffsetmax)

-- pos - (pos % SBUF_SZ), where `%` takes the sign of `pos`, as an int.
unfoldable pub block_start : ℕ → ℕ
block_start pos =
    if signed_ltb pos 0
    then add64 pos (sub64 0 pos % sbuf_sz) % 2 ^ 32
    else (pos - pos % sbuf_sz) % 2 ^ 32

module _ {World : Type 0} where
  unfoldable pub open_unmapped : Io World → Io World
  open_unmapped s = record s {
    readbuf = record s.readbuf { localoffset = 0; fileoffsetmin = 0; fileoffsetmax = 2 ^ 32 - 1 };
  }

  unfoldable pub open_write : Io World → Io World
  open_write s = record s { writebuf = record s.writebuf { localoffset = 0 } }

  -- munmap and free act on no state of the model.
  unfoldable pub unmap : ℕ → IoFile → M World (Unit {0})
  unmap fuel f s =
      if s.mmaphead == 0
      then returned tt s
      else (found (search_in_list fuel s.maps f.fd s.mmaphead) >>= λ n. modify (remove_mmap n)) s

  unfoldable pub seek_mapped : ℕ → ℕ → M World Bool
  seek_mapped pos n s =
      if signed_ltb pos (s.maps n).filesize
      then returned Bool.true (set_map n (record (s.maps n) { localoffset = pos }) s)
      else returned Bool.false s

module _ {World : Type 0} (sys : System World) where
  unfoldable pub io61_filesize : IoFile → M World (Option ℕ)
  io61_filesize f = gets (λ s. sys.regular_size f.fd s.world)

  -- A new node for a file that is mapped.
  unfoldable pub map_file : IoFile → ℕ → ℕ → M World (Unit {0})
  map_file f n fsize = do
    o ← call (sys.mmap f.fd fsize)
    mapped ← or_exit o
    modify (λ s.
        set_map n
          (record (s.maps n) { mapped_file = mapped; filesize = fsize; localoffset = 0; fd = f.fd })
          s)
    modify (insert_first n)

  unfoldable pub open_read : IoFile → M World (Unit {0})
  open_read f = do
    n ← call sys.new_node
    size ← io61_filesize f
    elim size [ none ↦ modify open_unmapped | some fsize ↦ map_file f n fsize ]

  unfoldable pub io61_fdopen : ℕ → Mode → M World IoFile
  io61_fdopen fd mode = do
    let f : IoFile = record { fd = fd; mode = mode }
    elim mode [ rdonly ↦ open_read f | wronly ↦ modify open_write | rdwr ↦ modify open_write ]
    pure f

  unfoldable pub io61_close : ℕ → IoFile → M World ℕ
  io61_close fuel f = do
    elim f.mode [ wronly ↦ io61_flush sys f >>= (λ r. pure tt) | rdonly ↦ pure tt | rdwr ↦ pure tt ]
    unmap fuel f
    call (sys.close f.fd)

  unfoldable pub seek_unmapped : ℕ → IoFile → ℕ → M World Bool
  seek_unmapped fuel f pos s =
      if is_buffered pos s.readbuf
      then returned Bool.true (record s {
        readbuf = record s.readbuf {
          localoffset = sub64 pos (sign_extend s.readbuf.fileoffsetmin);
        };
      })
      else (do
        let low = block_start pos
        modify (λ s'. record s' {
          readbuf = record s'.readbuf {
            fileoffsetmin = low;
            localoffset = sub64 pos (sign_extend low);
            fileoffsetmax = 2 ^ 32 - 1;
          };
        })
        r ← call (sys.lseek f.fd (sign_extend low))
        elim r [
          | none ↦ pure Bool.false
          | some at ↦
              if at == sign_extend low
              then (do
                bytes_read ← read_chunk sys fuel f
                modify (λ s'. record s' {
                  readbuf = record s'.readbuf {
                    fileoffsetmax =
                        add64 (sign_extend s'.readbuf.fileoffsetmin) bytes_read % 2 ^ 32;
                  };
                })
                pure Bool.true)
              else pure Bool.false
        ])
          s

  unfoldable pub seek_read : ℕ → IoFile → ℕ → M World Bool
  seek_read fuel f pos s =
      if s.mmaphead == 0
      then seek_unmapped fuel f pos s
      else (found (search_in_list fuel s.maps f.fd s.mmaphead) >>= seek_mapped pos) s

  unfoldable pub seek_write : IoFile → ℕ → M World Bool
  seek_write f pos = do
    io61_flush sys f
    r ← call (sys.lseek f.fd pos)
    elim r [ none ↦ pure Bool.false | some at ↦ pure (at == pos) ]

  -- `true` is 0, `false` is -1.
  unfoldable pub io61_seek : ℕ → IoFile → ℕ → M World Bool
  io61_seek fuel f pos = elim f.mode [
    | rdonly ↦ seek_read fuel f pos
    | wronly ↦ seek_write f pos
    | rdwr ↦ seek_write f pos
  ]
