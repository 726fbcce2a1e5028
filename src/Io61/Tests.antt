-- ===== src/Io61/Tests.antt =====
-- Assign2/io61.c: a pipe and a mapped file, and the theorems at them.
use systems_programming.Prelude.{
  ℕ, zero, suc, ◌+◌, ◌≤◌, ◌≡◌, ◌≢◌, refl, ap, ◌∙◌, none, some, List, [], ◌∷◌, ◌++◌, ◌==◌,
  if◌then◌else◌, length, arith,
}
use systems_programming.Io61.State.{
  call, rdonly, wronly, IoFile, CacheBuf, MemMap, Io, System, Outcome, returned, slice, ◌>>=◌, ◌>>◌,
  pure,
}
use systems_programming.Io61.Ensures.{Ensures}
use systems_programming.Io61.Read.{io61_read, io61_readc}
use systems_programming.Io61.Write.{
  buffered, append_char, write_round, write_loop, io61_write, write_out, io61_flush,
}
use systems_programming.Io61.Files.{open_unmapped, io61_fdopen, io61_close, io61_seek}
use systems_programming.Io61.Output.{
  Appends, FallsShort, Given, bytes, write_chars, write_chars-Given, io61_write-overtakes,
}
use systems_programming.Io61.Input.{Drains, ReadFails}
use systems_programming.Io61.Pipe.{ReadFrom, read_chars, read_chars-input, Fails, pipe_roundtrip}
use systems_programming.Io61.Mapped.{IsMapped}
use systems_programming.Io61.MapSeek.{available, head_of, io61_readc-io61_read, io61_seek-io61_read}
use systems_programming.Io61.OpenClose.{
  MmapFails, AtFront, io61_fdopen-AtFront, Closed, io61_close-Closed,
}

abbrev take_bytes : ℕ → List ℕ → List ℕ
take_bytes zero bs = []
take_bytes (suc n) [] = []
take_bytes (suc n) (b ∷ bs) = b ∷ take_bytes n bs

abbrev drop_bytes : ℕ → List ℕ → List ℕ
drop_bytes zero bs = bs
drop_bytes (suc n) [] = []
drop_bytes (suc n) (b ∷ bs) = drop_bytes n bs

take-drop : (n : ℕ) (bs : List ℕ) → bs ≡ take_bytes n bs ++ drop_bytes n bs
take-drop zero bs = refl
take-drop (suc n) [] = refl
take-drop (suc n) (b ∷ bs) = ap (λ r. b ∷ r) (take-drop n bs)

length-take : (n : ℕ) (bs : List ℕ) → length (take_bytes n bs) ≤ n
length-take zero bs = omega arith
length-take (suc n) [] = omega arith
length-take (suc n) (b ∷ bs) = omega (arith, length-take n bs)

take_nothing : (n : ℕ) (bs : List ℕ) → take_bytes n bs ≡ [] → n ≢ 0 → bs ≡ []
take_nothing zero bs e nz = absurd (nz refl)
take_nothing (suc n) [] e nz = refl
take_nothing (suc n) (b ∷ bs) e nz = cc

take_at_end : (n : ℕ) → take_bytes n [] ≡ []
take_at_end zero = refl
take_at_end (suc n) = refl

-- Every descriptor is an end of one pipe; descriptor 5 is a regular file of three bytes.
abbrev pipe : System (List ℕ)
pipe = record {
  read = λ fd n w. (some (take_bytes n w), drop_bytes n w);
  write = λ fd bs w. (some (length bs), w ++ bs);
  lseek = λ fd pos w. (none, w);
  regular_size = λ fd w. if fd == 5 then some 3 else none;
  mmap = λ fd size w. (some (λ i. i + 65), w);
  close = λ fd w. (0, w);
  new_node = λ w. (100, w);
}

pipe-Appends : (fd : ℕ) → Appends pipe fd (λ w. w)
pipe-Appends fd = record { appended = λ bs w e. refl }

some_injective : {A : Type 0} {a b : A} → some a ≡ some b → a ≡ b
some_injective e = cc

pipe-Drains : (fd : ℕ) → Drains pipe fd (λ w. w)
pipe-Drains fd = record {
  taken = λ n w bs e. take-drop n w ∙ ap (λ x. x ++ drop_bytes n w) (some_injective e);
  at_most = λ n w bs e. omega (arith, length-take n w, ap length (some_injective e));
  only_end = λ n w e nz. take_nothing n w (some_injective e) nz;
  at_end = λ n w e. ap (λ x. some (take_bytes n x)) e ∙ ap some (take_at_end n);
}

abbrev empty_buf : CacheBuf
empty_buf = record { cbuf = λ i. 0; localoffset = 0; fileoffsetmin = 0; fileoffsetmax = 0 }

abbrev no_map : MemMap
no_map = record { mapped_file = λ i. 0; filesize = 0; localoffset = 0; fd = 0; next = 0; prev = 0 }

abbrev fresh : List ℕ → Io (List ℕ)
fresh w = record {
  readbuf = empty_buf;
  writebuf = empty_buf;
  mmaphead = 0;
  maps = λ a. no_map;
  world = w;
}

abbrev reader : IoFile
reader = record { fd = 3; mode = rdonly }

abbrev writer : IoFile
writer = record { fd = 4; mode = wronly }

write_chars-Given_example :
    Ensures
      (Given (λ w. w) (fresh []) ([] ++ buffered (fresh []) ++ bytes (b'h' ∷ b'i' ∷ [])))
      (FallsShort pipe writer (λ w. w))
      ((write_chars pipe writer (b'h' ∷ b'i' ∷ []) >> io61_flush pipe writer) (fresh []))
write_chars-Given_example =
    write_chars-Given pipe writer (λ w. w) (pipe-Appends 4) (b'h' ∷ b'i' ∷ []) (fresh [])
      (omega arith)

-- The character `a` waits in the buffer.
abbrev waiting : Io (List ℕ)
waiting = append_char b'a' (fresh [])

io61_write-overtakes_example :
    Ensures
      (Given (λ w. w) waiting (waiting.world ++ (b'b' ∷ b'c' ∷ [] ++ buffered waiting)))
      (FallsShort pipe writer (λ w. w))
      ((io61_write pipe writer (b'b' ∷ b'c' ∷ []) >> io61_flush pipe writer) waiting)
io61_write-overtakes_example =
    io61_write-overtakes pipe writer (λ w. w) (pipe-Appends 4) (b'b' ∷ b'c' ∷ []) waiting

abbrev output : {A : Type 0} → Outcome (List ℕ) A → List ℕ
output (returned a s) = s.world
output _ = []

overtaken :
    output ((io61_write pipe writer (b'b' ∷ b'c' ∷ []) >> io61_flush pipe writer) waiting)
    ≡ b'b' ∷ b'c' ∷ b'a' ∷ []
unfolding io61_write write_loop write_round io61_flush write_out append_char
overtaken = refl

read_chars-input_example :
    Ensures
      (ReadFrom 3 (b'h' ∷ b'i' ∷ []))
      (ReadFails pipe reader)
      (read_chars pipe reader 0 3 (open_unmapped (fresh (b'h' ∷ b'i' ∷ []))))
read_chars-input_example =
    read_chars-input pipe reader (λ w. w) (pipe-Drains 3) 0 3 (fresh (b'h' ∷ b'i' ∷ [])) refl
      (omega arith)

pipe_roundtrip_example :
    Ensures
      (λ got s'. got ≡ bytes (b'h' ∷ b'i' ∷ []))
      (Fails pipe pipe writer reader (λ w. w) (pipe-Appends 4) (λ w. refl) (pipe-Drains 3))
      ((write_chars pipe writer (b'h' ∷ b'i' ∷ [])
          >> io61_flush pipe writer
          >> call (pipe.close 4)
          >> read_chars pipe reader 0 5)
        (open_unmapped (fresh [])))
pipe_roundtrip_example =
    pipe_roundtrip pipe pipe writer reader (λ w. w) (pipe-Appends 4) (λ w. refl) (pipe-Drains 3) 0 5
      (b'h' ∷ b'i' ∷ []) (fresh []) refl refl refl (omega arith) (omega arith)

fresh-IsMapped : IsMapped (fresh []) []
fresh-IsMapped = record { first = refl; chain = tt; distinct = tt; in_file = tt }

io61_fdopen-AtFront_example :
    Ensures (AtFront pipe 5 100 3 []) (MmapFails pipe 5) (io61_fdopen pipe 5 rdonly (fresh []))
io61_fdopen-AtFront_example =
    io61_fdopen-AtFront pipe 5 3 [] (fresh []) fresh-IsMapped (omega arith) tt refl (omega arith)

-- "ABC" on descriptor 5, mapped at node 100.
abbrev one_map : Io (List ℕ)
one_map = record (fresh []) {
  mmaphead = 100;
  maps = λ a. record {
    mapped_file = λ i. i + 65;
    filesize = 3;
    localoffset = 1;
    fd = 5;
    next = 0;
    prev = 0;
  };
}

one_map-IsMapped : IsMapped one_map (100 ∷ [])
one_map-IsMapped = record {
  first = refl;
  chain = (omega arith, refl, refl, tt);
  distinct = (tt, tt);
  in_file = ((omega arith, omega arith), tt);
}

abbrev mapped_file : IoFile
mapped_file = record { fd = 5; mode = rdonly }

io61_readc-io61_read_example :
    io61_readc pipe 1 mapped_file one_map
    ≡ (io61_read pipe 1 mapped_file 1 >>= (λ r. pure (head_of r))) one_map
io61_readc-io61_read_example =
    io61_readc-io61_read pipe 1 mapped_file one_map (100 ∷ []) 100 one_map-IsMapped (omega arith)
      refl

io61_seek-io61_read_example :
    let m = one_map.maps 100 in
    (s' : Io (List ℕ)) × ((io61_seek pipe 1 mapped_file 2 >> io61_read pipe 1 mapped_file 9) one_map
      ≡ returned (some (slice m.mapped_file 2 (available m 2 9))) s')
    × ((s'.maps 100).localoffset ≡ 2 + available m 2 9)
    × IsMapped s' (100 ∷ [])
io61_seek-io61_read_example =
    io61_seek-io61_read pipe 1 mapped_file one_map (100 ∷ []) 100 one_map-IsMapped (omega arith)
      refl 2 9 refl (omega arith) (omega arith)

io61_close-Closed_example :
    Closed pipe 1 reader one_map
      (100 ∷ [])
      one_map-IsMapped
      (omega arith)
      (io61_close pipe 1 reader one_map)
io61_close-Closed_example =
    io61_close-Closed pipe 1 reader one_map (100 ∷ []) one_map-IsMapped (omega arith) refl
