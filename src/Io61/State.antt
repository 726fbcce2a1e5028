-- ===== src/Io61/State.antt =====
-- Assign2/io61.c and io61.h: the data, what a call can come to, and the system calls, which are the
-- parameter `System`. Offsets are bit patterns: an off_t of 64 bits, an int of 32.
use systems_programming.Prelude.{
  ℕ, zero, suc, ◌+◌, ◌-◌, ◌%◌, ◌^◌, Option, none, some, List, [], ◌∷◌,
}

-- SBUF_SZ
abbrev pub sbuf_sz : ℕ
sbuf_sz = 4096

-- -1 as an off_t
abbrev pub minus_one : ℕ
minus_one = 2 ^ 64 - 1

pub data Mode : Type 0 where
  rdonly wronly rdwr : Mode

-- `io61_file`
pub record IoFile : Type 0 where
  pub fd : ℕ
  pub mode : Mode

-- `cachebuf`: the bytes of `cbuf` by index.
pub record CacheBuf : Type 0 where
  pub cbuf : ℕ → ℕ
  pub localoffset : ℕ
  pub fileoffsetmin : ℕ
  pub fileoffsetmax : ℕ

-- `memmap`; `mapped_file` is the mapped bytes by index, and an address 0 is NULL.
pub record MemMap : Type 0 where
  pub mapped_file : ℕ → ℕ
  pub filesize : ℕ
  pub localoffset : ℕ
  pub fd : ℕ
  pub next : ℕ
  pub prev : ℕ

-- The globals, the nodes in memory, and what the system calls act on.
pub record Io (World : Type 0) : Type 0 where
  pub readbuf : CacheBuf
  pub writebuf : CacheBuf
  pub mmaphead : ℕ
  pub maps : ℕ → MemMap
  pub world : World

-- The system calls that the library makes; `none` is -1.
pub record System (World : Type 0) : Type 0 where
  pub read : ℕ → ℕ → World → Option (List ℕ) × World
  pub write : ℕ → List ℕ → World → Option ℕ × World
  -- the new offset
  pub lseek : ℕ → ℕ → World → Option ℕ × World
  -- the size of a regular file; `none` for anything else, or where fstat fails
  pub regular_size : ℕ → World → Option ℕ
  pub mmap : ℕ → ℕ → World → Option (ℕ → ℕ) × World
  pub close : ℕ → World → ℕ × World
  -- malloc(sizeof(memmap))
  pub new_node : World → ℕ × World

-- What a call comes to: it returns, or the program ends at exit(1), at abort() or at an access
-- through NULL; `endless` is a lack of fuel.
pub data Outcome (World A : Type 0) : Type 0 where
  returned : A → Io World → Outcome World A
  exits : Outcome World A
  aborts : Outcome World A
  null_access : Outcome World A
  endless : Outcome World A

-- The bytes of an array from an offset on.
abbrev pub slice : (ℕ → ℕ) → ℕ → ℕ → List ℕ
slice f l zero = []
slice f l (suc n) = f (l % 2 ^ 64) ∷ slice f (l + 1) n

abbrev pub M : Type 0 → Type 0 → Type 0
M World A = Io World → Outcome World A

abbrev pub and_then : {World A B : Type 0} → Outcome World A → (A → M World B) → Outcome World B
and_then (returned a s) f = f a s
and_then exits f = exits
and_then aborts f = aborts
and_then null_access f = null_access
and_then endless f = endless

infixl 5 ◌>>=◌ ◌>>◌
abbrev pub ◌>>=◌ : {World A B : Type 0} → M World A → (A → M World B) → M World B
◌>>=◌ m f s = and_then (m s) f

abbrev pub ◌>>◌ : {World A B : Type 0} → M World A → M World B → M World B
m >> k = m >>= λ _. k

abbrev pub pure : {World A : Type 0} → A → M World A
pure a s = returned a s

abbrev pub gets : {World A : Type 0} → (Io World → A) → M World A
gets f s = returned (f s) s

abbrev pub modify : {World : Type 0} → (Io World → Io World) → M World (Unit {0})
modify f s = returned tt (f s)

-- A system call.
abbrev pub call : {World A : Type 0} → (World → A × World) → M World A
call f s = returned (f s.world).0 (record s { world = (f s.world).1 })

-- -1 leads to exit(1).
abbrev pub or_exit : {World A : Type 0} → Option A → M World A
or_exit none s = exits
or_exit (some a) s = returned a s
