-- ===== src/Shell/Pieces.antt =====
-- Assign5/sh61.c, `main`: the input cut into lines, and the pieces of it that fgets brings.
use mathlib.Core.List.{append_assoc}
use systems_programming.Prelude.{
  ℕ, suc, ◌<◌, ◌≡◌, ◌≢◌, refl, ap, ◌∙◌, true, false, ◌||◌, List, [], ◌∷◌, ◌++◌, ◌==◌, if◌then◌else◌,
  length, length-append, arith,
}
use systems_programming.Shell.Command.{Word}
use systems_programming.Shell.Prompt.{
  Input, got, interrupted, ends, until_null, last_byte, is_complete,
}

-- The input byte for byte: a line ends at a newline or where it has `limit` bytes. The lines, and what
-- is left behind the last.
unfoldable pub split : ℕ → Word → Word → List Word × Word
split limit acc [] = ([], acc)
split limit acc (b ∷ bs) =
    let line = acc ++ b ∷ [] in
    let next = split limit [] bs in
    let more = split limit line bs in
    if b == 10 || length line == limit then (line ∷ next.0, next.1) else more

-- What fgets may add to a buffer: bytes up to a newline at most, that fit, and no null byte.
abbrev pub Piece : ℕ → Word → Word → Type 0
Piece limit acc [] = ⊥
Piece limit acc (b ∷ []) = (b ≢ 0) × (length acc < limit)
Piece limit acc (b ∷ c ∷ bs) = (b ≢ 0) × (b ≢ 10) × Piece limit (acc ++ b ∷ []) (c ∷ bs)

-- What is in the buffer behind a piece.
abbrev pub kept : ℕ → Word → Word
kept limit line = if is_complete (suc limit) line then [] else line

-- The answers of fgets for a buffer.
abbrev pub Fed : ℕ → Word → List Input → Type 0
Fed limit buf [] = Unit {0}
Fed limit buf (got w true ∷ rest) = Piece limit buf w
Fed limit buf (got w false ∷ rest) = Piece limit buf w × Fed limit (kept limit (buf ++ w)) rest
Fed limit buf (interrupted ∷ rest) = Fed limit buf rest
Fed limit buf (ends ∷ rest) = Unit {0}

-- The bytes that are read up to the end of the file.
abbrev pub input_bytes : List Input → Word
input_bytes [] = []
input_bytes (got w true ∷ rest) = w
input_bytes (got w false ∷ rest) = w ++ input_bytes rest
input_bytes (interrupted ∷ rest) = input_bytes rest
input_bytes (ends ∷ rest) = []

last_byte-snoc : (acc : Word) (b : ℕ) → last_byte (acc ++ b ∷ []) ≡ b
last_byte-snoc [] b = refl
last_byte-snoc (c ∷ []) b = refl
last_byte-snoc (c ∷ d ∷ acc) b = last_byte-snoc (d ∷ acc) b

pub Piece-room : (limit : ℕ) (acc w : Word) → Piece limit acc w → length acc < limit
Piece-room limit acc [] p = absurd p
Piece-room limit acc (b ∷ []) p = p.1
Piece-room limit acc (b ∷ c ∷ bs) p =
    omega (arith, Piece-room limit (acc ++ b ∷ []) (c ∷ bs) p.2, length-append acc (b ∷ []))

-- A byte inside a line.
split-inside :
    (limit : ℕ) (acc xs : Word) (b : ℕ)
    → b ≢ 10
    → length (acc ++ b ∷ []) < limit
    → split limit acc (b ∷ xs) ≡ split limit (acc ++ b ∷ []) xs
unfolding split
split-inside limit acc xs b nl lt =
    let off : (b == 10 || length (acc ++ b ∷ []) == limit) ≡ false = ground (arith, nl, lt) in
    rw off refl

-- A piece is taken in one go.
pub split-Piece :
    (limit : ℕ) (acc w rest : Word)
    → Piece limit acc w
    → split limit acc (w ++ rest) ≡ (
        if is_complete (suc limit) (acc ++ w)
        then ((acc ++ w) ∷ (split limit [] rest).0, (split limit [] rest).1)
        else split limit (acc ++ w) rest)
unfolding split
split-Piece limit acc [] rest p = absurd p
split-Piece limit acc (b ∷ []) rest (nz, lt) =
    ap
      (λ x.
        if x
        then ((acc ++ b ∷ []) ∷ (split limit [] rest).0, (split limit [] rest).1)
        else split limit (acc ++ b ∷ []) rest)
      (ground (arith, last_byte-snoc acc b, length-append acc (b ∷ [])))
split-Piece limit acc (b ∷ c ∷ bs) rest (nz, nl, p) =
    split-inside limit acc ((c ∷ bs) ++ rest) b nl (Piece-room limit (acc ++ b ∷ []) (c ∷ bs) p)
    ∙ split-Piece limit (acc ++ b ∷ []) (c ∷ bs) rest p
    ∙ ap
        (λ line.
          if is_complete (suc limit) line
          then (line ∷ (split limit [] rest).0, (split limit [] rest).1)
          else split limit line rest)
        (append_assoc acc (b ∷ []) (c ∷ bs))

abbrev pub NoNull : Word → Type 0
NoNull [] = Unit {0}
NoNull (c ∷ w) = (c ≢ 0) × NoNull w

pub until_null-NoNull : (w : Word) → NoNull w → until_null w ≡ w
until_null-NoNull [] n = refl
until_null-NoNull (c ∷ w) n = ground (arith, n.0, until_null-NoNull w n.1)

pub NoNull-append : (acc w : Word) → NoNull acc → NoNull w → NoNull (acc ++ w)
NoNull-append [] w e f = f
NoNull-append (c ∷ acc) w e f = (e.0, NoNull-append acc w e.1 f)

pub Piece-NoNull : (limit : ℕ) (acc w : Word) → Piece limit acc w → NoNull w
Piece-NoNull limit acc [] p = tt
Piece-NoNull limit acc (b ∷ []) p = (p.0, tt)
Piece-NoNull limit acc (b ∷ c ∷ bs) p = (p.0, Piece-NoNull limit (acc ++ b ∷ []) (c ∷ bs) p.2)
