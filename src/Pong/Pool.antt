-- ===== src/Pong/Pool.antt =====
-- Assign6/pong61.c: `get_connection` on the connection table. A slot is `none`
-- for NULL; http_connect, which opens a socket, is the connection it returns.
use systems_programming.Prelude.{
  ℕ, zero, suc, ◌+◌, ◌≡◌, ◌⊎◌, refl, Bool, true, false, Option, none, some, List, [], ◌∷◌, arith,
  inl, inr, Bool-cases, if◌then◌else◌,
}
use mathlib.Core.Path.{subst}
use systems_programming.Pong.Http.{HttpState, http_done, HttpConnection}

abbrev pub Pool : Type 0
Pool = List (Option HttpConnection)

abbrev pub is_done : HttpState → Bool
is_done http_done = true
is_done _ = false

-- connectionpool[i] != NULL && connectionpool[i]->state == HTTP_DONE
abbrev pub is_reusable : Option HttpConnection → Bool
is_reusable none = false
is_reusable (some conn) = is_done conn.state

-- The loop's result: a connection to use again, or the free slot that it noted.
pub data Slot : Type 0 where
  reuse : ℕ → Slot
  noted : Option ℕ → Slot

abbrev pub note : Option HttpConnection → ℕ → Option ℕ → Option ℕ
note none i none = some i
note none i (some j) = some j
note (some conn) i free_slot = free_slot

unfoldable pub find_slot : Pool → ℕ → Option ℕ → Slot
find_slot [] i free_slot = noted free_slot
find_slot (p ∷ ps) i free_slot =
    let rest = find_slot ps (i + 1) (note p i free_slot) in if is_reusable p then reuse i else rest

abbrev pub set_slot : Pool → ℕ → HttpConnection → Pool
set_slot [] i conn = []
set_slot (p ∷ ps) zero conn = some conn ∷ ps
set_slot (p ∷ ps) (suc i) conn = p ∷ set_slot ps i conn

-- The slot of the connection that is returned, and the table; `none` for NULL.
unfoldable pub get_connection : HttpConnection → Pool → Option (ℕ × Pool)
get_connection fresh pool = elim (find_slot pool 0 none) [
  | reuse i ↦ some (i, pool)
  | noted o ↦ elim o [ none ↦ none | some i ↦ some (i, set_slot pool i fresh) ]
]

-- No slot of the table passes the test.
abbrev pub NoneOf : (Option HttpConnection → Bool) → Pool → Type 0
NoneOf test [] = Unit {0}
NoneOf test (p ∷ ps) = (test p ≡ false) × NoneOf test ps

abbrev pub is_null : Option HttpConnection → Bool
is_null none = true
is_null (some conn) = false

-- The first slot that passes the test is `i`.
abbrev pub First : (Option HttpConnection → Bool) → Pool → ℕ → Type 0
First test [] i = ⊥
First test (p ∷ ps) zero = test p ≡ true
First test (p ∷ ps) (suc i) = (test p ≡ false) × First test ps i

-- What the loop finds from slot `i` on.
abbrev pub Finds : Pool → ℕ → Option ℕ → Slot → Type 0
Finds pool i free_slot (reuse j) = (k : ℕ) × (j ≡ i + k) × First is_reusable pool k
Finds pool i none (noted none) = NoneOf is_reusable pool × NoneOf is_null pool
Finds pool i none (noted (some j)) =
    NoneOf is_reusable pool × ((k : ℕ) × (j ≡ i + k) × First is_null pool k)
Finds pool i (some f) (noted o) = NoneOf is_reusable pool × (o ≡ some f)

Finds-cons :
    (p : Option HttpConnection) (ps : Pool) (i : ℕ) (free_slot : Option ℕ) (s : Slot)
    → is_reusable p ≡ false
    → Finds ps (i + 1) (note p i free_slot) s
    → Finds (p ∷ ps) i free_slot s
Finds-cons p ps i free_slot (reuse j) r (k, e, f) = (suc k, omega (arith, e), (r, f))
Finds-cons none ps i none (noted none) r (n, e) = ground (arith, e)
Finds-cons none ps i none (noted (some j)) r (n, e) = ((r, n), (0, ground (arith, e), refl))
Finds-cons (some c) ps i none (noted none) r (n, e) = ((r, n), (refl, e))
Finds-cons (some c) ps i none (noted (some j)) r (n, (k, e, f)) =
    ((r, n), (suc k, omega (arith, e), (refl, f)))
Finds-cons none ps i (some f) (noted o) r (n, e) = ((r, n), e)
Finds-cons (some c) ps i (some f) (noted o) r (n, e) = ((r, n), e)

find_slot-Finds :
    (pool : Pool) (i : ℕ) (free_slot : Option ℕ)
    → Finds pool i free_slot (find_slot pool i free_slot)
unfolding find_slot
find_slot-Finds [] i none = (tt, tt)
find_slot-Finds [] i (some f) = (tt, refl)
find_slot-Finds (p ∷ ps) i free_slot = elim (Bool-cases (is_reusable p)) [
  | inl t ↦ rw (t, find_slot) (0, omega arith, t)
  | inr f ↦
      rw (f, find_slot)
        (Finds-cons p ps i free_slot (find_slot ps (i + 1) (note p i free_slot)) f
          (find_slot-Finds ps (i + 1) (note p i free_slot)))
]

from_zero : (k i : ℕ) → i ≡ 0 + k → k ≡ i
from_zero k i e = omega (arith, e)

-- What a call of get_connection comes to.
abbrev pub GetPost : HttpConnection → Pool → Option (ℕ × Pool) → Type 0
GetPost fresh pool none = NoneOf is_reusable pool × NoneOf is_null pool
GetPost fresh pool (some (i, pool')) =
    (First is_reusable pool i × (pool' ≡ pool))
    ⊎ (NoneOf is_reusable pool × First is_null pool i × (pool' ≡ set_slot pool i fresh))

-- get_connection returns the first connection that has finished, and leaves the table alone; if there
-- is none, it opens one in the first free slot; and it returns NULL exactly if there is no free slot
-- either.
pub get_connection-GetPost :
    (fresh : HttpConnection) (pool : Pool) → GetPost fresh pool (get_connection fresh pool)
unfolding get_connection
get_connection-GetPost fresh pool = go (find_slot pool 0 none) (find_slot-Finds pool 0 none)
  where
    go :
        (s : Slot)
        → Finds pool 0 none s
        → GetPost fresh pool (elim s [
          | reuse i ↦ some (i, pool)
          | noted o ↦ elim o [ none ↦ none | some i ↦ some (i, set_slot pool i fresh) ]
        ])
    go (reuse i) (k, e, f) = inl (subst (First is_reusable pool) (from_zero k i e) f, refl)
    go (noted none) n = n
    go (noted (some i)) (n, (k, e, f)) =
        inr (n, subst (First is_null pool) (from_zero k i e) f, refl)
