-- ===== src/Prelude/Links.antt =====
-- Doubly linked lists in memory: `prev` and `next` of an address, with 0 for NULL, and the list of the
-- addresses that they link.
use Prim.Native.Nat.{ℕ}
use mathlib.Core.Path.{◌≡◌, refl, sym, ◌∙◌}
use mathlib.Core.Logic.{◌≢◌}
use native.Mathlib.Omega.{arith}
use systems_programming.Prelude.Tests.{◌==◌, if◌then◌else◌}
use mathlib.Core.List.{List, [], ◌∷◌, ◌++◌}

abbrev pub head_or_null : List ℕ → ℕ
head_or_null [] = 0
head_or_null (a ∷ as') = a

abbrev pub last_or : ℕ → List ℕ → ℕ
last_or p [] = p
last_or p (a ∷ as') = last_or a as'

abbrev pub NotIn : ℕ → List ℕ → Type 0
NotIn n [] = Unit {0}
NotIn n (a ∷ as') = (a ≢ n) × NotIn n as'

abbrev pub Distinct : List ℕ → Type 0
Distinct [] = Unit {0}
Distinct (a ∷ as') = NotIn a as' × Distinct as'

-- The nodes link the addresses in order, and `p` stands in front.
abbrev pub Chain : (ℕ → ℕ) → (ℕ → ℕ) → ℕ → List ℕ → Type 0
Chain prev next p [] = Unit {0}
Chain prev next p (a ∷ as') =
    (a ≢ 0) × (prev a ≡ p) × (next a ≡ head_or_null as') × Chain prev next a as'

last-ne : (n p a : ℕ) (as' : List ℕ) → NotIn n (a ∷ as') → last_or p (a ∷ as') ≢ n
last-ne n p a [] h = h.0
last-ne n p a (b ∷ as') h = last-ne n a b as' h.1

-- Links that differ at no address of the list.
pub Chain-agree :
    (prev next prev' next' : ℕ → ℕ) (p : ℕ) (as' : List ℕ) (x y z : ℕ)
    → ((b : ℕ) → b ≢ x → b ≢ y → prev' b ≡ prev b)
    → ((b : ℕ) → b ≢ x → b ≢ z → next' b ≡ next b)
    → NotIn x as'
    → NotIn y as'
    → NotIn z as'
    → Chain prev next p as'
    → Chain prev' next' p as'
Chain-agree prev next prev' next' p [] x y z prevs nexts nx ny nz c = tt
Chain-agree prev next prev' next' p (a ∷ as') x y z prevs nexts nx ny nz c = (
  c.0,
  prevs a nx.0 ny.0 ∙ c.1,
  nexts a nx.0 nz.0 ∙ c.2,
  Chain-agree prev next prev' next' a as' x y z prevs nexts nx.1 ny.1 nz.1 c.3,
)

-- Linking `n` behind the last block.
pub Chain-snoc :
    (prev next prev' next' : ℕ → ℕ) (p n : ℕ) (as' : List ℕ)
    → ((b : ℕ) → b ≢ n → prev' b ≡ prev b)
    → ((b : ℕ) → b ≢ n → b ≢ last_or p as' → next' b ≡ next b)
    → (as' ≢ [] → next' (last_or p as') ≡ n)
    → prev' n ≡ last_or p as'
    → next' n ≡ 0
    → n ≢ 0
    → NotIn n as'
    → Distinct as'
    → Chain prev next p as'
    → Chain prev' next' p (as' ++ n ∷ [])
Chain-snoc prev next prev' next' p n [] prevs nexts lastn np nn nz ni d c = (nz, np, nn, tt)
Chain-snoc prev next prev' next' p n (a ∷ []) prevs nexts lastn np nn nz ni d c =
    (c.0, prevs a ni.0 ∙ c.1, lastn (λ e. cc), (nz, np, nn, tt))
Chain-snoc prev next prev' next' p n (a ∷ b ∷ as') prevs nexts lastn np nn nz ni d c = (
  c.0,
  prevs a ni.0 ∙ c.1,
  nexts a ni.0 (λ e. last-ne a a b as' d.0 (sym e)) ∙ c.2,
  Chain-snoc prev next prev' next' a n (b ∷ as') prevs nexts (λ ne. lastn (λ e. cc)) np nn nz ni.1
      d.1 c.3,
)

NotIn-append : (n : ℕ) (xs ys : List ℕ) → NotIn n (xs ++ ys) → NotIn n xs × NotIn n ys
NotIn-append n [] ys h = (tt, h)
NotIn-append n (x ∷ xs) ys h = let (l, r) = NotIn-append n xs ys h.1 in ((h.0, l), r)

NotIn-head : (n : ℕ) (ys : List ℕ) → n ≢ 0 → NotIn n ys → n ≢ head_or_null ys
NotIn-head n [] nz h e = nz e
NotIn-head n (y ∷ ys) nz h e = h.0 (sym e)

-- Taking `a` out of the middle.
pub Chain-remove :
    (prev next prev' next' : ℕ → ℕ) (p a : ℕ) (xs ys : List ℕ)
    → ((b : ℕ) → b ≢ a → b ≢ head_or_null ys → prev' b ≡ prev b)
    → ((b : ℕ) → b ≢ a → b ≢ last_or p xs → next' b ≡ next b)
    → (ys ≢ [] → prev' (head_or_null ys) ≡ last_or p xs)
    → (xs ≢ [] → next' (last_or p xs) ≡ head_or_null ys)
    → NotIn p (xs ++ a ∷ ys)
    → Distinct (xs ++ a ∷ ys)
    → Chain prev next p (xs ++ a ∷ ys)
    → Chain prev' next' p (xs ++ ys)
Chain-remove prev next prev' next' p a [] [] prevs nexts jp jn np d c = tt
Chain-remove prev next prev' next' p a [] (y ∷ ys) prevs nexts jp jn np d c = (
  c.3.0,
  jp (λ e. cc),
  nexts y d.0.0 np.1.0 ∙ c.3.2,
  Chain-agree prev next prev' next' y ys a y p prevs nexts d.0.1 d.1.0 np.1.1 c.3.3,
)
Chain-remove prev next prev' next' p a (x ∷ []) ys prevs nexts jp jn np d c = (
  c.0,
  prevs x (λ e. d.0.0 (sym e)) (NotIn-head x ys c.0 d.0.1) ∙ c.1,
  jn (λ e. cc),
  Chain-remove prev next prev' next' x a [] ys prevs nexts jp (λ ne. jn (λ e. cc)) d.0 d.1 c.3,
)
Chain-remove prev next prev' next' p a (x ∷ z ∷ xs) ys prevs nexts jp jn np d c =
    let (l, r) = NotIn-append x (z ∷ xs) (a ∷ ys) d.0 in
    (
      c.0,
      prevs x (λ e. r.0 (sym e)) (NotIn-head x ys c.0 r.1) ∙ c.1,
      nexts x (λ e. r.0 (sym e)) (λ e. last-ne x x z xs l (sym e)) ∙ c.2,
      Chain-remove prev next prev' next' x a (z ∷ xs) ys prevs nexts jp (λ ne. jn (λ e. cc)) d.0 d.1
          c.3,
    )

pub Chain-at :
    (prev next : ℕ → ℕ) (p a : ℕ) (xs ys : List ℕ)
    → Chain prev next p (xs ++ a ∷ ys)
    → (a ≢ 0) × (prev a ≡ last_or p xs) × (next a ≡ head_or_null ys)
Chain-at prev next p a [] ys c = (c.0, c.1, c.2)
Chain-at prev next p a (x ∷ xs) ys c = Chain-at prev next x a xs ys c.3

pub NotIn-remove : (n a : ℕ) (xs ys : List ℕ) → NotIn n (xs ++ a ∷ ys) → NotIn n (xs ++ ys)
NotIn-remove n a [] ys h = h.1
NotIn-remove n a (x ∷ xs) ys h = (h.0, NotIn-remove n a xs ys h.1)

pub Distinct-remove : (a : ℕ) (xs ys : List ℕ) → Distinct (xs ++ a ∷ ys) → Distinct (xs ++ ys)
Distinct-remove a [] ys d = d.1
Distinct-remove a (x ∷ xs) ys d = (NotIn-remove x a xs ys d.0, Distinct-remove a xs ys d.1)

pub last-remove :
    (p a y : ℕ) (xs ys : List ℕ) → last_or p (xs ++ a ∷ y ∷ ys) ≡ last_or p (xs ++ y ∷ ys)
last-remove p a y [] ys = refl
last-remove p a y (x ∷ xs) ys = last-remove x a y xs ys

pub last-append_nil : (p : ℕ) (xs : List ℕ) → last_or p (xs ++ []) ≡ last_or p xs
last-append_nil p [] = refl
last-append_nil p (x ∷ xs) = last-append_nil x xs

pub NotIn-front : (n a : ℕ) (xs ys : List ℕ) → NotIn n (xs ++ a ∷ ys) → NotIn n xs × NotIn n ys
NotIn-front n a [] ys h = (tt, h.1)
NotIn-front n a (x ∷ xs) ys h = let (l, r) = NotIn-front n a xs ys h.1 in ((h.0, l), r)

pub NotIn-zero :
    (prev next : ℕ → ℕ) (p : ℕ) (blocks : List ℕ) → Chain prev next p blocks → NotIn 0 blocks
NotIn-zero prev next p [] c = tt
NotIn-zero prev next p (a ∷ as') c = (c.0, NotIn-zero prev next a as' c.3)

pub last-ne_zero : (p : ℕ) (blocks : List ℕ) → NotIn 0 blocks → blocks ≢ [] → last_or p blocks ≢ 0
last-ne_zero p [] h ne = absurd (ne refl)
last-ne_zero p (a ∷ []) h ne = h.0
last-ne_zero p (a ∷ b ∷ as') h ne = last-ne_zero a (b ∷ as') h.1 (λ e. cc)

pub last-ne_new : (n p : ℕ) (blocks : List ℕ) → NotIn n blocks → blocks ≢ [] → last_or p blocks ≢ n
last-ne_new n p [] h ne = absurd (ne refl)
last-ne_new n p (a ∷ []) h ne = h.0
last-ne_new n p (a ∷ b ∷ as') h ne = last-ne_new n a (b ∷ as') h.1 (λ e. cc)

pub last-snoc : (p n : ℕ) (blocks : List ℕ) → last_or p (blocks ++ n ∷ []) ≡ n
last-snoc p n [] = refl
last-snoc p n (a ∷ as') = last-snoc a n as'

pub Distinct-snoc :
    (n : ℕ) (blocks : List ℕ) → NotIn n blocks → Distinct blocks → Distinct (blocks ++ n ∷ [])
Distinct-snoc n [] h d = (tt, tt)
Distinct-snoc n (a ∷ as') h d =
    (NotIn-snoc a n as' (λ e. h.0 (sym e)) d.0, Distinct-snoc n as' h.1 d.1)
  where
    NotIn-snoc : (a n : ℕ) (as' : List ℕ) → n ≢ a → NotIn a as' → NotIn a (as' ++ n ∷ [])
    NotIn-snoc a n [] ne h = (ne, tt)
    NotIn-snoc a n (b ∷ as') ne h = (h.0, NotIn-snoc a n as' ne h.1)

-- Where the list starts once `a` is taken out.
pub head-unlink :
    (a first prev next : ℕ) (xs ys : List ℕ)
    → prev ≡ last_or 0 xs
    → next ≡ head_or_null ys
    → (xs ≢ [] → prev ≢ 0)
    → first ≡ head_or_null (xs ++ a ∷ ys)
    → (if prev == 0 then next else first) ≡ head_or_null (xs ++ ys)
head-unlink a first prev next [] ys p n nz f = ground arith
head-unlink a first prev next (x ∷ xs) ys p n nz f = ground (arith, nz (λ e. cc))
