-- ===== src/Pong/Rounds.antt =====
-- Assign6/pong61.c: where the dots go, round after round.
use systems_programming.Prelude.{
  ℕ, zero, suc, ◌+◌, ◌-◌, ◌*◌, ◌^◌, ◌≤◌, ◌<◌, ◌≡◌, refl, ap, ◌⊎◌, inl, inr, Bool, true, false, not,
  ◌||◌, some, List, [], ◌∷◌, ◌++◌, ltb, if◌then◌else◌, arith, add32, neg32, signed32_ltb,
  Bool-cases,
}
use systems_programming.Pong.Game.{
  max_threads, LocalTime, Game, bounce, update_position, sent_dot, admitted_round, round, play,
}

-- A coordinate of the board, with a speed of 1 or -1.
abbrev pub OnAxis : ℕ → ℕ × ℕ → Type 0
OnAxis size (x, dx) = (x < size) × ((dx ≡ 1) ⊎ (dx ≡ 2 ^ 32 - 1))

-- One further or one back.
abbrev pub Adjacent : ℕ → ℕ → Type 0
Adjacent a b = (b ≡ a + 1) ⊎ (a ≡ b + 1)

-- A board with sides from 2 on.
abbrev pub Side : ℕ → Type 0
Side size = (2 ≤ size) × (size < 2 ^ 31)

-- The test for a coordinate off the board.
abbrev off_board : ℕ → ℕ → Bool
off_board size m = signed32_ltb m 0 || not (signed32_ltb m size)

bounce-inside :
    (size x dx m : ℕ) → add32 x dx ≡ m → m < size → size < 2 ^ 31 → bounce size (x, dx) ≡ (m, dx)
unfolding bounce
bounce-inside size x dx m e lt small =
    let c : off_board size m ≡ false = ground arith in rw (e, c) refl

bounce-outside :
    (size x dx m : ℕ)
    → add32 x dx ≡ m
    → off_board size m ≡ true
    → bounce size (x, dx) ≡ (add32 m (2 * neg32 dx), neg32 dx)
unfolding bounce
bounce-outside size x dx m e c = rw (e, c) refl

-- What a step comes to.
abbrev Bounced : ℕ → ℕ → ℕ × ℕ → Type 0
Bounced size x r = OnAxis size r × Adjacent x r.0

bounce-up : (size x : ℕ) → Side size → x < size → Bounced size x (bounce size (x, 1))
bounce-up size x side lt = elim (Bool-cases (ltb (x + 1) size)) [
  | inl e ↦
      rw (bounce-inside size x 1 (x + 1) (omega (arith, lt, side.1)) (ground (arith, e)) side.1)
        ((ground (arith, e), inl refl), inl refl)
  | inr e ↦
      rw
        (bounce-outside size x 1 (x + 1) (omega (arith, lt, side.1))
          (ground (arith, lt, e, side.1)))
        (
          (ground (arith, e, lt, side.1, side.0), inr refl),
          inr (ground (arith, e, lt, side.1, side.0)),
        )
]

bounce-down : (size x : ℕ) → Side size → x < size → Bounced size x (bounce size (x, 2 ^ 32 - 1))
bounce-down size zero side lt =
    rw (bounce-outside size 0 (2 ^ 32 - 1) (2 ^ 32 - 1) (omega arith) (ground (arith, side.1)))
      ((omega (arith, side.0), inl refl), inl refl)
bounce-down size (suc x) side lt =
    rw
      (bounce-inside size (suc x) (2 ^ 32 - 1) x (omega (arith, lt, side.1)) (omega (arith, lt))
        side.1)
      ((omega (arith, lt), inr refl), inr (omega arith))

bounce-OnAxis :
    (size x dx : ℕ) → Side size → OnAxis size (x, dx) → Bounced size x (bounce size (x, dx))
bounce-OnAxis size x dx side (lt, inl e) = rw e (bounce-up size x side lt)
bounce-OnAxis size x dx side (lt, inr e) = rw e (bounce-down size x side lt)

-- Dots from a point on: each on the board, and a diagonal step from the one before.
abbrev pub Rally : ℕ → ℕ → ℕ → ℕ → List (ℕ × ℕ) → Type 0
Rally width height x y [] = Unit
Rally width height x y (p ∷ ps) =
    (p ≡ (x, y))
    × (x < width)
    × (y < height)
    × ((x' : ℕ) × (y' : ℕ) × Adjacent x x' × Adjacent y y' × Rally width height x' y' ps)

-- The dot is on the board.
abbrev InPlay : ℕ → ℕ → Game → Type 0
InPlay width height g =
    OnAxis width (g.x, g.dx) × OnAxis height (g.y, g.dy) × (g.do_send_dot ≡ true)

pub play-Rally :
    (width height : ℕ) (inputs : List (ℕ × LocalTime)) (g : Game)
    → Side width
    → Side height
    → InPlay width height g
    → (dots : List (ℕ × ℕ)) × (g' : Game) × (play false width height inputs g ≡ some (dots, g'))
      × Rally width height g.x g.y dots
unfolding play round admitted_round sent_dot update_position
play-Rally width height [] g w h i = ([], g, refl, tt)
play-Rally width height ((threadcnt, now) ∷ rest) g w h (ix, iy, send) =
    elim (Bool-cases (ltb threadcnt max_threads)) [
      | inr e ↦
          let (dots, g', eq, r) = play-Rally width height rest g w h (ix, iy, send) in
          (dots, g', rw (e, eq) refl, r)
      | inl e ↦
          let bx = bounce-OnAxis width g.x g.dx w ix in
          let by = bounce-OnAxis height g.y g.dy h iy in
          let next = update_position width height g in
          let (dots, g', eq, r) = play-Rally width height rest next w h (bx.0, by.0, send) in
          (
            (g.x, g.y) ∷ dots,
            g',
            rw (e, eq) (ap (λ b. some ((if b then (g.x, g.y) ∷ [] else []) ++ dots, g')) send),
            (refl, ix.0, iy.0, (next.x, next.y, bx.1, by.1, r)),
          )
    ]
