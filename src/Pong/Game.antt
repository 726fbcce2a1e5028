-- ===== src/Pong/Game.antt =====
-- Assign6/pong61.c: the rounds of the main loop, the clock, and the moving dot. Ints are 32-bit
-- patterns. `none` is an access out of the bounds of an array.
use systems_programming.Prelude.{
  ℕ, ◌+◌, ◌-◌, ◌*◌, ◌/◌, ◌%◌, Bool, true, false, not, ◌||◌, Option, none, some, List, [], ◌∷◌, ◌==◌,
  ◌++◌, ltb, if◌then◌else◌, get_elem?, add32, neg32, signed32_ltb,
}

infixl 5 ◌>>=◌
abbrev pub ◌>>=◌ : {A B : Type 0} → Option A → (A → Option B) → Option B
none >>= f = none
(some a) >>= f = f a

-- MAXTHREADS
abbrev pub max_threads : ℕ
max_threads = 30

abbrev pub digpos : List (ℕ × ℕ)
digpos =
    (0, 0)
    ∷ (0, 1)
    ∷ (0, 2)
    ∷ (0, 3)
    ∷ (0, 4)
    ∷ (1, 0)
    ∷ (1, 1)
    ∷ (1, 2)
    ∷ (1, 3)
    ∷ (1, 4)
    ∷ (2, 0)
    ∷ (2, 1)
    ∷ (2, 2)
    ∷ (2, 3)
    ∷ (2, 4)
    ∷ []

abbrev pub digit : List (List ℕ)
digit =
    (1 ∷ 1 ∷ 1 ∷ 1 ∷ 1 ∷ 1 ∷ 0 ∷ 0 ∷ 0 ∷ 1 ∷ 1 ∷ 1 ∷ 1 ∷ 1 ∷ 1 ∷ [])
    ∷ (0 ∷ 0 ∷ 0 ∷ 0 ∷ 0 ∷ 0 ∷ 0 ∷ 0 ∷ 0 ∷ 0 ∷ 1 ∷ 1 ∷ 1 ∷ 1 ∷ 1 ∷ [])
    ∷ (1 ∷ 0 ∷ 1 ∷ 1 ∷ 1 ∷ 1 ∷ 0 ∷ 1 ∷ 0 ∷ 1 ∷ 1 ∷ 1 ∷ 1 ∷ 0 ∷ 1 ∷ [])
    ∷ (1 ∷ 0 ∷ 1 ∷ 0 ∷ 1 ∷ 1 ∷ 0 ∷ 1 ∷ 0 ∷ 1 ∷ 1 ∷ 1 ∷ 1 ∷ 1 ∷ 1 ∷ [])
    ∷ (1 ∷ 1 ∷ 1 ∷ 0 ∷ 0 ∷ 0 ∷ 0 ∷ 1 ∷ 0 ∷ 0 ∷ 1 ∷ 1 ∷ 1 ∷ 1 ∷ 1 ∷ [])
    ∷ (1 ∷ 1 ∷ 1 ∷ 0 ∷ 1 ∷ 1 ∷ 0 ∷ 1 ∷ 0 ∷ 1 ∷ 1 ∷ 0 ∷ 1 ∷ 1 ∷ 1 ∷ [])
    ∷ (1 ∷ 1 ∷ 1 ∷ 1 ∷ 1 ∷ 1 ∷ 0 ∷ 1 ∷ 0 ∷ 1 ∷ 1 ∷ 0 ∷ 1 ∷ 1 ∷ 1 ∷ [])
    ∷ (1 ∷ 0 ∷ 0 ∷ 0 ∷ 0 ∷ 1 ∷ 0 ∷ 0 ∷ 0 ∷ 0 ∷ 1 ∷ 1 ∷ 1 ∷ 1 ∷ 1 ∷ [])
    ∷ (1 ∷ 1 ∷ 1 ∷ 1 ∷ 1 ∷ 1 ∷ 0 ∷ 1 ∷ 0 ∷ 1 ∷ 1 ∷ 1 ∷ 1 ∷ 1 ∷ 1 ∷ [])
    ∷ (1 ∷ 1 ∷ 1 ∷ 0 ∷ 1 ∷ 1 ∷ 0 ∷ 1 ∷ 0 ∷ 1 ∷ 1 ∷ 1 ∷ 1 ∷ 1 ∷ 1 ∷ [])
    ∷ []

-- What localtime() gives.
pub record LocalTime : Type 0 where
  pub tm_hour : ℕ
  pub tm_min : ℕ
  pub tm_sec : ℕ

-- The variables of the loop, and the clock.
pub record Game : Type 0 where
  pub x : ℕ
  pub y : ℕ
  pub dx : ℕ
  pub dy : ℕ
  pub f_indx : ℕ
  pub digcnt : ℕ
  pub xoffset : ℕ
  pub yoffset : ℕ
  pub clock_updated : Bool
  pub do_send_dot : Bool
  pub currtime : List ℕ

-- The two digits of a number of the clock.
abbrev pub tens : ℕ → ℕ
tens n = (n - n % 10) / 10

unfoldable pub update_clock_time : LocalTime → Game → Game
update_clock_time t g = record g {
  currtime =
      tens t.tm_hour
      ∷ t.tm_hour % 10
      ∷ tens t.tm_min
      ∷ t.tm_min % 10
      ∷ tens t.tm_sec
      ∷ t.tm_sec % 10
      ∷ [];
}

-- One coordinate: `x += dx; if (x < 0 || x >= width) { dx = -dx; x += 2 * dx; }`
unfoldable pub bounce : ℕ → ℕ × ℕ → ℕ × ℕ
bounce size (x, dx) =
    let moved = add32 x dx in
    if signed32_ltb moved 0 || not (signed32_ltb moved size)
    then (add32 moved (2 * neg32 dx), neg32 dx)
    else (moved, dx)

unfoldable pub update_position : ℕ → ℕ → Game → Game
update_position width height g = record g {
  x = (bounce width (g.x, g.dx)).0;
  dx = (bounce width (g.x, g.dx)).1;
  y = (bounce height (g.y, g.dy)).0;
  dy = (bounce height (g.y, g.dy)).1;
}

-- After the whole time is shown: start again with the current time.
unfoldable pub restart_clock : ℕ → LocalTime → Game → Game
restart_clock width now g =
    if g.clock_updated
    then update_clock_time now
        (record g { digcnt = 0; xoffset = width / 3; yoffset = 1; clock_updated = false })
    else g

-- The point of the digit that is shown next.
unfoldable pub choose_dot : Game → Option Game
choose_dot g = do
  d ← get_elem? g.currtime g.digcnt
  row ← get_elem? digit d
  on ← get_elem? row g.f_indx
  at ← get_elem? digpos g.f_indx
  some (
      if on == 1
      then record g { x = add32 at.0 g.xoffset; y = add32 at.1 g.yoffset; do_send_dot = true }
      else record g { do_send_dot = false })

-- Where the next digit goes.
unfoldable pub next_digit : ℕ → Game → Game
next_digit width g =
    let n = g.digcnt + 1 in
    if n == 2 || n == 4
    then record g { digcnt = n; xoffset = width / 3; yoffset = add32 g.yoffset 6 }
    else if signed32_ltb g.xoffset (add32 width (neg32 8))
    then record g { digcnt = n; xoffset = add32 g.xoffset 4 }
    else record g { digcnt = n; xoffset = 0 }

unfoldable pub advance_clock : ℕ → Game → Game
advance_clock width g =
    if ltb g.f_indx 14
    then record g { f_indx = g.f_indx + 1 }
    else if ltb g.digcnt 5
    then next_digit width (record g { f_indx = 0 })
    else record g { f_indx = 0; clock_updated = true }

-- Fun mode: the part of a round before the dot is sent.
unfoldable pub clock_round : ℕ → LocalTime → Game → Option Game
clock_round width now g = do
  g1 ← choose_dot (restart_clock width now g)
  some (advance_clock width g1)

-- The dot that goes to a new thread.
unfoldable pub sent_dot : Game → List (ℕ × ℕ)
sent_dot g = if g.do_send_dot then (g.x, g.y) ∷ [] else []

-- A round that the number of threads admits.
unfoldable pub admitted_round : Bool → ℕ → ℕ → LocalTime → Game → Option (List (ℕ × ℕ) × Game)
admitted_round nocheck width height now g =
    if nocheck
    then (do g1 ← clock_round width now g; some (sent_dot g1, g1))
    else some (sent_dot g, update_position width height g)

-- A round, with the number of threads that it reads and the time on the clock.
unfoldable pub round : Bool → ℕ → ℕ → ℕ × LocalTime → Game → Option (List (ℕ × ℕ) × Game)
round nocheck width height (threadcnt, now) g =
    if ltb threadcnt max_threads then admitted_round nocheck width height now g else some ([], g)

-- The variables before the loop.
unfoldable pub start : Bool → ℕ → LocalTime → Game
start nocheck width now =
    let g : Game = record {
      x = 0;
      y = 0;
      dx = 1;
      dy = 1;
      f_indx = 0;
      digcnt = 0;
      xoffset = width / 3;
      yoffset = 1;
      clock_updated = false;
      do_send_dot = true;
      currtime = 0 ∷ 0 ∷ 0 ∷ 0 ∷ 0 ∷ 0 ∷ [];
    } in
    if nocheck then update_clock_time now g else g

-- The rounds of `while (1)`, for the threads and times that they meet; the dots are in order.
unfoldable pub play : Bool → ℕ → ℕ → List (ℕ × LocalTime) → Game → Option (List (ℕ × ℕ) × Game)
play nocheck width height [] g = some ([], g)
play nocheck width height (i ∷ rest) g = do
  r ← round nocheck width height i g
  later ← play nocheck width height rest r.1
  some (r.0 ++ later.0, later.1)
