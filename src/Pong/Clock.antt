-- ===== src/Pong/Clock.antt =====
-- Assign6/pong61.c: the clock of the fun mode, round after round.
use systems_programming.Prelude.{
  ℕ, zero, suc, ◌+◌, ◌*◌, ◌/◌, ◌≤◌, ◌<◌, ◌≡◌, refl, Bool, true, false, ◌||◌, some, List, [], ◌∷◌,
  ◌==◌, ltb, if◌then◌else◌, get_elem?, length, arith, add32, neg32, signed32_ltb,
}
use systems_programming.Pong.Game.{
  LocalTime, Game, update_clock_time, restart_clock, next_digit, advance_clock,
}

abbrev pub All : {A : Type 0} → (A → Type 0) → List A → Type 0
All P [] = Unit
All P (x ∷ xs) = P x × All P xs

-- An index inside a list finds an element.
pub get_elem?-All :
    {A : Type 0} (P : A → Type 0) (xs : List A) (i : ℕ)
    → All P xs
    → i < length xs
    → (a : A) × (get_elem? xs i ≡ some a) × P a
get_elem?-All P [] i all lt = absurd (omega arith)
get_elem?-All P (x ∷ xs) zero all lt = (x, refl, all.0)
get_elem?-All P (x ∷ xs) (suc i) all lt = get_elem?-All P xs i all.1 (omega arith)

-- A time of day, with leap seconds.
abbrev pub IsTime : LocalTime → Type 0
IsTime t = (t.tm_hour < 24) × (t.tm_min < 60) × (t.tm_sec ≤ 60)

-- The next point is one of a digit of the time, and stands in the rows of its pair of digits.
pub record InClock (g : Game) : Type 0 where
  pub digits : length g.currtime ≡ 6
  pub decimal : All (λ d. d < 10) g.currtime
  pub digit_at : g.digcnt ≤ 5
  pub point_at : g.f_indx ≤ 14
  pub rows : g.yoffset ≡ 1 + 6 * (g.digcnt / 2)

pub update_clock_time-lem :
    (t : LocalTime) (g : Game)
    → IsTime t
    → (length (update_clock_time t g).currtime ≡ 6)
      × All (λ d. d < 10) (update_clock_time t g).currtime
unfolding update_clock_time
update_clock_time-lem t g (h, m, s) = (
  refl,
  (
    omega (arith, h, m, s),
    (
      omega (arith, h, m, s),
      (
        omega (arith, h, m, s),
        (omega (arith, h, m, s), (omega (arith, h, m, s), (omega (arith, h, m, s), tt))),
      ),
    ),
  ),
)

pub All-any : {A : Type 0} (xs : List A) → All (λ a. Unit {0}) xs
All-any [] = tt
All-any (x ∷ xs) = (tt, All-any xs)

pub if-cases :
    {A : Type 0} (P : A → Type 0) (c : Bool) {a b : A}
    → (c ≡ true → P a)
    → (c ≡ false → P b)
    → P (if c then a else b)
if-cases P true p q = p refl
if-cases P false p q = q refl

pub restart_clock-InClock :
    (width : ℕ) (t : LocalTime) (g : Game)
    → IsTime t
    → InClock g
    → InClock (restart_clock width t g)
unfolding restart_clock update_clock_time
restart_clock-InClock width t g it i =
    if-cases InClock g.clock_updated
      (λ e. let (digits, decimal) = update_clock_time-lem t g it in restarted digits decimal)
      (λ e. i)
  where
    restarted :
        length (update_clock_time t g).currtime ≡ 6
        → All (λ d. d < 10) (update_clock_time t g).currtime
        → InClock (
            update_clock_time t
              (record g { digcnt = 0; xoffset = width / 3; yoffset = 1; clock_updated = false }))
    restarted digits decimal = record {
      digits = digits;
      decimal = decimal;
      digit_at = omega arith;
      point_at = i.point_at;
      rows = refl;
    }

pub advance_clock-InClock : (width : ℕ) (g : Game) → InClock g → InClock (advance_clock width g)
unfolding advance_clock next_digit
advance_clock-InClock width g i =
    if-cases InClock (ltb g.f_indx 14)
      (λ e. record {
        digits = i.digits;
        decimal = i.decimal;
        digit_at = i.digit_at;
        point_at = ground (arith, e);
        rows = i.rows;
      })
      (λ e.
        if-cases InClock (ltb g.digcnt 5)
          (λ f.
            if-cases InClock (g.digcnt + 1 == 2 || g.digcnt + 1 == 4)
              (λ n. record {
                digits = i.digits;
                decimal = i.decimal;
                digit_at = ground (arith, f);
                point_at = omega arith;
                rows = ground (arith, f, n, i.rows);
              })
              (λ n.
                if-cases InClock (signed32_ltb g.xoffset (add32 width (neg32 8)))
                  (λ o. record {
                    digits = i.digits;
                    decimal = i.decimal;
                    digit_at = ground (arith, f);
                    point_at = omega arith;
                    rows = ground (arith, f, n, i.rows);
                  })
                  (λ o. record {
                    digits = i.digits;
                    decimal = i.decimal;
                    digit_at = ground (arith, f);
                    point_at = omega arith;
                    rows = ground (arith, f, n, i.rows);
                  })))
          (λ f. record {
            digits = i.digits;
            decimal = i.decimal;
            digit_at = i.digit_at;
            point_at = omega arith;
            rows = i.rows;
          }))
