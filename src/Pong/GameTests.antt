-- ===== src/Pong/GameTests.antt =====
-- Assign6/pong61.c: games on small boards, and the theorem at one.
use systems_programming.Prelude.{
  ℕ, ◌-◌, ◌^◌, ◌≡◌, refl, true, false, Option, none, some, List, [], ◌∷◌, arith,
}
use systems_programming.Pong.Game.{
  LocalTime, Game, update_clock_time, bounce, update_position, restart_clock, choose_dot,
  next_digit, advance_clock, clock_round, sent_dot, admitted_round, round, start, play,
}
use systems_programming.Pong.Play.{DotsPost, play-DotsPost}

abbrev noon : LocalTime
noon = record { tm_hour = 12; tm_min = 0; tm_sec = 0 }

-- Two rounds with a thread to spare, one without, and two more.
abbrev rounds : List (ℕ × LocalTime)
rounds = (0, noon) ∷ (1, noon) ∷ (30, noon) ∷ (2, noon) ∷ (3, noon) ∷ []

abbrev dots : Option (List (ℕ × ℕ) × Game) → List (ℕ × ℕ)
dots none = []
dots (some r) = r.0

play-DotsPost_example :
    (sent : List (ℕ × ℕ)) × (g : Game) × (play false 3 2 rounds (start false 3 noon)
      ≡ some (sent, g))
    × DotsPost false 3 2 sent
play-DotsPost_example =
    play-DotsPost false 3 2 noon rounds (omega arith, omega arith) (omega arith, omega arith)
      (omega arith, omega arith, omega arith)
      (
        (omega arith, omega arith, omega arith),
        (
          (omega arith, omega arith, omega arith),
          (
            (omega arith, omega arith, omega arith),
            (
              (omega arith, omega arith, omega arith),
              ((omega arith, omega arith, omega arith), tt),
            ),
          ),
        ),
      )

rally_test :
    dots (play false 3 2 rounds (start false 3 noon)) ≡ (0, 0) ∷ (1, 1) ∷ (2, 0) ∷ (1, 1) ∷ []
unfolding play round admitted_round sent_dot update_position bounce start
rally_test = refl

-- On a board with one column the second dot is at column -1.
narrow_test :
    dots (play false 1 2 rounds (start false 1 noon))
    ≡ (0, 0) ∷ (2 ^ 32 - 1, 1) ∷ (0, 0) ∷ (2 ^ 32 - 1, 1) ∷ []
unfolding play round admitted_round sent_dot update_position bounce start
narrow_test = refl

-- The first points of a 1 are dark: 12:00:00 starts with no dot.
clock_test : dots (play true 30 20 rounds (start true 30 noon)) ≡ []
unfolding play round admitted_round sent_dot clock_round choose_dot restart_clock advance_clock
    next_digit start update_clock_time
clock_test = refl
