-- ===== src/Pong/Play.antt =====
-- Assign6/pong61.c: the dots of a game from its start.
use systems_programming.Prelude.{ℕ, ◌≡◌, refl, Bool, true, false, some, List, arith, inl}
use systems_programming.Pong.Game.{LocalTime, Game, start, play, update_clock_time}
use systems_programming.Pong.Rounds.{Side, Rally, play-Rally}
use systems_programming.Pong.Clock.{All, IsTime, InClock, update_clock_time-lem}
use systems_programming.Pong.Dots.{Drawn, play-Drawn}

-- Without fun mode: a rally from the corner. In fun mode: dots in the rows of the clock.
abbrev pub DotsPost : Bool → ℕ → ℕ → List (ℕ × ℕ) → Type 0
DotsPost false width height dots = Rally width height 0 0 dots
DotsPost true width height dots = All Drawn dots

start-InClock : (width : ℕ) (now : LocalTime) → IsTime now → InClock (start true width now)
unfolding start update_clock_time
start-InClock width now it =
    let (digits, decimal) = update_clock_time-lem now (start true width now) it in
    record {
      digits = digits;
      decimal = decimal;
      digit_at = omega arith;
      point_at = omega arith;
      rows = refl;
    }

-- Any number of rounds, on a board with both sides from 2 on and at valid times of day: no round reads
-- an array out of bounds. Without fun mode every dot is on the board, from the corner on, each one
-- diagonal step from the dot before; in fun mode every dot is in rows 1 to 17.
pub play-DotsPost :
    (nocheck : Bool) (width height : ℕ) (now : LocalTime) (inputs : List (ℕ × LocalTime))
    → Side width
    → Side height
    → IsTime now
    → All (λ (i : ℕ × LocalTime). IsTime i.1) inputs
    → (dots : List (ℕ × ℕ)) × (g : Game) × (play nocheck width height inputs
          (start nocheck width now)
        ≡ some (dots, g))
      × DotsPost nocheck width height dots
unfolding start
play-DotsPost false width height now inputs w h it times =
    play-Rally width height inputs (start false width now) w h
      ((omega (arith, w.0), inl refl), (omega (arith, h.0), inl refl), refl)
play-DotsPost true width height now inputs w h it times =
    play-Drawn width height inputs (start true width now) times (start-InClock width now it)
