-- ===== src/Pong/Finish.antt =====
-- Assign6/pong61.c: set_stop_delay, reset_stop_delay, and pong_thread as a whole. The memory that the
-- threads share is the table of connections, `stopdelay` and `threadcnt`.
use systems_programming.Prelude.{
  ℕ, ◌+◌, ◌-◌, ◌*◌, ◌/◌, ◌%◌, ◌^◌, ◌<◌, ◌≡◌, Option, none, some, List, ltb, if◌then◌else◌, arith,
}
use systems_programming.Pong.Http.{
  Scanner, Received, received, waiting, exits, asserts, overruns, http_receive_response_body,
}
use systems_programming.Pong.Pool.{Pool, set_slot}
use systems_programming.Pong.Send.{Request}
use systems_programming.Pong.Thread.{
  Turn, Stop, answered, hangs, program_exits, assertion_fails, overwrites, try_all,
}

-- What gettimeofday gives.
pub record Timeval : Type 0 where
  pub tv_sec : ℕ
  pub tv_usec : ℕ

-- `struct timespec`, as 64-bit words.
pub record Timespec : Type 0 where
  pub tv_sec : ℕ
  pub tv_nsec : ℕ

-- The quotient and the remainder of a signed 32-bit word by 1000000, as 64-bit words.
abbrev pub seconds_of : ℕ → ℕ
seconds_of tot_usec =
    if ltb tot_usec (2 ^ 31)
    then tot_usec / 1000000
    else (2 ^ 64 - (2 ^ 32 - tot_usec) / 1000000) % 2 ^ 64

abbrev pub microseconds_of : ℕ → ℕ
microseconds_of tot_usec =
    if ltb tot_usec (2 ^ 31)
    then tot_usec % 1000000
    else (2 ^ 64 - (2 ^ 32 - tot_usec) % 1000000) % 2 ^ 64

unfoldable pub set_stop_delay : ℕ → Timeval → Timespec
set_stop_delay delay_msec now =
    let delay_usec = delay_msec * 1000 % 2 ^ 32 in
    let tot_usec = (now.tv_usec + delay_usec) % 2 ^ 32 in
    record {
      tv_sec = (now.tv_sec + seconds_of tot_usec) % 2 ^ 64;
      tv_nsec = microseconds_of tot_usec * 1000 % 2 ^ 64;
    }

unfoldable pub reset_stop_delay : Timespec
reset_stop_delay = record { tv_sec = 0; tv_nsec = 0 }

pub record Shared : Type 0 where
  pub pool : Pool
  pub stopdelay : Timespec
  pub threadcnt : ℕ

-- The number that strtod reads: below 0, or above with its whole part, or 0.
pub data Reading : Type 0 where
  below zero_read : Reading
  above : ℕ → Reading

pub data Finished : Type 0 where
  finishes : Shared → Finished
  never_returns : Finished
  ends_program : Finished
  corrupts : Finished

-- The result, and the last lines of the thread.
unfoldable pub on_result : Timeval → Reading → Shared → Finished
on_result now below s = ends_program
on_result now zero_read s =
    finishes (record s { threadcnt = (s.threadcnt + (2 ^ 32 - 1)) % 2 ^ 32 })
on_result now (above result) s = finishes (record s {
  stopdelay = set_stop_delay result now;
  threadcnt = (s.threadcnt + (2 ^ 32 - 1)) % 2 ^ 32;
})

-- Behind http_receive_response_body.
unfoldable pub on_body : (List ℕ → Reading) → Timeval → ℕ → Received → Shared → Finished
on_body strtod now i (received c rest) s =
    on_result now (strtod c.buf) (record s { pool = set_slot s.pool i c })
on_body strtod now i (waiting c) s = never_returns
on_body strtod now i exits s = ends_program
on_body strtod now i asserts s = ends_program
on_body strtod now i overruns s = corrupts

-- Behind the loop of attempts.
unfoldable pub after_tries : (List ℕ → Reading) → Timeval → Option Stop → Shared → Finished
after_tries strtod now none s = never_returns
after_tries strtod now (some (answered i c rest)) s =
    on_body strtod now i (http_receive_response_body rest c) s
after_tries strtod now (some hangs) s = never_returns
after_tries strtod now (some program_exits) s = ends_program
after_tries strtod now (some assertion_fails) s = ends_program
after_tries strtod now (some overwrites) s = corrupts

-- MINDELAY / 2 is one unit of the delay.
unfoldable pub pong_thread :
    Scanner → (List ℕ → Reading) → Request → List Turn → Timeval → Shared → Finished
pong_thread scan strtod r turns now s =
    let tried = try_all scan r turns 1 s.pool in
    after_tries strtod now tried.stop (record s { pool = tried.pool })

-- A delay that fits an int in microseconds: the time that is set is that much later than now, and its
-- nanoseconds are less than a second.
pub set_stop_delay-later :
    (delay_msec : ℕ) (now : Timeval)
    → now.tv_usec < 1000000
    → now.tv_sec < 2 ^ 62
    → now.tv_usec + delay_msec * 1000 < 2 ^ 31
    → let d = set_stop_delay delay_msec now in
      (d.tv_nsec < 1000000000)
      × (d.tv_sec * 1000000 + d.tv_nsec / 1000
          ≡ now.tv_sec * 1000000 + now.tv_usec + delay_msec * 1000)
unfolding set_stop_delay
set_stop_delay-later delay_msec now usec sec fits = (ground arith, ground arith)
