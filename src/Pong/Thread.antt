-- ===== src/Pong/Thread.antt =====
-- Assign6/pong61.c, pong_thread: the attempts to have a position accepted, and the delays between
-- them. A connection is named by its slot in the table; the other threads act on the table between the
-- turns of this one. Delays are in units of MINDELAY / 2, which is 5 ms; MAXDELAY has 25600.
use systems_programming.Prelude.{
  ℕ, zero, suc, ◌+◌, ◌*◌, ◌≡◌, ap, ◌∙◌, arith, false, Option, none, some, List, [], ◌∷◌, ◌==◌, leb,
  if◌then◌else◌,
}
use systems_programming.Pong.Http.{
  HttpConnection, http_request, Scanner, ReadResult, Received, received, waiting, exits, asserts,
  overruns, http_receive_response_headers,
}
use systems_programming.Pong.Pool.{Pool, reuse, noted, find_slot, set_slot, get_connection}
use systems_programming.Pong.Send.{
  WriteResult, Request, sent, send_blocked, send_exits, send_asserts, send_overruns,
  http_send_request,
}

-- What a turn meets: what the other threads did to the table, the memory that malloc gives a new
-- connection (`none` where socket() or connect() fails), and the answers of write() and read().
pub record Turn : Type 0 where
  pub others : Pool → Pool
  pub memory : Option HttpConnection
  pub writes : List WriteResult
  pub reads : List ReadResult

-- `none` is exit(1).
unfoldable pub http_connect : Option HttpConnection → Option HttpConnection
http_connect none = none
http_connect (some memory) = some (record memory { state = http_request; eof = false })

-- A call of get_connection, which may end the program.
pub data Taken : Type 0 where
  taken : ℕ → Pool → Taken
  no_connection : Taken
  no_server : Taken

unfoldable pub take_connection : Option HttpConnection → Pool → Taken
take_connection (some fresh) pool = elim (get_connection fresh pool) [
  | none ↦ no_connection
  | some (i, pool') ↦ taken i pool'
]
take_connection none pool = elim (find_slot pool 0 none) [
  | reuse i ↦ taken i pool
  | noted o ↦ elim o [ none ↦ no_connection | some i ↦ no_server ]
]

abbrev pub slot_at : Pool → ℕ → Option HttpConnection
slot_at [] i = none
slot_at (p ∷ ps) zero = p
slot_at (p ∷ ps) (suc i) = slot_at ps i

-- The request, and the headers of the response.
unfoldable pub exchange : Scanner → Request → Turn → HttpConnection → Received
exchange scan r t conn = elim (http_send_request r t.writes conn) [
  | sent c out ↦ http_receive_response_headers scan t.reads c
  | send_blocked ↦ waiting conn
  | send_exits ↦ exits
  | send_asserts ↦ asserts
  | send_overruns ↦ overruns
]

-- `for (int i = 0; i < MAXCONNECT; i++)`, from slot `i` on, for the connection of slot `conn`.
unfoldable pub drop_connection : Pool → ℕ → ℕ → Pool
drop_connection [] i conn = []
drop_connection (p ∷ ps) i conn = (if i == conn then none else p) ∷ drop_connection ps (i + 1) conn

-- Why there is another turn: get_connection returned NULL, or the status is -1, or another than 200.
pub data Reason : Type 0 where
  all_busy no_status other_status : Reason

-- How the loop ends: with a response of status 200 in a slot, and the reads that are left; in a call
-- that does not return; or with the program.
pub data Stop : Type 0 where
  answered : ℕ → HttpConnection → List ReadResult → Stop
  hangs : Stop
  program_exits : Stop
  overwrites : Stop
  assertion_fails : Stop

-- What a turn comes to, with the table behind it.
pub data Outcome : Type 0 where
  retries : Reason → Pool → Outcome
  stops : Stop → Pool → Outcome

-- Behind http_receive_response_headers.
unfoldable pub on_status : ℕ → Pool → Option ℕ → HttpConnection → List ReadResult → Outcome
on_status i pool none c rest = retries no_status (drop_connection pool 0 i)
on_status i pool (some status) c rest =
    if status == 200 then stops (answered i c rest) pool else retries other_status pool

unfoldable pub on_received : ℕ → Pool → Received → Outcome
on_received i pool (received c rest) = on_status i (set_slot pool i c) c.status_code c rest
on_received i pool (waiting c) = stops hangs (set_slot pool i c)
on_received i pool exits = stops program_exits pool
on_received i pool asserts = stops assertion_fails pool
on_received i pool overruns = stops overwrites pool

-- A call of get_connection, and what follows up to the next.
unfoldable pub turn : Scanner → Request → Turn → Pool → Outcome
turn scan r t pool =
    let shared = t.others pool in
    elim (take_connection (http_connect t.memory) shared) [
      | no_connection ↦ retries all_busy shared
      | no_server ↦ stops program_exits shared
      | taken i pool' ↦ elim (slot_at pool' i) [
        | none ↦ stops assertion_fails pool'
        | some conn ↦ on_received i pool' (exchange scan r t conn)
      ]
    ]

-- delay >= MAXDELAY
unfoldable pub next_delay : ℕ → ℕ
next_delay delay = if leb 25600 delay then 25600 else 2 * delay

-- How long the thread waits before the next turn: usleep(100000), the delay, or not at all.
pub data Wait : Type 0 where
  nap : Wait
  back_off : ℕ → Wait
  at_once : Wait

-- The delay behind a turn, and the wait.
unfoldable pub wait_for : Reason → ℕ → ℕ × Wait
wait_for all_busy delay = (delay, nap)
wait_for no_status delay = (next_delay delay, back_off (next_delay delay))
wait_for other_status delay = (delay, at_once)

-- The waits of the thread, and its end; `none` where the turns run out.
pub record Tried : Type 0 where
  pub waits : List Wait
  pub stop : Option Stop
  pub pool : Pool

abbrev pub wait_before : Wait → Tried → Tried
wait_before w t = record t { waits = w ∷ t.waits }

-- `while (connstat != 200)`
unfoldable pub try_all : Scanner → Request → List Turn → ℕ → Pool → Tried
try_all scan r [] delay pool = record { waits = []; stop = none; pool = pool }
try_all scan r (t ∷ ts) delay pool = elim (turn scan r t pool) [
  | stops s pool' ↦ record { waits = []; stop = some s; pool = pool' }
  | retries reason pool' ↦
      let (delay', w) = wait_for reason delay in wait_before w (try_all scan r ts delay' pool')
]

-- Behind the loop over the table the connection is in it no more, and the others stay.
pub drop_connection-lem :
    (pool : Pool) (k conn j : ℕ)
    → slot_at (drop_connection pool k conn) j ≡ (if k + j == conn then none else slot_at pool j)
unfolding drop_connection
drop_connection-lem [] k conn j = ground arith
drop_connection-lem (p ∷ ps) k conn zero = ground arith
drop_connection-lem (p ∷ ps) k conn (suc j) =
    drop_connection-lem ps (k + 1) conn j
    ∙ ap (λ x. if x == conn then none else slot_at ps j) (omega arith)
