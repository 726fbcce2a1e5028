-- ===== src/Pong/Http.antt =====
-- Assign6/pong61.c: a connection, http_send_request's reset, the two functions that parse a response,
-- and the two that read it. sscanf of the status line and strtoul are the C library's.
use systems_programming.Prelude.{
  ℕ, zero, suc, ◌+◌, ◌-◌, ◌^◌, ltb, Bool, true, false, ◌&&◌, ◌||◌, Option, none, some, List, [],
  ◌∷◌, ◌++◌, ◌==◌, leb, if◌then◌else◌, length,
}

-- The `http_connection::state` constants.
pub data HttpState : Type 0 where
  http_request http_initial http_headers http_body http_done http_closed http_broken : HttpState

-- `status_code` is `none` for -1, and else the bit pattern of an int; `buf` has the first `len` bytes of the buffer.
pub record HttpConnection : Type 0 where
  pub state : HttpState
  pub status_code : Option ℕ
  pub content_length : ℕ
  pub has_content_length : Bool
  pub eof : Bool
  pub buf : List ℕ

-- What the C library reads in a line: the bit pattern of the status of "HTTP/1.%d %d" where both numbers
-- are there, and
-- the number that strtoul finds.
pub record Scanner : Type 0 where
  pub scan_status : List ℕ → Option ℕ
  pub strtoul : List ℕ → ℕ

-- The lines of http_send_request under `// clear response information`.
unfoldable pub clear_response : HttpConnection → HttpConnection
clear_response conn = record conn {
  state = http_initial;
  status_code = none;
  content_length = 0;
  has_content_length = false;
  buf = [];
}

unfoldable pub in_headers : HttpState → Bool
in_headers http_initial = true
in_headers http_headers = true
in_headers _ = false

abbrev pub is_initial : HttpState → Bool
is_initial http_initial = true
is_initial _ = false

unfoldable pub is_crlf : ℕ → ℕ → Bool
is_crlf c d = c == 13 && d == 10

-- One step of the search: the line ends here, or its end lies further on.
abbrev pub keep_line : Bool → ℕ → List ℕ → Option (List ℕ × List ℕ) → Option (List ℕ × List ℕ)
keep_line true c cs rest = some ([], cs)
keep_line false c cs none = none
keep_line false c cs (some (line, behind)) = some (c ∷ line, behind)

-- The bytes up to the first "\r\n", and those behind it.
unfoldable pub split_line : List ℕ → Option (List ℕ × List ℕ)
split_line [] = none
split_line (c ∷ []) = none
split_line (c ∷ d ∷ cs) = keep_line (is_crlf c d) c cs (split_line (d ∷ cs))

-- strncmp(line, word, strlen(word)) == 0 gives what follows the word.
unfoldable pub after_word : List ℕ → List ℕ → Option (List ℕ)
after_word [] line = some line
after_word (w ∷ ws) [] = none
after_word (w ∷ ws) (c ∷ cs) = let rest = after_word ws cs in if w == c then rest else none

-- "Content-Length: "
abbrev pub content_length_word : List ℕ
content_length_word =
    b'C' ∷ b'o' ∷ b'n' ∷ b't' ∷ b'e' ∷ b'n' ∷ b't' ∷ b'-' ∷ b'L' ∷ b'e' ∷ b'n' ∷ b'g' ∷ b't' ∷ b'h'
    ∷ b':' ∷ b' ' ∷ []

-- The status that sscanf stores.
abbrev pub stored_status : ℕ → Option ℕ
stored_status pattern = if pattern == 2 ^ 32 - 1 then none else some pattern

module _ (scan : Scanner) where
  unfoldable pub status_line : List ℕ → HttpConnection → HttpConnection
  status_line line conn = elim (scan.scan_status line) [
    | none ↦ record conn { state = http_broken }
    | some pattern ↦ record conn { state = http_headers; status_code = stored_status pattern }
  ]

  unfoldable pub header_line : List ℕ → HttpConnection → HttpConnection
  header_line [] conn = record conn { state = http_body }
  header_line (c ∷ cs) conn = elim (after_word content_length_word (c ∷ cs)) [
    | none ↦ conn
    | some value ↦ record conn { content_length = scan.strtoul value; has_content_length = true }
  ]

  unfoldable pub on_line : HttpState → List ℕ → HttpConnection → HttpConnection
  on_line s line conn = if is_initial s then status_line line conn else header_line line conn

  -- The loop, a line at a time; a line takes two bytes or more, so the length of the buffer is fuel.
  unfoldable pub process_lines : ℕ → HttpConnection → HttpConnection
  process_lines zero conn = conn
  process_lines (suc fuel) conn =
      if in_headers conn.state
      then elim (split_line conn.buf) [
        | none ↦ conn
        | some (line, behind) ↦
            process_lines fuel (on_line conn.state line (record conn { buf = behind }))
      ]
      else conn

  -- The connection, and whether more header data is to be read.
  unfoldable pub http_process_response_headers : HttpConnection → HttpConnection × Bool
  http_process_response_headers conn =
      let parsed = process_lines (length conn.buf) conn in
      let ended = if parsed.eof then record parsed { state = http_broken } else parsed in
      (ended, in_headers ended.state)

abbrev pub is_body : HttpState → Bool
is_body http_body = true
is_body _ = false

-- The second test: the end of the connection.
unfoldable pub at_eof : HttpState → HttpState
at_eof http_done = http_closed
at_eof _ = http_broken

unfoldable pub body_complete : HttpConnection → Bool
body_complete conn =
    is_body conn.state
    && (conn.has_content_length || conn.eof)
    && leb conn.content_length (length conn.buf)

unfoldable pub http_check_response_body : HttpConnection → HttpConnection × Bool
http_check_response_body conn =
    let s = if body_complete conn then http_done else conn.state in
    let s' = if conn.eof then at_eof s else s in (record conn { state = s' }, is_body s')

-- What read() answers: bytes, or none of them at the end of the connection; EINTR or EAGAIN; or
-- another error.
pub data ReadResult : Type 0 where
  got : List ℕ → ReadResult
  retry : ReadResult
  failed : ReadResult

-- BIGBUFSIZ
abbrev pub bigbufsiz : ℕ
bigbufsiz = 25000

-- How receiving ends: with the reads that are left, without a read to go on, at exit(1), at a failed
-- assertion, or with bytes written past the buffer.
pub data Received : Type 0 where
  received : HttpConnection → List ReadResult → Received
  waiting : HttpConnection → Received
  exits : Received
  asserts : Received
  overruns : Received

abbrev pub after_read : ReadResult → HttpConnection → (HttpConnection → Received) → Received
after_read (got []) conn next = next (record conn { eof = true })
after_read (got (b ∷ bs)) conn next =
    if leb (length conn.buf + length (b ∷ bs)) bigbufsiz
    then next (record conn { buf = conn.buf ++ b ∷ bs })
    else overruns
after_read retry conn next = next conn
after_read failed conn next = exits

-- `while (check(conn))` over the reads.
unfoldable pub read_while :
    (HttpConnection → HttpConnection × Bool) → List ReadResult → HttpConnection → Received
read_while check [] conn = let (c, more) = check conn in if more then waiting c else received c []
read_while check (r ∷ rs) conn =
    let (c, more) = check conn in
    let go = after_read r c (λ c'. read_while check rs c') in
    if more then go else received c (r ∷ rs)

unfoldable pub is_negative : HttpState → Bool
is_negative http_done = true
is_negative http_closed = true
is_negative http_broken = true
is_negative _ = false

-- conn->status_code >= 500, of an int
abbrev pub is_server_error : ℕ → Bool
is_server_error status = leb 500 status && ltb status (2 ^ 31)

unfoldable pub status_exit : Received → Received
status_exit (received conn rs) = elim conn.status_code [
  | none ↦ received conn rs
  | some status ↦ if is_server_error status then exits else received conn rs
]
status_exit out = out

unfoldable pub http_receive_response_headers : Scanner → List ReadResult → HttpConnection → Received
http_receive_response_headers scan rs conn = elim conn.state [
  | http_request ↦ asserts
  | _ ↦
      if is_negative conn.state
      then received conn rs
      else status_exit (read_while (http_process_response_headers scan) rs conn)
]

-- conn->buf[conn->len] = 0
abbrev pub null_terminate : Received → Received
null_terminate (received conn rs) =
    if ltb (length conn.buf) bigbufsiz then received conn rs else overruns
null_terminate out = out

unfoldable pub http_receive_response_body : List ReadResult → HttpConnection → Received
http_receive_response_body rs conn =
    if is_negative conn.state
    then received conn rs
    else if is_body conn.state
    then null_terminate (read_while http_check_response_body rs conn)
    else asserts
