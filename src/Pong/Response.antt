-- ===== src/Pong/Response.antt =====
-- Assign6/pong61.c: the headers of a response, read in any pieces.
use systems_programming.Prelude.{
  ℕ, zero, suc, ◌<◌, ◌≤◌, leb, some, ◌≡◌, ◌⊎◌, ◌^◌, refl, ap, ◌∙◌, false, List, [], ◌∷◌, arith, inl,
  inr, Bool-cases, Option-cases, length, if◌then◌else◌,
}
use systems_programming.Pong.Http.{
  HttpState, HttpConnection, Scanner, in_headers, split_line, status_line, header_line, on_line,
  process_lines, http_process_response_headers, is_negative, status_exit, is_server_error,
  clear_response, ReadResult, Received, received, waiting, exits, asserts, overruns, read_while,
  http_receive_response_headers,
}
use systems_programming.Pong.Chunks.{parse, parse-receive, split_line-length}
use systems_programming.Pong.Receive.{AllData, Arrived, read_while-Arrived}

module _ (scan : Scanner) where
  on_line-eof :
      (s : HttpState) (line : List ℕ) (conn : HttpConnection)
      → (on_line scan s line conn).eof ≡ conn.eof
  unfolding on_line status_line header_line
  on_line-eof s [] conn = ground arith
  on_line-eof s (c ∷ cs) conn = ground arith

  process_lines-eof :
      (fuel : ℕ) (conn : HttpConnection) → (process_lines scan fuel conn).eof ≡ conn.eof
  unfolding process_lines
  process_lines-eof zero conn = refl
  process_lines-eof (suc fuel) conn = elim (Bool-cases (in_headers conn.state)) [
    | inr f ↦ rw (f, process_lines) refl
    | inl t ↦ elim (Option-cases (split_line conn.buf)) [
      | inl e ↦ rw (t, e, process_lines) refl
      | inr ((line, behind), e) ↦
          rw (t, e, process_lines)
            (process_lines-eof fuel (on_line scan conn.state line (record conn { buf = behind }))
              ∙ on_line-eof conn.state line (record conn { buf = behind }))
    ]
  ]

  process-open :
      (conn : HttpConnection)
      → conn.eof ≡ false
      → http_process_response_headers scan conn
        ≡ (parse scan conn, in_headers (parse scan conn).state)
  unfolding http_process_response_headers
  process-open conn e =
      ap
        (λ b.
          let ended : HttpConnection =
            if b
            then record (parse scan conn) { state = HttpState.http_broken }
            else parse scan conn in
          (ended, in_headers ended.state))
        (process_lines-eof (length conn.buf) conn ∙ e)

  on_line-shrinks :
      (s : HttpState) (line : List ℕ) (conn : HttpConnection)
      → (on_line scan s line conn).buf ≡ conn.buf
  unfolding on_line status_line header_line
  on_line-shrinks s [] conn = ground arith
  on_line-shrinks s (c ∷ cs) conn = ground arith

  process_lines-shrinks :
      (fuel : ℕ) (conn : HttpConnection)
      → length (process_lines scan fuel conn).buf ≤ length conn.buf
  unfolding process_lines
  process_lines-shrinks zero conn = omega arith
  process_lines-shrinks (suc fuel) conn = elim (Bool-cases (in_headers conn.state)) [
    | inr f ↦ rw (f, process_lines) (omega arith)
    | inl t ↦ elim (Option-cases (split_line conn.buf)) [
      | inl e ↦ rw (t, e, process_lines) (omega arith)
      | inr ((line, behind), e) ↦
          let next = on_line scan conn.state line (record conn { buf = behind }) in
          rw (t, e, process_lines)
            (omega (
              arith,
              process_lines-shrinks fuel next,
              ap length (on_line-shrinks conn.state line (record conn { buf = behind })),
              split_line-length conn.buf line behind e,
            ))
    ]
  ]

  -- What was read, parsed at once.
  abbrev pub Parsed : List ReadResult → HttpConnection → Received → Type 0
  Parsed rs conn out =
      Arrived (http_process_response_headers scan) (parse scan) (λ c. in_headers c.state) rs
        (clear_response conn) out

  -- What receiving the headers comes to: a status from 500 on ends the program; bit patterns from 2^31
  -- on are negative numbers.
  abbrev pub HeadersPost : List ReadResult → HttpConnection → Received → Type 0
  HeadersPost rs conn (received c rest) =
      Parsed rs conn (received c rest)
      × ((status : ℕ) → c.status_code ≡ some status → (status < 500) ⊎ (2 ^ 31 ≤ status))
  HeadersPost rs conn exits =
      (c : HttpConnection) × (rest : List ReadResult) × (status : ℕ) × Parsed rs conn
        (received c rest)
      × (c.status_code ≡ some status)
      × (500 ≤ status)
      × (status < 2 ^ 31)
  HeadersPost rs conn (waiting c) = Parsed rs conn (waiting c)
  HeadersPost rs conn asserts = ⊥
  HeadersPost rs conn overruns = Parsed rs conn overruns

  below :
      (other : ℕ) {status : ℕ}
      → status ≡ other
      → is_server_error status ≡ false
      → (other < 500) ⊎ (2 ^ 31 ≤ other)
  below other {status} e small = elim (Bool-cases (leb 500 status)) [
    | inl above ↦ inr (ground (arith, e, small, above))
    | inr less ↦ inl (ground (arith, e, less))
  ]

  HeadersPost-Parsed :
      (rs : List ReadResult) (conn : HttpConnection) (out : Received)
      → Parsed rs conn out
      → HeadersPost rs conn (status_exit out)
  unfolding status_exit
  HeadersPost-Parsed rs conn (received c rest) p = elim (Option-cases c.status_code) [
    | inl e ↦ rw (e, status_exit) (p, λ status f. absurd (ground (arith, e, f)))
    | inr (status, e) ↦ elim (Bool-cases (is_server_error status)) [
      | inl big ↦
          rw (e, big, status_exit) (c, rest, status, p, e, ground (arith, big), ground (arith, big))
      | inr small ↦
          rw (e, small, status_exit)
            (p, λ other f. below other {status = status} (ground (arith, e, f)) small)
    ]
  ]
  HeadersPost-Parsed rs conn exits p = absurd p
  HeadersPost-Parsed rs conn (waiting c) p = p
  HeadersPost-Parsed rs conn asserts p = p
  HeadersPost-Parsed rs conn overruns p = p

  -- After http_send_request on an open connection, and where read() brings data alone, however it is
  -- cut into pieces: http_receive_response_headers reads on until the bytes that arrived, parsed at
  -- once, complete the headers or break the connection, and its connection is that parse of them, with a
  -- status below 500, as an int, if it has one; with a status from 500 on the program exits; or more reads are
  -- awaited; or the buffer of BIGBUFSIZ bytes is overrun, and then the reads bring more than that.
  pub receive_headers-HeadersPost :
      (rs : List ReadResult) (conn : HttpConnection)
      → conn.eof ≡ false
      → AllData rs
      → HeadersPost rs conn (http_receive_response_headers scan rs (clear_response conn))
  unfolding clear_response http_receive_response_headers is_negative
  receive_headers-HeadersPost rs conn e d =
      HeadersPost-Parsed rs conn
        (read_while (http_process_response_headers scan) rs (clear_response conn))
        (read_while-Arrived (http_process_response_headers scan) (parse scan)
          (λ c. in_headers c.state) process-open (λ c. process_lines-eof (length c.buf) c)
          (λ c. process_lines-shrinks (length c.buf) c) (λ c bytes n. parse-receive scan c bytes) rs
          (clear_response conn) e d)
