-- ===== src/Pong/Tests.antt =====
-- Assign6/pong61.c: responses and tables, and the theorems at them.
use systems_programming.Prelude.{
  ℕ, zero, suc, ◌+◌, ◌-◌, ◌*◌, ◌≡◌, refl, true, false, none, some, List, [], ◌∷◌, ◌==◌, length,
  if◌then◌else◌,
}
use systems_programming.Pong.Http.{
  http_request, http_initial, http_body, http_done, HttpConnection, Scanner, in_headers, split_line,
  is_crlf, after_word, status_line, header_line, on_line, process_lines,
  http_process_response_headers, is_negative, status_exit, clear_response, ReadResult, got, retry,
  received, read_while, http_receive_response_headers, http_receive_response_body,
}
use systems_programming.Pong.Chunks.{receive, parse, parse-receive}
use systems_programming.Pong.Body.{BodyPost, receive_body-BodyPost}
use systems_programming.Pong.Response.{HeadersPost, receive_headers-HeadersPost}
use systems_programming.Pong.Pool.{Pool, GetPost, get_connection, get_connection-GetPost, find_slot}

-- A decimal number from the bytes of its digits.
abbrev digits : ℕ → List ℕ → ℕ
digits n [] = n
digits n (c ∷ cs) = digits (n * 10 + (c - 48)) cs

-- The status is the number from byte 9 on.
abbrev drop_bytes : ℕ → List ℕ → List ℕ
drop_bytes zero cs = cs
drop_bytes (suc n) [] = []
drop_bytes (suc n) (c ∷ cs) = drop_bytes n cs

abbrev pub scanner : Scanner
scanner = record {
  scan_status = λ line. if length line == 12 then some (digits 0 (drop_bytes 9 line)) else none;
  strtoul = digits 0;
}

abbrev pub opened : HttpConnection
opened = record {
  state = http_request;
  status_code = none;
  content_length = 0;
  has_content_length = false;
  eof = false;
  buf = [];
}

-- "HTTP/1.1 200\r", "\nContent-Length: 2\r\n\r" and "\nok"
abbrev pieces : List ReadResult
pieces =
    got
      (b'H' ∷ b'T' ∷ b'T' ∷ b'P' ∷ b'/' ∷ b'1' ∷ b'.' ∷ b'1' ∷ b' ' ∷ b'2' ∷ b'0' ∷ b'0' ∷ 13 ∷ [])
    ∷ retry
    ∷ got (
        10 ∷ b'C' ∷ b'o' ∷ b'n' ∷ b't' ∷ b'e' ∷ b'n' ∷ b't' ∷ b'-' ∷ b'L' ∷ b'e' ∷ b'n' ∷ b'g'
        ∷ b't' ∷ b'h' ∷ b':' ∷ b' ' ∷ b'2' ∷ 13 ∷ 10 ∷ 13 ∷ [])
    ∷ got (10 ∷ b'o' ∷ b'k' ∷ [])
    ∷ []

abbrev answered : HttpConnection
answered = record {
  state = http_body;
  status_code = some 200;
  content_length = 2;
  has_content_length = true;
  eof = false;
  buf = b'o' ∷ b'k' ∷ [];
}

receive_pieces :
    http_receive_response_headers scanner pieces (clear_response opened) ≡ received answered []
unfolding clear_response http_receive_response_headers is_negative status_exit read_while
    http_process_response_headers process_lines in_headers split_line is_crlf on_line status_line
    header_line after_word
receive_pieces = refl

receive_headers-HeadersPost_example :
    HeadersPost scanner pieces opened
      (http_receive_response_headers scanner pieces (clear_response opened))
receive_headers-HeadersPost_example = receive_headers-HeadersPost scanner pieces opened refl tt

abbrev cut : HttpConnection
cut = record {
  state = http_initial;
  status_code = none;
  content_length = 0;
  has_content_length = false;
  eof = false;
  buf = b'H' ∷ b'T' ∷ b'T' ∷ b'P' ∷ b'/' ∷ b'1' ∷ b'.' ∷ b'1' ∷ b' ' ∷ b'2' ∷ b'0' ∷ b'0' ∷ 13 ∷ [];
}

parse-receive_example :
    parse scanner (receive (parse scanner cut) (10 ∷ b'C' ∷ []))
    ≡ parse scanner (receive cut (10 ∷ b'C' ∷ []))
parse-receive_example = parse-receive scanner cut (10 ∷ b'C' ∷ [])

abbrev half : HttpConnection
half = record answered { buf = b'o' ∷ [] }

receive_body-BodyPost_example :
    BodyPost (got (b'k' ∷ []) ∷ []) half (http_receive_response_body (got (b'k' ∷ []) ∷ []) half)
receive_body-BodyPost_example = receive_body-BodyPost (got (b'k' ∷ []) ∷ []) half refl refl tt

abbrev pool : Pool
pool = some answered ∷ none ∷ some (record answered { state = http_done }) ∷ none ∷ []

get_connection-GetPost_example : GetPost opened pool (get_connection opened pool)
get_connection-GetPost_example = get_connection-GetPost opened pool

reuse_third : get_connection opened pool ≡ some (2, pool)
unfolding get_connection find_slot
reuse_third = refl
