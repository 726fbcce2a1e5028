-- ===== src/Pong/ThreadTests.antt =====
-- Assign6/pong61.c: requests and threads, and the theorems at them.
use systems_programming.Prelude.{◌≡◌, refl, none, some, List, [], ◌∷◌}
use systems_programming.Pong.Http.{
  http_initial, got, http_receive_response_headers, is_negative, status_exit, read_while,
  http_process_response_headers, process_lines, in_headers, split_line, is_crlf, on_line,
  status_line, header_line, after_word, clear_response,
}
use systems_programming.Pong.Pool.{find_slot, get_connection}
use systems_programming.Pong.Send.{
  WriteResult, wrote, interrupted, Request, sent, SentPost, http_send_request, request_text,
  write_request, after_write, http_send_request-SentPost,
}
use systems_programming.Pong.Thread.{
  Turn, nap, back_off, http_connect, take_connection, exchange, drop_connection, on_status,
  on_received, turn, next_delay, wait_for, try_all,
}
use systems_programming.Pong.Tests.{scanner, opened}

abbrev ask : Request
ask = record {
  user = b'm' ∷ b'e' ∷ [];
  uri = b'm' ∷ b'o' ∷ b'v' ∷ b'e' ∷ [];
  host = b'h' ∷ [];
  bufsiz = 8192;
}

-- The request has 59 bytes.
abbrev in_two : List WriteResult
in_two = wrote 20 ∷ interrupted ∷ wrote 39 ∷ []

http_send_request-SentPost_example :
    SentPost ask in_two opened (http_send_request ask in_two opened)
http_send_request-SentPost_example = http_send_request-SentPost ask in_two opened

sends_all : http_send_request ask in_two opened ≡ sent (clear_response opened) (request_text ask)
unfolding http_send_request request_text write_request after_write
sends_all = refl

-- A table of one slot: the connection of another thread is in it; then a response that breaks off; and
-- then one with status 200.
abbrev busy : Turn
busy = record {
  others = λ p. some (record opened { state = http_initial }) ∷ [];
  memory = some opened;
  writes = [];
  reads = [];
}

abbrev breaks_off : Turn
breaks_off = record {
  others = λ p. none ∷ [];
  memory = some opened;
  writes = in_two;
  reads = got [] ∷ [];
}

abbrev accepts : Turn
accepts = record {
  others = λ p. p;
  memory = some opened;
  writes = in_two;
  reads =
      got (
        b'H' ∷ b'T' ∷ b'T' ∷ b'P' ∷ b'/' ∷ b'1' ∷ b'.' ∷ b'1' ∷ b' ' ∷ b'2' ∷ b'0' ∷ b'0' ∷ 13 ∷ 10
        ∷ 13 ∷ 10 ∷ [])
      ∷ [];
}

abbrev turns : List Turn
turns = busy ∷ breaks_off ∷ breaks_off ∷ accepts ∷ []

waits_test : (try_all scanner ask turns 1 (none ∷ [])).waits ≡ nap ∷ back_off 2 ∷ back_off 4 ∷ []
unfolding try_all turn http_connect take_connection find_slot get_connection exchange
    http_send_request write_request after_write request_text drop_connection on_status on_received
    next_delay wait_for http_receive_response_headers is_negative status_exit read_while
    http_process_response_headers process_lines in_headers split_line is_crlf on_line status_line
    header_line after_word clear_response
waits_test = refl
