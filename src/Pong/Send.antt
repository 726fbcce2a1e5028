-- ===== src/Pong/Send.antt =====
-- Assign6/pong61.c, http_send_request: the request, and the loop that writes it, over what write()
-- answers. The buffer from `pos` on is the list of the bytes that are still to be written.
use systems_programming.Prelude.{
  ℕ, zero, suc, ltb, ◌≢◌, none, ◌+◌, ◌≤◌, ◌<◌, length, ◌≡◌, refl, sym, ap, ◌∙◌, Bool, true, false,
  List, [], ◌∷◌, ◌++◌, ◌==◌, if◌then◌else◌, arith, Bool-cases, inl, inr,
}
use mathlib.Core.List.{append_assoc, append-nil}
use systems_programming.Pong.Http.{
  HttpState, HttpConnection, http_initial, http_request, http_done, clear_response,
}

-- What write() answers: a number of bytes; EINTR or EAGAIN; or another error.
pub data WriteResult : Type 0 where
  wrote : ℕ → WriteResult
  interrupted : WriteResult
  write_fails : WriteResult

-- How the loop ends: with what the socket was given, what was not written, and the answers that are
-- left; without an answer to go on; or at exit(1).
pub data Written : Type 0 where
  written : List ℕ → List ℕ → List WriteResult → Written
  blocked : Written
  write_exits : Written

abbrev pub split_at : ℕ → List ℕ → List ℕ × List ℕ
split_at zero bytes = ([], bytes)
split_at (suc n) [] = ([], [])
split_at (suc n) (b ∷ bytes) = let (front, behind) = split_at n bytes in (b ∷ front, behind)

-- `while (pos < reqsz)`
unfoldable pub write_request : List WriteResult → List ℕ → List ℕ → Written
write_request answers out [] = written out [] answers
write_request [] out (b ∷ todo) = blocked
write_request (wrote nw ∷ answers) out (b ∷ todo) =
    let (front, behind) = split_at nw (b ∷ todo) in
    let rest = write_request answers (out ++ front) behind in
    if nw == 0 then written out (b ∷ todo) answers else rest
write_request (interrupted ∷ answers) out (b ∷ todo) = write_request answers out (b ∷ todo)
write_request (write_fails ∷ answers) out (b ∷ todo) = write_exits

-- pong_user, uri and pong_host, and the BUFSIZ of the C library
pub record Request : Type 0 where
  pub user : List ℕ
  pub uri : List ℕ
  pub host : List ℕ
  pub bufsiz : ℕ

abbrev crlf : List ℕ
crlf = 13 ∷ 10 ∷ []

-- "POST /%s/%s HTTP/1.0\r\nHost: %s\r\nConnection: keep-alive\r\n\r\n"
unfoldable pub request_text : Request → List ℕ
request_text r =
    (b'P' ∷ b'O' ∷ b'S' ∷ b'T' ∷ b' ' ∷ b'/' ∷ [])
    ++ r.user
    ++ (b'/' ∷ [])
    ++ r.uri
    ++ (b' ' ∷ b'H' ∷ b'T' ∷ b'T' ∷ b'P' ∷ b'/' ∷ b'1' ∷ b'.' ∷ b'0' ∷ [])
    ++ crlf
    ++ (b'H' ∷ b'o' ∷ b's' ∷ b't' ∷ b':' ∷ b' ' ∷ [])
    ++ r.host
    ++ crlf
    ++ (b'C' ∷ b'o' ∷ b'n' ∷ b'n' ∷ b'e' ∷ b'c' ∷ b't' ∷ b'i' ∷ b'o' ∷ b'n' ∷ b':' ∷ b' ' ∷ b'k'
        ∷ b'e' ∷ b'e' ∷ b'p' ∷ b'-' ∷ b'a' ∷ b'l' ∷ b'i' ∷ b'v' ∷ b'e' ∷ [])
    ++ crlf
    ++ crlf

-- How sending ends: with the connection, and what the socket was given; without an answer to go on; at
-- exit(1); at a failed assertion; or with the request and its null byte past the end of `reqbuf`.
pub data Sent : Type 0 where
  sent : HttpConnection → List ℕ → Sent
  send_blocked : Sent
  send_exits : Sent
  send_asserts : Sent
  send_overruns : Sent

abbrev pub takes_request : HttpState → Bool
takes_request http_request = true
takes_request http_done = true
takes_request _ = false

-- `pos != reqsz`, and the end of the function.
unfoldable pub after_write : HttpConnection → Written → Sent
after_write conn (written out [] answers) = sent (clear_response conn) out
after_write conn (written out (b ∷ todo) answers) = send_exits
after_write conn blocked = send_blocked
after_write conn write_exits = send_exits

unfoldable pub http_send_request : Request → List WriteResult → HttpConnection → Sent
http_send_request r answers conn =
    if takes_request conn.state
    then if ltb (length (request_text r)) r.bufsiz
      then after_write conn (write_request answers [] (request_text r))
      else send_overruns
    else send_asserts

split_at-append : (n : ℕ) (bytes : List ℕ) → (split_at n bytes).0 ++ (split_at n bytes).1 ≡ bytes
split_at-append zero bytes = refl
split_at-append (suc n) [] = refl
split_at-append (suc n) (b ∷ bytes) = ap (λ r. b ∷ r) (split_at-append n bytes)

-- The answer ends the program: an error, or a connection that takes no more.
abbrev pub Refuses : List WriteResult → Type 0
Refuses [] = ⊥
Refuses (wrote zero ∷ answers) = Unit {0}
Refuses (wrote (suc n) ∷ answers) = Refuses answers
Refuses (interrupted ∷ answers) = Refuses answers
Refuses (write_fails ∷ answers) = Unit {0}

-- The bytes that a sequence of answers says were written.
abbrev pub granted : List WriteResult → ℕ
granted [] = 0
granted (wrote n ∷ answers) = n + granted answers
granted (interrupted ∷ answers) = granted answers
granted (write_fails ∷ answers) = granted answers

length-split_at :
    (n : ℕ) (bytes : List ℕ)
    → 0 < length (split_at n bytes).1
    → n + length (split_at n bytes).1 ≤ length bytes
length-split_at zero bytes h = omega arith
length-split_at (suc n) [] h = absurd (omega (arith, h))
length-split_at (suc n) (b ∷ bytes) h = omega (arith, length-split_at n bytes h)

-- What the loop comes to with `todo` to be written, where `all` is the whole request.
abbrev WrittenPost : List ℕ → List ℕ → List WriteResult → Written → Type 0
WrittenPost all todo answers (written out [] rest) = out ≡ all
WrittenPost all todo answers (written out (b ∷ left) rest) = Refuses answers
WrittenPost all todo answers blocked = granted answers < length todo
WrittenPost all todo answers write_exits = Refuses answers

-- A write of some bytes, with what the rounds behind it come to.
WrittenPost-wrote :
    (n : ℕ) (answers : List WriteResult) (all todo behind : List ℕ) (w : Written)
    → (0 < length behind → suc n + length behind ≤ length todo)
    → WrittenPost all behind answers w
    → WrittenPost all todo (wrote (suc n) ∷ answers) w
WrittenPost-wrote n answers all todo behind (written out [] rest) le h = h
WrittenPost-wrote n answers all todo behind (written out (b ∷ left) rest) le h = h
WrittenPost-wrote n answers all todo behind blocked le h = omega (arith, le (omega (arith, h)), h)
WrittenPost-wrote n answers all todo behind write_exits le h = h

-- An interrupted write.
WrittenPost-interrupted :
    (answers : List WriteResult) (all todo : List ℕ) (w : Written)
    → WrittenPost all todo answers w
    → WrittenPost all todo (interrupted ∷ answers) w
WrittenPost-interrupted answers all todo (written out [] rest) h = h
WrittenPost-interrupted answers all todo (written out (b ∷ left) rest) h = h
WrittenPost-interrupted answers all todo blocked h = h
WrittenPost-interrupted answers all todo write_exits h = h

write_request-WrittenPost :
    (answers : List WriteResult) (all out todo : List ℕ)
    → out ++ todo ≡ all
    → WrittenPost all todo answers (write_request answers out todo)
unfolding write_request
write_request-WrittenPost answers all out [] e = sym (append-nil out) ∙ e
write_request-WrittenPost [] all out (b ∷ todo) e = omega arith
write_request-WrittenPost (wrote zero ∷ answers) all out (b ∷ todo) e = tt
write_request-WrittenPost (wrote (suc n) ∷ answers) all out (b ∷ todo) e =
    let (front, behind) = split_at (suc n) (b ∷ todo) in
    let some_bytes : (suc n == 0) ≡ false = ground arith in
    rw (some_bytes, write_request)
      (WrittenPost-wrote n answers all (b ∷ todo) behind
        (write_request answers (out ++ front) behind) (length-split_at (suc n) (b ∷ todo))
        (write_request-WrittenPost answers all (out ++ front) behind (
          append_assoc out front behind
          ∙ ap (λ r. out ++ r) (split_at-append (suc n) (b ∷ todo))
          ∙ e)))
write_request-WrittenPost (interrupted ∷ answers) all out (b ∷ todo) e =
    WrittenPost-interrupted answers all (b ∷ todo) (write_request answers out (b ∷ todo))
      (write_request-WrittenPost answers all out (b ∷ todo) e)
write_request-WrittenPost (write_fails ∷ answers) all out (b ∷ todo) e = tt

-- What sending comes to.
abbrev pub SentPost : Request → List WriteResult → HttpConnection → Sent → Type 0
SentPost r answers conn (sent c out) =
    (c ≡ record conn {
      state = http_initial;
      status_code = none;
      content_length = 0;
      has_content_length = false;
      buf = [];
    })
    × (out ≡ request_text r)
    × (length (request_text r) < r.bufsiz)
SentPost r answers conn send_blocked = granted answers < length (request_text r)
SentPost r answers conn send_exits = Refuses answers
SentPost r answers conn send_asserts = (conn.state ≢ http_request) × (conn.state ≢ http_done)
SentPost r answers conn send_overruns = r.bufsiz ≤ length (request_text r)

takes_request-none :
    (s : HttpState) → takes_request s ≡ false → (s ≢ http_request) × (s ≢ http_done)
takes_request-none s e =
    (λ at. ground (arith, e, ap takes_request at), λ at. ground (arith, e, ap takes_request at))

after_write-SentPost :
    (r : Request) (answers : List WriteResult) (conn : HttpConnection) (w : Written)
    → length (request_text r) < r.bufsiz
    → WrittenPost (request_text r) (request_text r) answers w
    → SentPost r answers conn (after_write conn w)
unfolding after_write clear_response
after_write-SentPost r answers conn (written out [] rest) fits h = (refl, h, fits)
after_write-SentPost r answers conn (written out (b ∷ left) rest) fits h = h
after_write-SentPost r answers conn blocked fits h = h
after_write-SentPost r answers conn write_exits fits h = h

-- http_send_request, however write() cuts the request into pieces: the socket is given the bytes of the
-- request, each once and in order, the request fits into BUFSIZ bytes, and the response of the
-- connection is cleared: its state is HTTP_INITIAL, with status -1, no content length and an empty
-- buffer; or more writes are awaited, and then those before wrote less than the request; or the program
-- exits, and then some write failed or wrote nothing; or the assertion fails, and then the connection is
-- neither new nor done; or the request is written past its buffer, and then it has BUFSIZ bytes or more.
pub http_send_request-SentPost :
    (r : Request) (answers : List WriteResult) (conn : HttpConnection)
    → SentPost r answers conn (http_send_request r answers conn)
unfolding http_send_request
http_send_request-SentPost r answers conn = elim (Bool-cases (takes_request conn.state)) [
  | inl t ↦ elim (Bool-cases (ltb (length (request_text r)) r.bufsiz)) [
    | inl fits ↦
        rw (t, fits)
          (after_write-SentPost r answers conn (write_request answers [] (request_text r))
            (ground (arith, fits))
            (write_request-WrittenPost answers (request_text r) [] (request_text r) refl))
    | inr past ↦ rw (t, past) (ground (arith, past))
  ]
  | inr f ↦ rw f (takes_request-none conn.state f)
]
