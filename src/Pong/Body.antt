-- ===== src/Pong/Body.antt =====
-- Assign6/pong61.c: the body of a response, read in any pieces.
use systems_programming.Prelude.{
  ℕ, ◌+◌, ◌<◌, ◌≤◌, ltb, [], ◌∷◌, ◌≡◌, ◌≢◌, refl, sym, ap, ◌∙◌, Bool, true, false, List, ◌++◌,
  arith, inl, inr, Bool-cases, length, length-append, if◌then◌else◌, ◌&&◌, ◌||◌, leb,
}
use mathlib.Core.Path.{subst}
use systems_programming.Pong.Http.{
  HttpState, http_body, http_done, HttpConnection, is_body, body_complete, http_check_response_body,
  is_negative, ReadResult, Received, received, waiting, exits, asserts, overruns, bigbufsiz,
  null_terminate, got, retry, failed, read_while, http_receive_response_body,
}
use systems_programming.Pong.Chunks.{receive}
use systems_programming.Pong.Receive.{AllData, payload, Arrived, read_while-Arrived}

-- A connection after the test for a complete body.
abbrev settle : HttpConnection → HttpConnection
settle conn = record conn { state = if body_complete conn then http_done else conn.state }

check-open :
    (conn : HttpConnection)
    → conn.eof ≡ false
    → http_check_response_body conn ≡ (settle conn, is_body (settle conn).state)
unfolding http_check_response_body
check-open conn e = rw (e, http_check_response_body) refl

-- The state after the test, at a body of `n` bytes where `t` are due.
abbrev settled : HttpState → Bool → ℕ → ℕ → HttpState
settled s due t n = if is_body s && due && leb t n then http_done else s

settled-more :
    (s : HttpState) (due : Bool) (t n m : ℕ)
    → settled (settled s due t n) due t (n + m) ≡ settled s due t (n + m)
settled-more s due t n m = elim (Bool-cases (is_body s && due && leb t n)) [
  | inl c ↦ rw c (sym (later (is_body s) due c))
  | inr c ↦ rw c refl
]
  where
    later :
        (b d : Bool)
        → (b && d && leb t n) ≡ true
        → (if b && d && leb t (n + m) then http_done else s) ≡ http_done
    later true true c = ground (arith, c)
    later true false c = ground (arith, c)
    later false d c = ground (arith, c)

settle-receive :
    (conn : HttpConnection) (bytes : List ℕ)
    → conn.eof ≡ false
    → settle (receive (settle conn) bytes) ≡ settle (receive conn bytes)
unfolding body_complete
settle-receive conn bytes e =
    ap (λ s. record (receive conn bytes) { state = s })
      (rw (length-append conn.buf bytes) (
        settled-more conn.state (conn.has_content_length || conn.eof) conn.content_length
          (length conn.buf) (length bytes)))

-- Does the body have the length that the headers gave?
abbrev pub has_all : HttpConnection → Bool
has_all conn = conn.has_content_length && leb conn.content_length (length conn.buf)

abbrev pub BodyPost : List ReadResult → HttpConnection → Received → Type 0
BodyPost rs conn (received c rest) =
    (used : List ReadResult) × (rs ≡ used ++ rest)
    × (c ≡ record (receive conn (payload used)) { state = http_done })
    × (has_all c ≡ true)
    × (length c.buf < bigbufsiz)
BodyPost rs conn (waiting c) = (c ≡ receive conn (payload rs)) × (has_all c ≡ false)
BodyPost rs conn exits = ⊥
BodyPost rs conn asserts = ⊥
BodyPost rs conn overruns = bigbufsiz ≤ length conn.buf + length (payload rs)

body_complete-open :
    (conn : HttpConnection)
    → conn.state ≡ http_body
    → conn.eof ≡ false
    → body_complete conn ≡ has_all conn
unfolding body_complete
body_complete-open conn b e =
    due conn.has_content_length (leb conn.content_length (length conn.buf))
  where
    due : (h l : Bool) → (is_body conn.state && (h || conn.eof) && l) ≡ (h && l)
    due true l = ap (λ s. is_body s && true && l) b
    due false l = ap (λ s. is_body s && conn.eof && l) b ∙ ap (λ x. x && l) e

true≢false : true ≢ false
true≢false e = ground (arith, e)

settle-all :
    (conn : HttpConnection)
    → conn.state ≡ http_body
    → conn.eof ≡ false
    → has_all conn ≡ true
    → settle conn ≡ record conn { state = http_done }
settle-all conn b e h =
    ap (λ t. record conn { state = if t then http_done else conn.state })
      (body_complete-open conn b e ∙ h)

settle-part :
    (conn : HttpConnection)
    → conn.state ≡ http_body
    → conn.eof ≡ false
    → has_all conn ≡ false
    → settle conn ≡ conn
settle-part conn b e h =
    ap (λ t. record conn { state = if t then http_done else conn.state })
      (body_complete-open conn b e ∙ h)

payload-prefix :
    (used rest : List ReadResult) → length (payload used) ≤ length (payload (used ++ rest))
payload-prefix [] rest = omega arith
payload-prefix (got bs ∷ used) rest = omega (
  arith,
  length-append bs (payload used),
  length-append bs (payload (used ++ rest)),
  payload-prefix used rest,
)
payload-prefix (retry ∷ used) rest = payload-prefix used rest
payload-prefix (failed ∷ used) rest = payload-prefix used rest

-- The null byte behind a complete body.
BodyPost-null :
    (rs used rest : List ReadResult) (conn c : HttpConnection)
    → rs ≡ used ++ rest
    → c ≡ record (receive conn (payload used)) { state = http_done }
    → has_all c ≡ true
    → BodyPost rs conn (null_terminate (received c rest))
BodyPost-null rs used rest conn c s e h = elim (Bool-cases (ltb (length c.buf) bigbufsiz)) [
  | inl fits ↦ rw fits (used, s, e, h, ground (arith, fits))
  | inr past ↦ rw past (
      omega (
        arith,
        not_below (length c.buf) past,
        ap (λ (x : HttpConnection). length x.buf) e,
        length-append conn.buf (payload used),
        payload-prefix used rest,
        ap (λ r. length (payload r)) s,
      ))
]
  where
    not_below : (n : ℕ) → ltb n bigbufsiz ≡ false → bigbufsiz ≤ n
    not_below n e = ground (arith, e)

BodyPost-Arrived :
    (rs : List ReadResult) (conn : HttpConnection) (out : Received)
    → conn.state ≡ http_body
    → conn.eof ≡ false
    → Arrived http_check_response_body settle (λ c. is_body c.state) rs conn out
    → BodyPost rs conn (null_terminate out)
BodyPost-Arrived rs conn (received c rest) b e (used, s, w, d) =
    let c' = receive conn (payload used) in
    elim (Bool-cases (has_all c')) [
      | inl h ↦
          BodyPost-null rs used rest conn c s (w ∙ settle-all c' b e h)
            (ap has_all (w ∙ settle-all c' b e h) ∙ h)
      | inr h ↦ absurd (
          true≢false (
            sym (
              ap (λ (x : HttpConnection). is_body x.state) (w ∙ settle-part c' b e h)
              ∙ ap is_body b)
            ∙ d))
    ]
BodyPost-Arrived rs conn (waiting c) b e (w, d) =
    let c' = receive conn (payload rs) in
    elim (Bool-cases (has_all c')) [
      | inl h ↦ absurd (
          true≢false
            (sym d ∙ ap (λ (x : HttpConnection). is_body x.state) (w ∙ settle-all c' b e h)))
      | inr h ↦ (w ∙ settle-part c' b e h, ap has_all (w ∙ settle-part c' b e h) ∙ h)
    ]
BodyPost-Arrived rs conn exits b e a = a
BodyPost-Arrived rs conn asserts b e a = a
BodyPost-Arrived rs conn overruns b e a = omega (arith, a)

-- In the body of a response on an open connection, and where read() brings data alone, however it is
-- cut into pieces: http_receive_response_body reads on until the buffer has the Content-Length,
-- and then the response is done, with every byte that was read in the buffer, in order, and room for a
-- null byte; or it awaits more reads, with the bytes of all of them in the buffer; or it writes past
-- the buffer of BIGBUFSIZ bytes, and then it and the reads together have that many bytes or more.
pub receive_body-BodyPost :
    (rs : List ReadResult) (conn : HttpConnection)
    → conn.state ≡ http_body
    → conn.eof ≡ false
    → AllData rs
    → BodyPost rs conn (http_receive_response_body rs conn)
unfolding http_receive_response_body is_negative
receive_body-BodyPost rs conn b e d =
    subst (BodyPost rs conn)
      (sym (
        ap
          (λ s.
            if is_negative s
            then received conn rs
            else if is_body s
            then null_terminate (read_while http_check_response_body rs conn)
            else asserts)
          b))
      (BodyPost-Arrived rs conn (read_while http_check_response_body rs conn) b e (
        read_while-Arrived http_check_response_body settle (λ c. is_body c.state) check-open
          (λ c. refl) (λ c. omega arith) settle-receive rs conn e d))
