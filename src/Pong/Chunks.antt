-- ===== src/Pong/Chunks.antt =====
-- Assign6/pong61.c, http_process_response_headers: the response may arrive in any pieces.
use systems_programming.Prelude.{
  ℕ, zero, suc, ◌+◌, ◌≤◌, ◌≡◌, refl, sym, ap, ◌∙◌, Bool, true, false, Option, none, some, List, [],
  ◌∷◌, ◌++◌, arith, inl, inr, Bool-cases, Option-cases, length,
}
use systems_programming.Pong.Http.{
  HttpState, HttpConnection, Scanner, in_headers, is_crlf, keep_line, split_line, is_initial,
  after_word, content_length_word, status_line, header_line, on_line, process_lines,
}

-- `read` puts more bytes behind those of the buffer.
abbrev pub receive : HttpConnection → List ℕ → HttpConnection
receive conn bytes = record conn { buf = conn.buf ++ bytes }

keep_line-append :
    (b : Bool) (c : ℕ) (cs ys : List ℕ) (r r' : Option (List ℕ × List ℕ)) (line behind : List ℕ)
    → ((l b' : List ℕ) → r ≡ some (l, b') → r' ≡ some (l, b' ++ ys))
    → keep_line b c cs r ≡ some (line, behind)
    → keep_line b c (cs ++ ys) r' ≡ some (line, behind ++ ys)
keep_line-append true c cs ys r r' line behind h e = ground (arith, e)
keep_line-append false c cs ys none r' line behind h e = ground (arith, e)
keep_line-append false c cs ys (some (l, b)) r' line behind h e = ground (arith, e, h l b refl)

split_line-append :
    (xs ys : List ℕ) (line behind : List ℕ)
    → split_line xs ≡ some (line, behind)
    → split_line (xs ++ ys) ≡ some (line, behind ++ ys)
unfolding split_line
split_line-append [] ys line behind e = ground (arith, e)
split_line-append (c ∷ []) ys line behind e = ground (arith, e)
split_line-append (c ∷ d ∷ cs) ys line behind e =
    keep_line-append (is_crlf c d) c cs ys (split_line (d ∷ cs)) (split_line (d ∷ cs ++ ys)) line
      behind (λ l b s. split_line-append (d ∷ cs) ys l b s) e

keep_line-length :
    (b : Bool) (c : ℕ) (cs : List ℕ) (r : Option (List ℕ × List ℕ)) (line behind : List ℕ)
    → ((l b' : List ℕ) → r ≡ some (l, b') → length b' ≤ length cs)
    → keep_line b c cs r ≡ some (line, behind)
    → length behind ≤ length cs
keep_line-length true c cs r line behind h e = ground (arith, e)
keep_line-length false c cs none line behind h e = ground (arith, e)
keep_line-length false c cs (some (l, b)) line behind h e = ground (arith, e, h l b refl)

pub split_line-length :
    (xs : List ℕ) (line behind : List ℕ)
    → split_line xs ≡ some (line, behind)
    → length behind + 2 ≤ length xs
unfolding split_line
split_line-length [] line behind e = ground (arith, e)
split_line-length (c ∷ []) line behind e = ground (arith, e)
split_line-length (c ∷ d ∷ cs) line behind e = omega (
  arith,
  keep_line-length (is_crlf c d) c cs (split_line (d ∷ cs)) line behind
      (λ l b s. (omega (arith, split_line-length (d ∷ cs) l b s))) e,
)

module _ (scan : Scanner) where
  status_line-receive :
      (line : List ℕ) (conn : HttpConnection) (bytes : List ℕ)
      → status_line scan line (receive conn bytes) ≡ receive (status_line scan line conn) bytes
  unfolding status_line
  status_line-receive line conn bytes = elim (Option-cases (scan.scan_status line)) [
    | inl n ↦ rw (n, status_line) refl
    | inr (v, e) ↦ rw (e, status_line) refl
  ]

  header_line-receive :
      (line : List ℕ) (conn : HttpConnection) (bytes : List ℕ)
      → header_line scan line (receive conn bytes) ≡ receive (header_line scan line conn) bytes
  unfolding header_line
  header_line-receive [] conn bytes = refl
  header_line-receive (c ∷ cs) conn bytes =
      elim (Option-cases (after_word content_length_word (c ∷ cs))) [
        | inl n ↦ rw (n, header_line) refl
        | inr (v, e) ↦ rw (e, header_line) refl
      ]

  on_line-receive :
      (s : HttpState) (line : List ℕ) (conn : HttpConnection) (bytes : List ℕ)
      → on_line scan s line (receive conn bytes) ≡ receive (on_line scan s line conn) bytes
  unfolding on_line
  on_line-receive s line conn bytes = elim (Bool-cases (is_initial s)) [
    | inl t ↦ rw (t, on_line) (status_line-receive line conn bytes)
    | inr f ↦ rw (f, on_line) (header_line-receive line conn bytes)
  ]

  on_line-buf :
      (s : HttpState) (line : List ℕ) (conn : HttpConnection)
      → (on_line scan s line conn).buf ≡ conn.buf
  unfolding on_line status_line header_line
  on_line-buf s [] conn = ground arith
  on_line-buf s (c ∷ cs) conn = ground arith

  -- The state after one line, with fuel to go on.
  abbrev taken : HttpConnection → List ℕ → List ℕ → HttpConnection
  taken conn line behind = on_line scan conn.state line (record conn { buf = behind })

  process-stop :
      (fuel : ℕ) (conn : HttpConnection)
      → in_headers conn.state ≡ false
      → process_lines scan fuel conn ≡ conn
  unfolding process_lines
  process-stop zero conn e = refl
  process-stop (suc fuel) conn e = rw (e, process_lines) refl

  process-wait :
      (fuel : ℕ) (conn : HttpConnection)
      → split_line conn.buf ≡ none
      → process_lines scan fuel conn ≡ conn
  unfolding process_lines
  process-wait zero conn e = refl
  process-wait (suc fuel) conn e = ground (arith, e)

  process-take :
      (fuel : ℕ) (conn : HttpConnection) (line behind : List ℕ)
      → in_headers conn.state ≡ true
      → split_line conn.buf ≡ some (line, behind)
      → process_lines scan (suc fuel) conn ≡ process_lines scan fuel (taken conn line behind)
  unfolding process_lines
  process-take fuel conn line behind e s = rw (e, s, process_lines) refl

  -- The loop with the fuel that `http_process_response_headers` gives it.
  abbrev pub parse : HttpConnection → HttpConnection
  parse conn = process_lines scan (length conn.buf) conn

  split-short : (xs : List ℕ) → length xs ≤ 0 → split_line xs ≡ none
  unfolding split_line
  split-short [] h = refl
  split-short (c ∷ cs) h = absurd (omega (arith, h))

  length-taken :
      (conn : HttpConnection) (line behind : List ℕ)
      → length (taken conn line behind).buf ≡ length behind
  length-taken conn line behind =
      ap length (on_line-buf conn.state line (record conn { buf = behind }))

  process-enough :
      (m n : ℕ) (conn : HttpConnection)
      → length conn.buf ≤ m
      → length conn.buf ≤ n
      → process_lines scan m conn ≡ process_lines scan n conn
  process-enough zero n conn a b =
      process-wait zero conn (split-short conn.buf a)
      ∙ sym (process-wait n conn (split-short conn.buf a))
  process-enough (suc m) zero conn a b =
      process-wait (suc m) conn (split-short conn.buf b)
      ∙ sym (process-wait zero conn (split-short conn.buf b))
  process-enough (suc m) (suc n) conn a b = elim (Bool-cases (in_headers conn.state)) [
    | inr f ↦ process-stop (suc m) conn f ∙ sym (process-stop (suc n) conn f)
    | inl t ↦ elim (Option-cases (split_line conn.buf)) [
      | inl e ↦ process-wait (suc m) conn e ∙ sym (process-wait (suc n) conn e)
      | inr ((line, behind), e) ↦
          process-take m conn line behind t e
          ∙ process-enough m n (taken conn line behind)
              (omega
                (arith, length-taken conn line behind, split_line-length conn.buf line behind e))
              (omega
                (arith, length-taken conn line behind, split_line-length conn.buf line behind e))
          ∙ sym (process-take n conn line behind t e)
    ]
  ]

  parse-take :
      (conn : HttpConnection) (line behind : List ℕ)
      → in_headers conn.state ≡ true
      → split_line conn.buf ≡ some (line, behind)
      → parse conn ≡ parse (taken conn line behind)
  parse-take conn line behind t e =
      process-enough (length conn.buf) (suc (length conn.buf)) conn (omega arith) (omega arith)
      ∙ process-take (length conn.buf) conn line behind t e
      ∙ process-enough (length conn.buf) (length (taken conn line behind).buf)
          (taken conn line behind)
          (omega (arith, length-taken conn line behind, split_line-length conn.buf line behind e))
          (omega arith)

  process-zero : (conn : HttpConnection) → process_lines scan zero conn ≡ conn
  unfolding process_lines
  process-zero conn = refl

  process-receive :
      (m : ℕ) (conn : HttpConnection) (bytes : List ℕ)
      → parse (receive (process_lines scan m conn) bytes) ≡ parse (receive conn bytes)
  process-receive zero conn bytes = ap (λ c. parse (receive c bytes)) (process-zero conn)
  process-receive (suc m) conn bytes = elim (Bool-cases (in_headers conn.state)) [
    | inr f ↦ ap (λ c. parse (receive c bytes)) (process-stop (suc m) conn f)
    | inl t ↦ elim (Option-cases (split_line conn.buf)) [
      | inl e ↦ ap (λ c. parse (receive c bytes)) (process-wait (suc m) conn e)
      | inr ((line, behind), e) ↦
          ap (λ c. parse (receive c bytes)) (process-take m conn line behind t e)
          ∙ process-receive m (taken conn line behind) bytes
          ∙ ap parse (sym (on_line-receive conn.state line (record conn { buf = behind }) bytes))
          ∙ sym (
              parse-take (receive conn bytes) line (behind ++ bytes) t
                (split_line-append conn.buf bytes line behind e))
    ]
  ]

  -- Parsing what has arrived, and then parsing again with the bytes that arrive next, comes to the
  -- same connection as parsing all of it at once.
  pub parse-receive :
      (conn : HttpConnection) (bytes : List ℕ)
      → parse (receive (parse conn) bytes) ≡ parse (receive conn bytes)
  parse-receive conn bytes = process-receive (length conn.buf) conn bytes
