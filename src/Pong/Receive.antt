-- ===== src/Pong/Receive.antt =====
-- Assign6/pong61.c: the loops that read a response from the connection.
use systems_programming.Prelude.{
  ℕ, ◌+◌, ◌<◌, ◌≤◌, leb, length, length-append, arith, Bool-cases, inl, inr, ◌≡◌, refl, sym, ap,
  ◌∙◌, Bool, true, false, List, [], ◌∷◌, ◌++◌, if◌then◌else◌,
}
use mathlib.Core.List.{append_assoc, append-nil}
use mathlib.Core.Path.{subst}
use systems_programming.Pong.Http.{
  HttpConnection, ReadResult, got, retry, failed, Received, received, waiting, exits, asserts,
  overruns, bigbufsiz, after_read, read_while,
}
use systems_programming.Pong.Chunks.{receive}

-- The bytes that a sequence of reads brings.
abbrev pub payload : List ReadResult → List ℕ
payload [] = []
payload (got bs ∷ rs) = bs ++ payload rs
payload (retry ∷ rs) = payload rs
payload (failed ∷ rs) = payload rs

-- Reads without an error and without the end of the connection.
abbrev pub AllData : List ReadResult → Type 0
AllData [] = Unit {0}
AllData (got [] ∷ rs) = ⊥
AllData (got (b ∷ bs) ∷ rs) = AllData rs
AllData (retry ∷ rs) = AllData rs
AllData (failed ∷ rs) = ⊥

-- `check` answers with `whole` of the connection and `wants` of that.
module _ (check : HttpConnection → HttpConnection × Bool) (whole : HttpConnection → HttpConnection)
    (wants : HttpConnection → Bool) where
  -- What the reads come to: some were used, and what they brought is as if it had come at once; or
  -- all of them were, and more is wanted; or the buffer is overrun, and then it and what the reads bring
  -- are more than it holds.
  abbrev pub Arrived : List ReadResult → HttpConnection → Received → Type 0
  Arrived rs conn (received c rest) =
      (used : List ReadResult) × (rs ≡ used ++ rest)
      × (c ≡ whole (receive conn (payload used)))
      × (wants c ≡ false)
  Arrived rs conn (waiting c) = (c ≡ whole (receive conn (payload rs))) × (wants c ≡ true)
  Arrived rs conn exits = ⊥
  Arrived rs conn asserts = ⊥
  Arrived rs conn overruns = bigbufsiz < length conn.buf + length (payload rs)

  Arrived-read :
      (r : ReadResult) (bs : List ℕ) (rs : List ReadResult) (conn : HttpConnection) (out : Received)
      → ((rs' : List ReadResult) → payload (r ∷ rs') ≡ bs ++ payload rs')
      → ((more : List ℕ)
          → whole (receive (receive (whole conn) bs) more) ≡ whole (receive conn (bs ++ more)))
      → length (whole conn).buf ≤ length conn.buf
      → Arrived rs (receive (whole conn) bs) out
      → Arrived (r ∷ rs) conn out
  Arrived-read r bs rs conn (received c rest) p e le (used, s, w, d) = (
    r ∷ used,
    ap (λ x. r ∷ x) s,
    w ∙ e (payload used) ∙ ap (λ b. whole (receive conn b)) (sym (p used)),
    d,
  )
  Arrived-read r bs rs conn (waiting c) p e le (w, d) =
      (w ∙ e (payload rs) ∙ ap (λ b. whole (receive conn b)) (sym (p rs)), d)
  Arrived-read r bs rs conn exits p e le a = a
  Arrived-read r bs rs conn asserts p e le a = a
  Arrived-read r bs rs conn overruns p e le a = omega (
    arith,
    a,
    le,
    length-append (whole conn).buf bs,
    ap length (p rs),
    length-append bs (payload rs),
  )

receive-nil : (conn : HttpConnection) → receive conn [] ≡ conn
receive-nil conn = ap (λ b. record conn { buf = b }) (append-nil conn.buf)

receive-append :
    (conn : HttpConnection) (xs ys : List ℕ)
    → receive (receive conn xs) ys ≡ receive conn (xs ++ ys)
receive-append conn xs ys = ap (λ b. record conn { buf = b }) (append_assoc conn.buf xs ys)

module _ (check : HttpConnection → HttpConnection × Bool) (whole : HttpConnection → HttpConnection)
    (wants : HttpConnection → Bool)
    (checks : (c : HttpConnection) → c.eof ≡ false → check c ≡ (whole c, wants (whole c)))
    (keeps : (c : HttpConnection) → (whole c).eof ≡ c.eof)
    (shrinks : (c : HttpConnection) → length (whole c).buf ≤ length c.buf)
    (merges : (c : HttpConnection)
      → (bytes : List ℕ) → c.eof ≡ false
      → whole (receive (whole c) bytes) ≡ whole (receive c bytes)) where
  merge_all :
      (conn : HttpConnection) (bs more : List ℕ)
      → conn.eof ≡ false
      → whole (receive (receive (whole conn) bs) more) ≡ whole (receive conn (bs ++ more))
  merge_all conn bs more e =
      ap whole (receive-append (whole conn) bs more) ∙ merges conn (bs ++ more) e

  -- One round, with what the rounds behind it come to.
  round :
      (r : ReadResult) (rs : List ReadResult) (conn : HttpConnection) (b : Bool) (go : Received)
      → wants (whole conn) ≡ b
      → (b ≡ true → Arrived check whole wants (r ∷ rs) conn go)
      → Arrived check whole wants (r ∷ rs) conn (if b then go else received (whole conn) (r ∷ rs))
  round r rs conn true go w k = k refl
  round r rs conn false go w k = ([], refl, ap whole (sym (receive-nil conn)), w)

  last_round :
      (conn : HttpConnection) (b : Bool)
      → wants (whole conn) ≡ b
      → Arrived check whole wants [] conn
          (if b then waiting (whole conn) else received (whole conn) [])
  last_round conn true w = (ap whole (sym (receive-nil conn)), w)
  last_round conn false w = ([], refl, ap whole (sym (receive-nil conn)), w)

  too_long : (n : ℕ) → leb n bigbufsiz ≡ false → bigbufsiz < n
  too_long n e = ground (arith, e)

  pub read_while-Arrived :
      (rs : List ReadResult) (conn : HttpConnection)
      → conn.eof ≡ false
      → AllData rs
      → Arrived check whole wants rs conn (read_while check rs conn)
  unfolding read_while
  read_while-Arrived [] conn e d =
      rw (checks conn e, read_while) (last_round conn (wants (whole conn)) refl)
  read_while-Arrived (got [] ∷ rs) conn e d = absurd d
  read_while-Arrived (got (b ∷ bs) ∷ rs) conn e d =
      rw (checks conn e, read_while)
        (round (got (b ∷ bs)) rs conn (wants (whole conn))
          (after_read (got (b ∷ bs)) (whole conn) (λ c. read_while check rs c)) refl
          (λ t. elim (Bool-cases (leb (length (whole conn).buf + length (b ∷ bs)) bigbufsiz)) [
            | inl fits ↦ rw fits (
                Arrived-read check whole wants (got (b ∷ bs)) (b ∷ bs) rs conn _ (λ rs'. refl)
                  (λ more. merge_all conn (b ∷ bs) more e) (shrinks conn)
                  (read_while-Arrived rs (receive (whole conn) (b ∷ bs)) (keeps conn ∙ e) d))
            | inr past ↦ rw past (
                omega (
                  arith,
                  too_long (length (whole conn).buf + length (b ∷ bs)) past,
                  shrinks conn,
                  length-append (b ∷ bs) (payload rs),
                ))
          ]))
  read_while-Arrived (retry ∷ rs) conn e d =
      rw (checks conn e, read_while)
        (round retry rs conn (wants (whole conn)) (read_while check rs (whole conn)) refl (λ t.
          Arrived-read check whole wants retry [] rs conn _ (λ rs'. refl)
            (λ more. merge_all conn [] more e) (shrinks conn)
            (subst (λ c. Arrived check whole wants rs c (read_while check rs (whole conn)))
              (sym (receive-nil (whole conn)))
              (read_while-Arrived rs (whole conn) (keeps conn ∙ e) d))))
  read_while-Arrived (failed ∷ rs) conn e d = absurd d
