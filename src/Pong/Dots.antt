-- ===== src/Pong/Dots.antt =====
-- Assign6/pong61.c: the dots of the clock.
use systems_programming.Prelude.{
  ℕ, ◌+◌, ◌≤◌, ◌<◌, ◌≡◌, refl, ap, inl, inr, true, false, ◌||◌, some, List, [], ◌∷◌, ◌==◌, ◌++◌,
  ltb, length, arith, add32, neg32, signed32_ltb, Bool-cases,
}
use mathlib.Core.Path.{subst, sym}
use systems_programming.Pong.Game.{
  max_threads, digpos, digit, LocalTime, Game, restart_clock, choose_dot, next_digit, advance_clock,
  clock_round, sent_dot, admitted_round, round, play, ◌>>=◌,
}
use systems_programming.Pong.Clock.{
  All, get_elem?-All, All-any, if-cases, IsTime, InClock, restart_clock-InClock,
  advance_clock-InClock,
}

-- A dot in the rows of the clock.
abbrev pub Drawn : ℕ × ℕ → Type 0
Drawn p = (1 ≤ p.1) × (p.1 ≤ 17)

choose_dot-InClock :
    (g : Game)
    → InClock g
    → (g' : Game) × (choose_dot g ≡ some g') × InClock g' × All Drawn (sent_dot g')
unfolding choose_dot sent_dot
choose_dot-InClock g i =
    let (d, at_d, small) =
      get_elem?-All (λ n. n < 10) g.currtime g.digcnt i.decimal
        (omega (arith, i.digits, i.digit_at)) in
    let (row, at_row, long) =
      get_elem?-All (λ (r : List ℕ). length r ≡ 15) digit d
        (refl, (refl, (refl, (refl, (refl, (refl, (refl, (refl, (refl, (refl, tt)))))))))) small in
    let (on, at_on, any) =
      get_elem?-All (λ n. Unit {0}) row g.f_indx (All-any row) (omega (arith, long, i.point_at)) in
    let (p, at_p, low) =
      get_elem?-All (λ (q : ℕ × ℕ). q.1 ≤ 4) digpos g.f_indx
        (
          omega arith,
          (
            omega arith,
            (
              omega arith,
              (
                omega arith,
                (
                  omega arith,
                  (
                    omega arith,
                    (
                      omega arith,
                      (
                        omega arith,
                        (
                          omega arith,
                          (
                            omega arith,
                            (
                              omega arith,
                              (omega arith, (omega arith, (omega arith, (omega arith, tt)))),
                            ),
                          ),
                        ),
                      ),
                    ),
                  ),
                ),
              ),
            ),
          ),
        )
        (omega (arith, i.point_at)) in
    let both =
      if-cases (λ g'. InClock g' × All Drawn (sent_dot g')) (on == 1)
        {a = record g { x = add32 p.0 g.xoffset; y = add32 p.1 g.yoffset; do_send_dot = true }}
        {b = record g { do_send_dot = false }}
        (λ e. (
          record {
            digits = i.digits;
            decimal = i.decimal;
            digit_at = i.digit_at;
            point_at = i.point_at;
            rows = i.rows;
          },
          ((omega (arith, i.rows, i.digit_at), omega (arith, i.rows, i.digit_at, low)), tt),
        ))
        (λ e. (
          record {
            digits = i.digits;
            decimal = i.decimal;
            digit_at = i.digit_at;
            point_at = i.point_at;
            rows = i.rows;
          },
          tt,
        )) in
    (_, rw (at_d, at_row, at_on, at_p) refl, both.0, both.1)

-- The dot that is chosen stays.
sent_dot-advance_clock : (width : ℕ) (g : Game) → sent_dot (advance_clock width g) ≡ sent_dot g
unfolding sent_dot advance_clock next_digit
sent_dot-advance_clock width g =
    let same : Game → Type 0 = λ g'. sent_dot g' ≡ sent_dot g in
    if-cases same (ltb g.f_indx 14) (λ e. refl)
      (λ e.
        if-cases same (ltb g.digcnt 5)
          (λ f.
            if-cases same (g.digcnt + 1 == 2 || g.digcnt + 1 == 4) (λ n. refl)
              (λ n.
                if-cases same (signed32_ltb g.xoffset (add32 width (neg32 8))) (λ o. refl)
                  (λ o. refl)))
          (λ f. refl))

All-append : {A : Type 0} (P : A → Type 0) (xs ys : List A) → All P xs → All P ys → All P (xs ++ ys)
All-append P [] ys p q = q
All-append P (x ∷ xs) ys p q = (p.0, All-append P xs ys p.1 q)

clock_round-InClock :
    (width : ℕ) (now : LocalTime) (g : Game)
    → IsTime now
    → InClock g
    → (g' : Game) × (clock_round width now g ≡ some g') × InClock g' × All Drawn (sent_dot g')
unfolding clock_round
clock_round-InClock width now g it i =
    let (g1, e, i1, drawn) =
      choose_dot-InClock (restart_clock width now g) (restart_clock-InClock width now g it i) in
    (
      advance_clock width g1,
      ap (λ o. o >>= λ g2. some (advance_clock width g2)) e,
      advance_clock-InClock width g1 i1,
      subst (All Drawn) (sym (sent_dot-advance_clock width g1)) drawn,
    )

pub play-Drawn :
    (width height : ℕ) (inputs : List (ℕ × LocalTime)) (g : Game)
    → All (λ (i : ℕ × LocalTime). IsTime i.1) inputs
    → InClock g
    → (dots : List (ℕ × ℕ)) × (g' : Game) × (play true width height inputs g ≡ some (dots, g'))
      × All Drawn dots
unfolding play round admitted_round
play-Drawn width height [] g times i = ([], g, refl, tt)
play-Drawn width height ((threadcnt, now) ∷ rest) g times i =
    elim (Bool-cases (ltb threadcnt max_threads)) [
      | inr e ↦
          let (dots, g', eq, r) = play-Drawn width height rest g times.1 i in
          (dots, g', rw (e, eq) refl, r)
      | inl e ↦
          let (g1, step, i1, drawn) = clock_round-InClock width now g times.0 i in
          let (dots, g', eq, r) = play-Drawn width height rest g1 times.1 i1 in
          (
            sent_dot g1 ++ dots,
            g',
            rw (e, step, eq) refl,
            All-append Drawn (sent_dot g1) dots drawn r,
          )
    ]
