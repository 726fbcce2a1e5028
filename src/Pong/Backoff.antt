-- ===== src/Pong/Backoff.antt =====
-- Assign6/pong61.c, pong_thread: the delays between the attempts, and the end of the loop.
use systems_programming.Prelude.{
  ℕ, suc, ◌^◌, ◌≡◌, Option, none, some, List, [], ◌∷◌, ◌++◌, ltb, if◌then◌else◌, length,
}
use systems_programming.Pong.Http.{Scanner}
use systems_programming.Pong.Pool.{Pool}
use systems_programming.Pong.Send.{Request}
use systems_programming.Pong.Thread.{
  Turn, slot_at, Stop, answered, hangs, program_exits, assertion_fails, overwrites, Outcome,
  retries, stops, turn, Wait, nap, back_off, at_once, Tried,
}

-- The delay of a thread behind its `k`-th attempt without a status, in units of 5 ms.
abbrev pub delay_after : ℕ → ℕ
delay_after k = if ltb k 16 then 2 ^ k else 25600

-- The back-offs are those behind the attempts `k + 1`, `k + 2` and so on.
abbrev pub Backs : ℕ → List Wait → Type 0
Backs k [] = Unit {0}
Backs k (nap ∷ waits) = Backs k waits
Backs k (back_off delay ∷ waits) = (delay ≡ delay_after (suc k)) × Backs (suc k) waits
Backs k (at_once ∷ waits) = Backs k waits

-- A response that ends the loop has status 200, and is in its slot of the table.
abbrev pub Ends : Stop → Pool → Type 0
Ends (answered i c rest) pool = (c.status_code ≡ some 200) × (slot_at pool i ≡ some c)
Ends hangs pool = Unit {0}
Ends program_exits pool = Unit {0}
Ends overwrites pool = Unit {0}
Ends assertion_fails pool = Unit {0}

-- A turn that ends the loop.
abbrev EndsOutcome : Outcome → Type 0
EndsOutcome (retries reason pool) = Unit {0}
EndsOutcome (stops s pool) = Ends s pool

module _ (scan : Scanner) (r : Request) where
  -- How the loop over `turns` ends: at the first turn that does not ask for another, behind one wait for
  -- each turn before it; or where the turns run out.
  abbrev pub StopPost : List Turn → ℕ → Option Stop → Pool → Type 0
  StopPost turns waited none pool = waited ≡ length turns
  StopPost turns waited (some s) pool =
      (before : List Turn) × (t : Turn) × (after : List Turn) × (pool0 : Pool) × (turns
        ≡ before ++ t ∷ after)
      × (waited ≡ length before)
      × (turn scan r t pool0 ≡ stops s pool)
      × Ends s pool

  pub record TriedPost (turns : List Turn) (k : ℕ) (t : Tried) : Type 0 where
    pub backs : Backs k t.waits
    pub stop : StopPost turns (length t.waits) t.stop t.pool
