-- ===== src/Io61/Ensures.antt =====
-- Assign2/io61.c: what a call comes to, as a postcondition.
use systems_programming.Io61.State.{
  Io, Outcome, returned, exits, aborts, null_access, endless, M, and_then,
}

-- The call returns with `P`, or ends the program at exit(1) with `E`; it does nothing else.
abbrev pub Ensures :
    {World A : Type 0} → (A → Io World → Type 0) → Type 0 → Outcome World A → Type 0
Ensures P E (returned a s) = P a s
Ensures P E exits = E
Ensures P E aborts = ⊥
Ensures P E null_access = ⊥
Ensures P E endless = ⊥

module _ {World A : Type 0} (P : A → Io World → Type 0) (E : Type 0) where
  pub Ensures-and_then :
      {B : Type 0} (Q : B → Io World → Type 0) (o : Outcome World A) (f : A → M World B)
      → Ensures P E o
      → ((a : A) (s : Io World) → P a s → Ensures Q E (f a s))
      → Ensures Q E (and_then o f)
  Ensures-and_then Q (returned a s) f p next = next a s p
  Ensures-and_then Q exits f e next = e
  Ensures-and_then Q aborts f e next = e
  Ensures-and_then Q null_access f e next = e
  Ensures-and_then Q endless f e next = e

  -- One reason to exit is as good as another that it gives.
  pub Ensures-exit : (F : Type 0) (o : Outcome World A) → Ensures P E o → (E → F) → Ensures P F o
  Ensures-exit F (returned a s) p weaken = p
  Ensures-exit F exits e weaken = weaken e
  Ensures-exit F aborts e weaken = e
  Ensures-exit F null_access e weaken = e
  Ensures-exit F endless e weaken = e

  pub Ensures-map :
      (Q : A → Io World → Type 0) (o : Outcome World A)
      → Ensures P E o
      → ((a : A) (s : Io World) → P a s → Q a s)
      → Ensures Q E o
  Ensures-map Q (returned a s) p weaken = weaken a s p
  Ensures-map Q exits e weaken = e
  Ensures-map Q aborts e weaken = e
  Ensures-map Q null_access e weaken = e
  Ensures-map Q endless e weaken = e
