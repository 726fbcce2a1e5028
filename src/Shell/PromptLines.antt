-- ===== src/Shell/PromptLines.antt =====
-- Assign5/sh61.c, `main`: the lines that are evaluated are those of the input.
use mathlib.Core.Path.{subst}
use mathlib.Core.List.{append-nil}
use systems_programming.Prelude.{
  ℕ, suc, ◌<◌, ◌≡◌, refl, sym, Bool, true, false, ◌&&◌, not, List, [], ◌∷◌, ◌++◌, if◌then◌else◌,
  arith,
}
use systems_programming.Shell.Command.{Word}
use systems_programming.Shell.Parse.{Token}
use systems_programming.Shell.Run.{System}
use systems_programming.Shell.Prompt.{
  Input, got, interrupted, ends, Prompt, Evaluated, goes_on, exits, crashes, Round, again, leaves,
  exits_shell, crashes_shell, until_null, is_complete, eval_line, show_prompt, evaluated,
  run_complete, on_input, after_round, prompt_loop,
}
use systems_programming.Shell.Pieces.{
  split, Piece, kept, Fed, input_bytes, Piece-room, split-Piece, NoNull, until_null-NoNull,
  NoNull-append, Piece-NoNull,
}

module _ {World : Type 0} (sys : System World) (tokens : Word → World → List Token) where
  -- The lines, one after another.
  pub after_line : (World → Evaluated World) → Evaluated World → Evaluated World
  after_line rest (goes_on w) = rest w
  after_line rest exits = exits
  after_line rest crashes = crashes

  pub eval_all : List Word → World → Evaluated World
  eval_all [] w = goes_on w
  eval_all (line ∷ lines) w = after_line (eval_all lines) (eval_line sys tokens line w)

  -- The loop stands where the lines lead, with `rest` in its buffer.
  abbrev pub Agrees : Round World → Evaluated World → Word → Type 0
  Agrees (again p) (goes_on w) rest = (p.world ≡ w) × (p.buf ≡ rest)
  Agrees (leaves p) (goes_on w) rest = (p.world ≡ w) × (p.buf ≡ rest)
  Agrees exits_shell exits rest = Unit {0}
  Agrees crashes_shell crashes rest = Unit {0}
  Agrees _ _ rest = ⊥

  -- The loop agrees with the lines of `bytes` behind what is in the buffer.
  abbrev Follows : ℕ → Word → Round World → Prompt World → Type 0
  Follows limit bytes r p =
      Agrees r (eval_all (split limit p.buf bytes).0 p.world) (split limit p.buf bytes).1

  -- The line was evaluated.
  evaluated-Follows :
      (limit : ℕ) (q : Prompt World) (at_end : Bool) (bytes : Word) (k : Prompt World → Round World)
      (v : Evaluated World)
      → (at_end ≡ true → bytes ≡ [])
      → (at_end ≡ false → (p : Prompt World) → p.buf ≡ [] → Follows limit bytes (k p) p)
      → Agrees
          (after_round sys tokens k (evaluated sys tokens q at_end v))
          (after_line (eval_all (split limit [] bytes).0) v)
          (split limit [] bytes).1
  unfolding after_round evaluated after_line eval_all split
  evaluated-Follows limit q true bytes k (goes_on w) over more =
      subst
        (λ bs.
          Agrees (leaves (record q { buf = []; needprompt = true; world = w }))
            (eval_all (split limit [] bs).0 w) (split limit [] bs).1)
        (sym (over refl)) (refl, refl)
  evaluated-Follows limit q false bytes k (goes_on w) over more =
      more refl (record q { buf = []; needprompt = true; world = w }) refl
  evaluated-Follows limit q at_end bytes k exits over more = tt
  evaluated-Follows limit q at_end bytes k crashes over more = tt

  -- Behind what fgets brought: the line in the buffer is complete, or the loop reads on.
  complete-Follows :
      (c : Bool) (limit : ℕ) (q : Prompt World) (at_end : Bool) (bytes : Word)
      (k : Prompt World → Round World)
      → (at_end ≡ true → bytes ≡ [])
      → (at_end ≡ false
          → (p : Prompt World) → p.buf ≡ (if c then [] else q.buf)
          → Follows limit bytes (k p) p)
      → let s =
          if c
          then (q.buf ∷ (split limit [] bytes).0, (split limit [] bytes).1)
          else split limit q.buf bytes in
        Agrees
          (after_round sys tokens k (
            if c
            then evaluated sys tokens q at_end (eval_line sys tokens q.buf q.world)
            else if at_end
            then leaves q
            else again q))
          (eval_all s.0 q.world)
          s.1
  unfolding after_round eval_all split
  complete-Follows true limit q at_end bytes k over more =
      evaluated-Follows limit q at_end bytes k (eval_line sys tokens q.buf q.world) over more
  complete-Follows false limit q true bytes k over more =
      subst
        (λ bs.
          Agrees (leaves q) (eval_all (split limit q.buf bs).0 q.world) (split limit q.buf bs).1)
        (sym (over refl)) (refl, refl)
  complete-Follows false limit q false bytes k over more = more refl q refl

  got-Follows :
      (limit : ℕ) (q : Prompt World) (w : Word) (at_end : Bool) (bytes : Word)
      (k : Prompt World → Round World)
      → NoNull q.buf
      → Piece limit q.buf w
      → (at_end ≡ true → bytes ≡ [])
      → (at_end ≡ false
          → (p : Prompt World) → p.buf ≡ kept limit (q.buf ++ w)
          → Follows limit bytes (k p) p)
      → Follows limit
          (w ++ bytes)
          (after_round sys tokens k (on_input sys tokens (suc limit) (got w at_end) q))
          q
  unfolding on_input run_complete
  got-Follows limit q w at_end bytes k clean piece over more =
      let line = q.buf ++ w in
      let same : until_null line ≡ line =
        until_null-NoNull line (NoNull-append q.buf w clean (Piece-NoNull limit q.buf w piece)) in
      rw (split-Piece limit q.buf w bytes piece, same)
        (complete-Follows (is_complete (suc limit) line) limit (record q { buf = line }) at_end
          bytes k over more)

  -- A prompt changes neither the buffer nor the world.
  shown-Follows :
      (c : Bool) (limit : ℕ) (p : Prompt World) (bytes : Word) (f : Prompt World → Round World)
      → ((n : Bool) → Follows limit bytes (f (record p { needprompt = n })) p)
      → Follows limit bytes (f (if c then record p { needprompt = false } else p)) p
  shown-Follows true limit p bytes f each = each false
  shown-Follows false limit p bytes f each = each p.needprompt

  -- Nor does a signal.
  signal-Follows :
      (s : Bool) (limit : ℕ) (p : Prompt World) (bytes : Word) (k : Prompt World → Round World)
      → is_complete (suc limit) p.buf ≡ false
      → ((a b : Bool) → Follows limit bytes (k (record p { si_flag = a; needprompt = b })) p)
      → Follows limit bytes
          (after_round sys tokens k (
            run_complete sys tokens
              (suc limit)
              (if s then record p { si_flag = false; needprompt = true } else p)
              false))
          p
  unfolding run_complete after_round
  signal-Follows true limit p bytes k stays each = rw stays (each false true)
  signal-Follows false limit p bytes k stays each = rw stays (each p.si_flag p.needprompt)

  -- The loop may read on: the buffer has no null byte and no complete line.
  abbrev Ready : ℕ → List Input → Word → Type 0
  Ready limit inputs buf = NoNull buf × (is_complete (suc limit) buf ≡ false) × Fed limit buf inputs

  kept-Ready :
      (c : Bool) (limit : ℕ) (inputs : List Input) (line : Word)
      → is_complete (suc limit) line ≡ c
      → 0 < limit
      → NoNull line
      → Fed limit (if c then [] else line) inputs
      → Ready limit inputs (if c then [] else line)
  kept-Ready true limit inputs line e room clean fed = (tt, ground (arith, room), fed)
  kept-Ready false limit inputs line e room clean fed = (clean, e, fed)

  -- One answer of fgets, where the loop does the rest.
  input-Follows :
      (limit : ℕ) (i : Input) (rest : List Input) (p : Prompt World)
      (k : Prompt World → Round World)
      → Ready limit (i ∷ rest) p.buf
      → ((q : Prompt World) → Ready limit rest q.buf → Follows limit (input_bytes rest) (k q) q)
      → Follows limit
          (input_bytes (i ∷ rest))
          (after_round sys tokens k (on_input sys tokens (suc limit) i p))
          p
  unfolding on_input after_round split eval_all
  input-Follows limit (got w true) rest p k (clean, stays, fed) next =
      subst
        (λ bs.
          Follows limit bs
            (after_round sys tokens k (on_input sys tokens (suc limit) (got w true) p)) p)
        (append-nil w)
        (got-Follows limit p w true [] k clean fed (λ e. refl) (λ e. ground (arith, e)))
  input-Follows limit (got w false) rest p k (clean, stays, fed) next =
      got-Follows limit p w false (input_bytes rest) k clean fed.0 (λ e. ground (arith, e))
        (λ e q same. next q (
          subst (Ready limit rest) (sym same) (
            kept-Ready (is_complete (suc limit) (p.buf ++ w)) limit rest (p.buf ++ w) refl
              (omega (arith, Piece-room limit p.buf w fed.0))
              (NoNull-append p.buf w clean (Piece-NoNull limit p.buf w fed.0)) fed.1)))
  input-Follows limit interrupted rest p k (clean, stays, fed) next =
      signal-Follows p.si_flag limit p (input_bytes rest) k stays
        (λ a b. next (record p { si_flag = a; needprompt = b }) (clean, stays, fed))
  input-Follows limit ends rest p k ready next = (refl, refl)

  lines-Follows :
      (limit : ℕ) (quiet : Bool) (inputs : List Input) (p : Prompt World)
      → Ready limit inputs p.buf
      → Follows limit (input_bytes inputs) (prompt_loop sys tokens (suc limit) quiet inputs p) p
  unfolding prompt_loop split eval_all show_prompt
  lines-Follows limit quiet [] p ready = (refl, refl)
  lines-Follows limit quiet (i ∷ rest) p ready =
      shown-Follows (p.needprompt && not quiet) limit p (input_bytes (i ∷ rest))
        (λ q.
          after_round sys tokens (prompt_loop sys tokens (suc limit) quiet rest)
            (on_input sys tokens (suc limit) i q))
        (λ n.
          input-Follows limit i rest (record p { needprompt = n })
            (prompt_loop sys tokens (suc limit) quiet rest) ready (lines-Follows limit quiet rest))

-- Where fgets brings at most a line at a time, as much as fits, and no null byte, the prompt loop with an
-- empty buffer of limit + 1 bytes evaluates exactly the lines of the input, in order, a line ending at a
-- newline or at `limit` bytes, whatever pieces fgets brings and whatever signals interrupt it; it stops
-- at the first line that ends the shell, and what is left of the input behind the last line is in the
-- buffer.
pub prompt_loop-Agrees :
    {World : Type 0} (sys : System World) (tokens : Word → World → List Token) (limit : ℕ)
    (quiet : Bool) (inputs : List Input) (world : World)
    → 0 < limit
    → Fed limit [] inputs
    → let lines = split limit [] (input_bytes inputs) in
      Agrees sys tokens
        (prompt_loop sys tokens
          (suc limit)
          quiet
          inputs
          (record { buf = []; needprompt = true; si_flag = false; world = world }))
        (eval_all sys tokens lines.0 world)
        lines.1
prompt_loop-Agrees sys tokens limit quiet inputs world room fed =
    lines-Follows sys tokens limit quiet inputs
      (record { buf = []; needprompt = true; si_flag = false; world = world })
      (tt, ground (arith, room), fed)
