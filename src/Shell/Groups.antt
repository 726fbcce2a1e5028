-- ===== src/Shell/Groups.antt =====
-- Assign5/sh61.c, `eval_line`: the groups of the commands, and what `&` takes out of the list.
use mathlib.Core.Path.{subst}
use systems_programming.Prelude.{
  ℕ, ◌+◌, ◌≤◌, ◌≡◌, ◌≢◌, ◌⊎◌, refl, sym, ap, none, some, List, [], ◌∷◌, ◌++◌, ◌==◌, if◌then◌else◌,
  arith, inl, inr, Bool-cases, Option-cases,
}
use systems_programming.Shell.Command.{
  Word, RedirTo, Command, command_alloc, add_cmd_node, command_append_arg, before_group,
  free_command_grp,
}
use systems_programming.Shell.Control.{CtrlResult, not_control, control, bad_order}
use systems_programming.Shell.Parse.{
  Token, TokenType, normal, redirection, sequence, background, pipe, and_op, or_op, lparen, rparen,
  other_token, ForkResult, failed, in_child, in_parent, Line, Step, more, subshell, exits, crashes,
  set_redir, next_command, drop_background, on_background, on_word, on_type, read_token, and_then,
  read_tokens,
}

-- The groups of the commands ascend from `lo` to `hi`, and each command has a word.
abbrev pub Ascends : ℕ → List Command → ℕ → Type 0
Ascends lo [] hi = lo ≤ hi
Ascends lo (c ∷ cs) hi = (lo ≤ c.rungrp) × (c.argv ≢ []) × Ascends c.rungrp cs hi

-- The command being read is empty or of the current group, and the list ascends up to that group.
pub record IsGrouped (l : Line) : Type 0 where
  pub list : Ascends 0 l.cmds l.grp
  pub last : (l.cmd.argv ≡ []) ⊎ (l.cmd.rungrp ≡ l.grp)

Ascends-le : (lo hi : ℕ) (cs : List Command) → Ascends lo cs hi → lo ≤ hi
Ascends-le lo hi [] h = h
Ascends-le lo hi (c ∷ cs) h = omega (arith, Ascends-le c.rungrp hi cs h.2)

Ascends-up : (lo hi : ℕ) (cs : List Command) → Ascends lo cs hi → Ascends lo cs (hi + 1)
Ascends-up lo hi [] h = omega arith
Ascends-up lo hi (c ∷ cs) h = (h.0, h.1, Ascends-up c.rungrp hi cs h.2)

Ascends-snoc :
    (lo hi : ℕ) (cs : List Command) (c : Command)
    → Ascends lo cs hi
    → c.argv ≢ []
    → c.rungrp ≡ hi
    → Ascends lo (cs ++ c ∷ []) hi
Ascends-snoc lo hi [] c h ne e = (omega arith, ne, omega arith)
Ascends-snoc lo hi (d ∷ cs) c h ne e = (h.0, h.1, Ascends-snoc d.rungrp hi cs c h.2 ne e)

snoc-ne_nil : (ws : List Word) (w : Word) → ws ++ w ∷ [] ≢ []
snoc-ne_nil [] w e = cc
snoc-ne_nil (x ∷ ws) w e = cc

add_cmd_node-Ascends :
    (l : Line) (argv : List Word)
    → l.cmd.argv ≡ argv
    → IsGrouped l
    → Ascends 0 (add_cmd_node l.ctrl l.cmd l.cmds) l.grp
unfolding add_cmd_node
add_cmd_node-Ascends l [] e g = rw (e, add_cmd_node) g.list
add_cmd_node-Ascends l (w ∷ ws) e g =
    rw (e, add_cmd_node)
      (Ascends-snoc 0 l.grp l.cmds (record l.cmd { ctrl_blk = l.ctrl }) g.list (λ n. cc)
        (ground (arith, e, g.last)))

next_command-IsGrouped : (l : Line) → IsGrouped l → IsGrouped (next_command l)
unfolding command_alloc
next_command-IsGrouped l g = record {
  list = add_cmd_node-Ascends l l.cmd.argv refl g;
  last = inl refl;
}

-- A later command than all of the group's predecessors: what stays in front of the group ascends.
before_group-Ascends :
    (lo grp : ℕ) (cs : List Command) → Ascends lo cs grp → Ascends lo (before_group grp cs) grp
unfolding before_group
before_group-Ascends lo grp [] h = h
before_group-Ascends lo grp (c ∷ cs) h =
    ground (arith, before_group-Ascends c.rungrp grp cs h.2, Ascends-le lo grp (c ∷ cs) h)

-- What a step leaves, where it leaves a line.
abbrev pub StepGrouped : Step → Type 0
StepGrouped (more l) = IsGrouped l
StepGrouped (subshell l) = IsGrouped l
StepGrouped exits = Unit
StepGrouped crashes = Unit

free_command_grp-Ascends :
    (grp : ℕ) (cs : List Command) {cs' : List Command}
    → Ascends 0 cs grp
    → free_command_grp grp cs ≡ some cs'
    → Ascends 0 cs' grp
unfolding free_command_grp
free_command_grp-Ascends grp [] h e = absurd (ground arith)
free_command_grp-Ascends grp (c ∷ cs) {cs'} h e = elim (Bool-cases (c.rungrp == grp)) [
  | inl same ↦ absurd (ground arith)
  | inr other ↦
      let eq : before_group grp (c ∷ cs) ≡ cs' = ground arith in
      subst (λ r. Ascends 0 r grp) eq (before_group-Ascends 0 grp (c ∷ cs) h)
]

drop_background-StepGrouped : (l : Line) → IsGrouped l → StepGrouped (drop_background l)
unfolding drop_background command_alloc
drop_background-StepGrouped l g = elim (Bool-cases (l.grp == 0)) [
  | inl z ↦ rw (z, drop_background) (record { list = omega arith; last = inl refl })
  | inr nz ↦ elim (Option-cases (free_command_grp l.grp l.cmds)) [
    | inl e ↦ rw (nz, e, drop_background) tt
    | inr (cs, e) ↦
        rw (nz, e, drop_background)
          (record { list = free_command_grp-Ascends l.grp l.cmds g.list e; last = inl refl })
  ]
]

on_background-StepGrouped :
    (f : ForkResult) (l : Line) → IsGrouped l → StepGrouped (on_background f l)
unfolding on_background
on_background-StepGrouped in_child l g = next_command-IsGrouped l g
on_background-StepGrouped in_parent l g = drop_background-StepGrouped _ (next_command-IsGrouped l g)
on_background-StepGrouped failed l g = drop_background-StepGrouped _ (next_command-IsGrouped l g)

on_word-StepGrouped :
    (w : Word) (r : CtrlResult) (l : Line) → IsGrouped l → StepGrouped (on_word w r l)
unfolding on_word command_append_arg
on_word-StepGrouped w (control s) l g = record { list = g.list; last = g.last }
on_word-StepGrouped w bad_order l g = tt
on_word-StepGrouped w not_control l g = record { list = g.list; last = inr refl }

set_redir-same :
    (r : RedirTo) (w : Word) (c : Command)
    → ((set_redir r w c).argv ≡ c.argv) × ((set_redir r w c).rungrp ≡ c.rungrp)
unfolding set_redir
set_redir-same RedirTo.rd_stdin w c = (refl, refl)
set_redir-same RedirTo.rd_stdout w c = (refl, refl)
set_redir-same RedirTo.rd_stderr w c = (refl, refl)
set_redir-same RedirTo.rd_app_stdout w c = (refl, refl)
set_redir-same RedirTo.rd_app_stderr w c = (refl, refl)

on_type-StepGrouped :
    (t : Token) (ty : TokenType) (l : Line) → IsGrouped l → StepGrouped (on_type t ty l)
unfolding on_type command_alloc
on_type-StepGrouped t redirection l g = record { list = g.list; last = g.last }
on_type-StepGrouped t pipe l g = next_command-IsGrouped _ (record { list = g.list; last = g.last })
on_type-StepGrouped t and_op l g = record {
  list = (next_command-IsGrouped l g).list;
  last = inl refl;
}
on_type-StepGrouped t or_op l g = record {
  list = (next_command-IsGrouped l g).list;
  last = inl refl;
}
on_type-StepGrouped t sequence l g = record {
  list = Ascends-up 0 l.grp _ (next_command-IsGrouped l g).list;
  last = inl refl;
}
on_type-StepGrouped t background l g = on_background-StepGrouped t.forked l g
on_type-StepGrouped t normal l g = on_word-StepGrouped t.text _ l g
on_type-StepGrouped t lparen l g = on_word-StepGrouped t.text _ l g
on_type-StepGrouped t rparen l g = on_word-StepGrouped t.text _ l g
on_type-StepGrouped t other_token l g = on_word-StepGrouped t.text _ l g

read_token-StepGrouped : (t : Token) (l : Line) → IsGrouped l → StepGrouped (read_token t l)
unfolding read_token
read_token-StepGrouped t l g = elim (Option-cases l.redir_nxt) [
  | inl e ↦ rw (e, read_token) (on_type-StepGrouped t t.type l g)
  | inr (r, e) ↦
      rw (e, read_token)
        (record { list = g.list; last = ground (arith, set_redir-same r t.text l.cmd, g.last) })
]

-- Every line that `eval_line` builds is grouped: its commands have words, and their groups ascend.
pub read_tokens-StepGrouped :
    (ts : List Token) (l : Line) → IsGrouped l → StepGrouped (read_tokens ts l)
unfolding read_tokens
read_tokens-StepGrouped [] l g = g
read_tokens-StepGrouped (t ∷ ts) l g =
    go (read_token t l) (read_token-StepGrouped t l g) (λ l'. read_tokens-StepGrouped ts l')
  where
    go :
        (s : Step)
        → StepGrouped s
        → ((l' : Line) → IsGrouped l' → StepGrouped (read_tokens ts l'))
        → StepGrouped (and_then s (λ l'. read_tokens ts l'))
    go (more l') h next = next l' h
    go (subshell l') h next = h
    go exits h next = tt
    go crashes h next = tt

-- The commands of the other groups.
abbrev pub outside : ℕ → List Command → List Command
outside grp [] = []
outside grp (c ∷ cs) = if c.rungrp == grp then outside grp cs else c ∷ outside grp cs

outside-nil : (grp lo : ℕ) (cs : List Command) → grp ≤ lo → Ascends lo cs grp → outside grp cs ≡ []
outside-nil grp lo [] h a = refl
outside-nil grp lo (c ∷ cs) h a = ground (
  arith,
  outside-nil grp c.rungrp cs (omega (arith, a.0)) a.2,
  Ascends-le c.rungrp grp cs a.2,
  a.0,
)

before_group-outside :
    (grp lo : ℕ) (cs : List Command) → Ascends lo cs grp → before_group grp cs ≡ outside grp cs
unfolding before_group
before_group-outside grp lo [] a = refl
before_group-outside grp lo (c ∷ cs) a = elim (Bool-cases (c.rungrp == grp)) [
  | inl e ↦ rw (e, before_group) (sym (outside-nil grp c.rungrp cs (ground arith) a.2))
  | inr e ↦ rw (e, before_group) (ap (λ r. c ∷ r) (before_group-outside grp c.rungrp cs a.2))
]

-- On an ascending list up to `grp`, `free_command_grp` keeps exactly the commands of other groups, in
-- order; where there are none it goes through a null pointer.
pub free_command_grp-outside :
    (grp : ℕ) (cs : List Command)
    → Ascends 0 cs grp
    → free_command_grp grp cs ≡ elim (outside grp cs) [ [] ↦ none | c ∷ rest ↦ some (c ∷ rest) ]
unfolding free_command_grp
free_command_grp-outside grp [] a = refl
free_command_grp-outside grp (c ∷ cs) a = elim (Bool-cases (c.rungrp == grp)) [
  | inl e ↦ rw (e, outside-nil grp c.rungrp cs (ground arith) a.2) refl
  | inr e ↦ rw (e, before_group-outside grp 0 (c ∷ cs) a, e) refl
]
