-- ===== src/Shell/Accept.antt =====
-- Assign5/sh61.c, `eval_line`: a line is run exactly when its if statements are complete.
use mathlib.Core.Path.{subst}
use systems_programming.Prelude.{
  ◌≡◌, ◌≢◌, ◌⊎◌, refl, ap, ◌∙◌, Option, none, some, List, [], ◌∷◌, if◌then◌else◌, arith, inl, inr,
  Bool-cases, Option-cases,
}
use systems_programming.Shell.Command.{Word, Ctrl, neutral, Command, add_cmd_node}
use systems_programming.Shell.Control.{is_control_cmd}
use systems_programming.Shell.Parse.{
  Token, TokenType, normal, redirection, sequence, background, pipe, and_op, or_op, lparen, rparen,
  other_token, Line, Step, more, subshell, exits, crashes, on_word, on_type, read_token, and_then,
  read_tokens, start_line, runs, exit_one, close_line, finish_line, parse_line,
}
use systems_programming.Shell.IfLine.{
  Keyword, keyword, IfLine, is_word, keywords, IsPlain, advance, advance_all, answer,
  is_control_cmd-answer, Rest-sound, IfLine-complete,
}

-- The step reaches the state, with no redirection pending; without a state it is exit(1).
abbrev Follows : Option Ctrl → Step → Type 0
Follows none exits = Unit
Follows none _ = ⊥
Follows (some s) (more l) = (l.ctrl ≡ s) × (l.redir_nxt ≡ none)
Follows (some s) _ = ⊥

-- The state after one token.
abbrev after_token : Ctrl → Token → Option Ctrl
after_token s t =
    if is_word t.type
    then elim (keyword t.text) [ none ↦ some s | some k ↦ advance s k ]
    else some s

on_word-Follows :
    (w : Word) (l : Line)
    → l.redir_nxt ≡ none
    → Follows
        (elim (keyword w) [ none ↦ some l.ctrl | some k ↦ advance l.ctrl k ])
        (on_word w (is_control_cmd w l.ctrl) l)
unfolding on_word
on_word-Follows w l e = rw (is_control_cmd-answer w l.ctrl) (go (keyword w))
  where
    go :
        (k : Option Keyword)
        → Follows
            (elim k [ none ↦ some l.ctrl | some k ↦ advance l.ctrl k ])
            (on_word w (answer l.ctrl k) l)
    go none = (refl, e)
    go (some k) = elim (Option-cases (advance l.ctrl k)) [
      | inl a ↦ rw (a, answer) tt
      | inr (s, a) ↦ rw (a, answer) (refl, e)
    ]

on_type-Follows :
    (t : Token) (ty : TokenType) (l : Line)
    → l.redir_nxt ≡ none
    → ty ≢ redirection
    → ty ≢ background
    → Follows
        (if is_word ty
          then elim (keyword t.text) [ none ↦ some l.ctrl | some k ↦ advance l.ctrl k ]
          else some l.ctrl)
        (on_type t ty l)
unfolding on_type is_word
on_type-Follows t normal l e nr nb = on_word-Follows t.text l e
on_type-Follows t lparen l e nr nb = on_word-Follows t.text l e
on_type-Follows t rparen l e nr nb = on_word-Follows t.text l e
on_type-Follows t other_token l e nr nb = on_word-Follows t.text l e
on_type-Follows t redirection l e nr nb = absurd (nr refl)
on_type-Follows t background l e nr nb = absurd (nb refl)
on_type-Follows t sequence l e nr nb = (refl, e)
on_type-Follows t pipe l e nr nb = (refl, e)
on_type-Follows t and_op l e nr nb = (refl, e)
on_type-Follows t or_op l e nr nb = (refl, e)

read_token-Follows :
    (t : Token) (l : Line)
    → l.redir_nxt ≡ none
    → t.type ≢ redirection
    → t.type ≢ background
    → Follows (after_token l.ctrl t) (read_token t l)
unfolding read_token
read_token-Follows t l e nr nb = rw (e, read_token) (on_type-Follows t t.type l e nr nb)

advance_all-keywords :
    (s : Ctrl) (t : Token) (ts : List Token)
    → advance_all s (keywords (t ∷ ts))
      ≡ elim (after_token s t) [ none ↦ none | some s' ↦ advance_all s' (keywords ts) ]
unfolding keywords advance_all
advance_all-keywords s t ts = elim (Bool-cases (is_word t.type)) [
  | inr e ↦ rw (e, keywords) refl
  | inl e ↦ elim (Option-cases (keyword t.text)) [
    | inl n ↦ rw (e, n, keywords) refl
    | inr (k, n) ↦ rw (e, n, keywords, advance_all) refl
  ]
]

pub read_tokens-Follows :
    (ts : List Token) (l : Line)
    → IsPlain ts
    → l.redir_nxt ≡ none
    → Follows (advance_all l.ctrl (keywords ts)) (read_tokens ts l)
unfolding read_tokens
read_tokens-Follows [] l p e = unfold keywords advance_all in (refl, e)
read_tokens-Follows (t ∷ ts) l p e = rw (advance_all-keywords l.ctrl t ts) (
    go (after_token l.ctrl t) (read_token t l) (read_token-Follows t l e p.0 p.1)
      (λ l' e'. read_tokens-Follows ts l' p.2 e'))
  where
    go :
        (o : Option Ctrl) (s : Step)
        → Follows o s
        → ((l' : Line)
            → l'.redir_nxt ≡ none
            → Follows (advance_all l'.ctrl (keywords ts)) (read_tokens ts l'))
        → Follows
            (elim o [ none ↦ none | some s' ↦ advance_all s' (keywords ts) ])
            (and_then s (λ l'. read_tokens ts l'))
    go none exits f next = tt
    go (some c) (more l') f next =
        subst (λ x. Follows (advance_all x (keywords ts)) (read_tokens ts l')) f.0 (next l' f.1)
    go none (more l') f next = absurd f
    go none (subshell l') f next = absurd f
    go none crashes f next = absurd f
    go (some c) (subshell l') f next = absurd f
    go (some c) exits f next = absurd f
    go (some c) crashes f next = absurd f

close_line-neutral :
    (l : Line)
    → l.ctrl ≡ neutral
    → close_line l none ≡ runs (add_cmd_node neutral l.cmd l.cmds) none
unfolding close_line
close_line-neutral l e = rw (e, close_line) (ap (λ s. runs (add_cmd_node s l.cmd l.cmds) none) e)

neutral-cases :
    (s : Ctrl)
    → (s ≡ neutral) ⊎ ((s ≢ neutral) × ((l : Line) → l.ctrl ≡ s → close_line l none ≡ exit_one))
unfolding close_line
neutral-cases neutral = inl refl
neutral-cases Ctrl.want_then = inr ((λ x. cc), λ l e. rw (e, close_line) refl)
neutral-cases Ctrl.then_block = inr ((λ x. cc), λ l e. rw (e, close_line) refl)
neutral-cases Ctrl.else_block = inr ((λ x. cc), λ l e. rw (e, close_line) refl)

-- `eval_line` runs the commands of a line with no redirection and no `&` exactly when its if words
-- form complete if statements, with no nesting; any other such line ends the shell.
pub parse_line-IfLine :
    (ts : List Token)
    → IsPlain ts
    → (IfLine (keywords ts) × ((cs : List Command) × (parse_line ts ≡ runs cs none)))
      ⊎ (¬ (IfLine (keywords ts)) × (parse_line ts ≡ exit_one))
unfolding parse_line finish_line start_line
parse_line-IfLine ts p =
    go (advance_all neutral (keywords ts)) refl (read_tokens ts (start_line neutral)) refl
      (read_tokens-Follows ts (start_line neutral) p refl)
  where
    go :
        (o : Option Ctrl)
        → advance_all neutral (keywords ts) ≡ o
        → (s : Step) → read_tokens ts (start_line neutral) ≡ s
        → Follows o s
        → (IfLine (keywords ts)
            × ((cs : List Command) × (finish_line (read_tokens ts (start_line neutral))
                  ≡ runs cs none)))
          ⊎ (¬ (IfLine (keywords ts))
              × (finish_line (read_tokens ts (start_line neutral)) ≡ exit_one))
    go none a exits r f = inr ((λ i. ground (arith, IfLine-complete i, a)), ap finish_line r)
    go (some c) a (more l) r f = elim (neutral-cases c) [
      | inl n ↦ inl (
        Rest-sound neutral (keywords ts) (a ∙ ap some n),
        (add_cmd_node neutral l.cmd l.cmds, ap finish_line r ∙ close_line-neutral l (f.0 ∙ n)),
      )
      | inr n ↦
          inr ((λ i. n.0 (ground (arith, IfLine-complete i, a))), ap finish_line r ∙ n.1 l f.0)
    ]
    go none a (more l) r f = absurd f
    go none a (subshell l) r f = absurd f
    go none a crashes r f = absurd f
    go (some c) a (subshell l) r f = absurd f
    go (some c) a exits r f = absurd f
    go (some c) a crashes r f = absurd f
