-- ===== src/Shell/IfLine.antt =====
-- Assign5/sh61.c: which lines the if statement's words let through.
use systems_programming.Prelude.{
  ◌≡◌, ◌≢◌, refl, Bool, true, false, Option, none, some, List, [], ◌∷◌, if◌then◌else◌, arith,
}
use systems_programming.Shell.Command.{
  Word, same_word, Ctrl, neutral, want_then, then_block, else_block,
}
use systems_programming.Shell.Control.{
  CtrlResult, not_control, control, bad_order, is_control_cmd, if_word, then_word, else_word,
  fi_word, on_if, on_then, on_else, on_fi,
}
use systems_programming.Shell.Parse.{
  Token, TokenType, normal, redirection, background, lparen, rparen, other_token,
}

-- The words of the if statement.
pub data Keyword : Type 0 where
  k_if k_then k_else k_fi : Keyword

unfoldable pub keyword : Word → Option Keyword
keyword w =
    if same_word w if_word
    then some k_if
    else if same_word w then_word
    then some k_then
    else if same_word w else_word
    then some k_else
    else if same_word w fi_word
    then some k_fi
    else none

-- if ... then ... fi, or if ... then ... else ... fi, again and again, with no nesting.
pub data IfLine : List Keyword → Type 0 where
  done : IfLine []
  short : {ks : List Keyword} → IfLine ks → IfLine (k_if ∷ k_then ∷ k_fi ∷ ks)
  long : {ks : List Keyword} → IfLine ks → IfLine (k_if ∷ k_then ∷ k_else ∷ k_fi ∷ ks)

-- The tokens that `eval_line` reads as words.
unfoldable pub is_word : TokenType → Bool
is_word normal = true
is_word lparen = true
is_word rparen = true
is_word other_token = true
is_word _ = false

-- The if words of a line, in order.
unfoldable pub keywords : List Token → List Keyword
keywords [] = []
keywords (t ∷ ts) =
    let rest = keywords ts in
    if is_word t.type then elim (keyword t.text) [ none ↦ rest | some k ↦ k ∷ rest ] else rest

-- A line with no redirection and no `&`.
abbrev pub IsPlain : List Token → Type 0
IsPlain [] = Unit {0}
IsPlain (t ∷ ts) = (t.type ≢ redirection) × (t.type ≢ background) × IsPlain ts

-- The state after some if words, as a table.
unfoldable pub advance : Ctrl → Keyword → Option Ctrl
advance neutral k_if = some want_then
advance want_then k_then = some then_block
advance then_block k_else = some else_block
advance then_block k_fi = some neutral
advance else_block k_fi = some neutral
advance _ _ = none

unfoldable pub advance_all : Ctrl → List Keyword → Option Ctrl
advance_all s [] = some s
advance_all s (k ∷ ks) = elim (advance s k) [ none ↦ none | some s' ↦ advance_all s' ks ]

-- What `is_control_cmd` answers, by the table.
abbrev pub answer : Ctrl → Option Keyword → CtrlResult
answer s none = not_control
answer s (some k) = elim (advance s k) [ none ↦ bad_order | some s' ↦ control s' ]

pub is_control_cmd-answer : (w : Word) (s : Ctrl) → is_control_cmd w s ≡ answer s (keyword w)
unfolding is_control_cmd keyword on_if on_then on_else on_fi advance
is_control_cmd-answer w neutral = ground arith
is_control_cmd-answer w want_then = ground arith
is_control_cmd-answer w then_block = ground arith
is_control_cmd-answer w else_block = ground arith

-- From each state, the rest of a line that ends outside an if statement.
abbrev pub Rest : Ctrl → List Keyword → Type 0
Rest neutral ks = IfLine ks
Rest want_then ks = IfLine (k_if ∷ ks)
Rest then_block ks = IfLine (k_if ∷ k_then ∷ ks)
Rest else_block ks = IfLine (k_if ∷ k_then ∷ k_else ∷ ks)

pub Rest-sound : (s : Ctrl) (ks : List Keyword) → advance_all s ks ≡ some neutral → Rest s ks
unfolding advance_all advance
Rest-sound neutral [] h = done
Rest-sound want_then [] h = absurd (ground arith)
Rest-sound then_block [] h = absurd (ground arith)
Rest-sound else_block [] h = absurd (ground arith)
Rest-sound neutral (k_if ∷ ks) h = Rest-sound want_then ks h
Rest-sound want_then (k_then ∷ ks) h = Rest-sound then_block ks h
Rest-sound then_block (k_else ∷ ks) h = Rest-sound else_block ks h
Rest-sound then_block (k_fi ∷ ks) h = short (Rest-sound neutral ks h)
Rest-sound else_block (k_fi ∷ ks) h = long (Rest-sound neutral ks h)
Rest-sound neutral (k ∷ ks) h = absurd (ground arith)
Rest-sound want_then (k ∷ ks) h = absurd (ground arith)
Rest-sound then_block (k ∷ ks) h = absurd (ground arith)
Rest-sound else_block (k ∷ ks) h = absurd (ground arith)

pub IfLine-complete : {ks : List Keyword} → IfLine ks → advance_all neutral ks ≡ some neutral
unfolding advance_all advance
IfLine-complete done = refl
IfLine-complete (short r) = IfLine-complete r
IfLine-complete (long r) = IfLine-complete r
