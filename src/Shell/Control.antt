-- ===== src/Shell/Control.antt =====
-- Assign5/sh61.c, `is_control_cmd`: the words of the if statement.
use systems_programming.Prelude.{[], ◌∷◌, if◌then◌else◌}
use systems_programming.Shell.Command.{
  Word, same_word, Ctrl, neutral, want_then, then_block, else_block,
}

abbrev pub if_word : Word
if_word = b'i' ∷ b'f' ∷ []

abbrev pub then_word : Word
then_word = b't' ∷ b'h' ∷ b'e' ∷ b'n' ∷ []

abbrev pub else_word : Word
else_word = b'e' ∷ b'l' ∷ b's' ∷ b'e' ∷ []

abbrev pub fi_word : Word
fi_word = b'f' ∷ b'i' ∷ []

-- What the call does: return 0, return 1 with the state set, or exit(1).
pub data CtrlResult : Type 0 where
  not_control : CtrlResult
  control : Ctrl → CtrlResult
  bad_order : CtrlResult

unfoldable pub on_if : Ctrl → CtrlResult
on_if neutral = control want_then
on_if _ = bad_order

unfoldable pub on_then : Ctrl → CtrlResult
on_then want_then = control then_block
on_then _ = bad_order

unfoldable pub on_else : Ctrl → CtrlResult
on_else then_block = control else_block
on_else _ = bad_order

unfoldable pub on_fi : Ctrl → CtrlResult
on_fi else_block = control neutral
on_fi then_block = control neutral
on_fi _ = bad_order

unfoldable pub is_control_cmd : Word → Ctrl → CtrlResult
is_control_cmd token s =
    if same_word token if_word
    then on_if s
    else if same_word token then_word
    then on_then s
    else if same_word token else_word
    then on_else s
    else if same_word token fi_word
    then on_fi s
    else not_control
