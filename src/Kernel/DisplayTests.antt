-- ===== src/Kernel/DisplayTests.antt =====
-- Assign4/kernel.c: the pictures of memory on a console of 80 columns.
use systems_programming.Prelude.{◌+◌, ◌*◌, ◌≡◌, refl, ◌&&◌, ltb, leb, if◌then◌else◌, arith}
use systems_programming.Kernel.State.{Console, Screen}
use systems_programming.Kernel.Display.{
  first_animation, next_process, skip_free, choose_process, memshow_physical,
}
use systems_programming.Kernel.Shown.{ScreenLaws, Shown, memshow_physical-Shown}
use systems_programming.Kernel.Tests.{small, booted}

abbrev columns : Screen
columns = record {
  cpos = λ r c. r * 80 + c;
  label = λ row n con i. if leb (row * 80 + 3) i && ltb i (row * 80 + 12) then b'0' else con i;
  title = λ con. con;
  title_for = λ name con. con;
}

columns_laws : ScreenLaws columns
columns_laws = record {
  cells = λ r c r' c' lt lt' e. (omega (arith, lt, lt', e), omega (arith, lt, lt', e));
  labels = λ row n r c con small lo hi. ground (arith, lo, hi);
}

abbrev blank : Console
blank i = b' '

memshow_physical-Shown_example :
    Shown small columns columns_laws booted (memshow_physical small columns booted blank)
memshow_physical-Shown_example =
    memshow_physical-Shown small columns columns_laws booted blank (omega arith)

-- Process 1 is the only one, so it is shown on and on.
shows_test : (choose_process small booted first_animation).showing ≡ 1
unfolding choose_process next_process skip_free first_animation
shows_test = refl
