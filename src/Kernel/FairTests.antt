-- ===== src/Kernel/FairTests.antt =====
-- Assign4/kernel.c: two processes that take turns.
use systems_programming.Prelude.{
  ℕ, zero, suc, some, ◌<◌, ◌≤◌, ◌≡◌, refl, inl, ◌==◌, if◌then◌else◌, arith, none,
}
use systems_programming.Kernel.State.{
  Kernel, Registers, timer, pid_owner, reserved, kernel_owned, po_free, free, runnable,
}
use systems_programming.Kernel.Check.{
  all_from, count_kernel_refs, check_page, check_entry, check_table, check_process, check_owner,
  check_referenced, check_owners, virtual_memory_check,
}
use systems_programming.Kernel.Display.{page_color, owner_color, address_color}
use systems_programming.Kernel.Drawing.{Drawable}
use systems_programming.Kernel.Exception.{resumes}
use systems_programming.Kernel.Fair.{Turns, exceptions, exceptions-turn}
use systems_programming.Kernel.Tests.{Mappings, small, registers}

-- Process 1 runs and 2 waits, each with its page table.
abbrev two : Kernel Mappings
two = record {
  processes = λ i.
      if i == 1
      then record { pid = i; state = runnable; pagetable = 8192; registers = registers 0 timer }
      else if i == 2
      then record { pid = i; state = runnable; pagetable = 12288; registers = registers 0 timer }
      else record { pid = i; state = free; pagetable = 0; registers = registers 0 timer };
  current = 1;
  ticks = 0;
  pageinfo = λ i.
      if i == 0
      then record { owner = reserved; refcount = 1 }
      else if i == 1
      then record { owner = kernel_owned; refcount = 1 }
      else if i == 2
      then record { owner = pid_owner 1; refcount = 1 }
      else if i == 3
      then record { owner = pid_owner 2; refcount = 1 }
      else record { owner = po_free; refcount = 0 };
  memory = λ t va. record { pn = none; pa = 0; perm = 0 };
  active_pagetable = 8192;
  console = λ i. 0;
  animation = record { last_ticks = 0; showing = 1 };
}

two_colors : (pn : ℕ) → pn < 8 → (color : ℕ) × (page_color (two.pageinfo pn) ≡ some color)
unfolding page_color owner_color
two_colors zero lt = (_, refl)
two_colors (suc zero) lt = (_, refl)
two_colors (suc (suc zero)) lt = (_, refl)
two_colors (suc (suc (suc zero))) lt = (_, refl)
two_colors (suc (suc (suc (suc zero)))) lt = (_, refl)
two_colors (suc (suc (suc (suc (suc zero))))) lt = (_, refl)
two_colors (suc (suc (suc (suc (suc (suc zero)))))) lt = (_, refl)
two_colors (suc (suc (suc (suc (suc (suc (suc zero))))))) lt = (_, refl)
two_colors (suc (suc (suc (suc (suc (suc (suc (suc n)))))))) lt = absurd (omega arith)

two-Drawable : Drawable small two
unfolding address_color
two-Drawable = record {
  physical = two_colors;
  aligned = λ q lt used. ground arith;
  mapped = λ q i lt used at. (b' ', refl);
}

two-Turns : Turns small two
unfolding virtual_memory_check check_owners check_referenced check_owner check_process check_table
    check_entry check_page count_kernel_refs all_from
two-Turns = record {
  own_slot = λ q. ground arith;
  in_table = omega arith;
  checked = refl;
  drawable = two-Drawable;
}

abbrev ticking : ℕ → Registers
ticking i = registers 0 timer

exceptions-turn_example :
    (n : ℕ) × (n ≤ 4)
    × (1 ≤ n)
    × ((k' : Kernel Mappings) × (exceptions small ticking n two ≡ resumes k') × (k'.current ≡ 2))
exceptions-turn_example =
    exceptions-turn small ticking two 2 (λ i. inl refl) two-Turns (omega arith) refl
