-- ===== src/Kernel/Booting.antt =====
-- Assign4/kernel.c, `process_setup` and `kernel`: the table that the machine starts with.
use native.Mathlib.Decide.{ℕ_discrete}
use systems_programming.Prelude.{
  ℕ, zero, suc, ◌<◌, ap, ◌+◌, ◌-◌, ◌≡◌, ◌≢◌, refl, sym, ◌∙◌, ◌&&◌, ◌||◌, Option, none, some, inl,
  inr, List, ltb, leb, arith, if◌then◌else◌, Bool-cases, Option-cases, update,
}
use systems_programming.Kernel.State.{Hardware, Kernel, Proc, pid_owner, free, runnable, set_state}
use systems_programming.Kernel.Pages.{alloc_free_page, copy_pagetable}
use systems_programming.Kernel.Alloc.{AddressLaws}
use systems_programming.Kernel.ForkFrame.{alloc_free_page-Extends, copy_pagetable-Extends}
use systems_programming.Kernel.Invariant.{Orderly}
use systems_programming.Kernel.Schedule.{run}
use systems_programming.Kernel.Loader.{Images, Loaded, loaded, minus_one, asserts, program_load}
use systems_programming.Kernel.Loading.{
  Grants, Grants-trans, Grants-same, Extends-Grants, LoadedPost, program_load-LoadedPost,
}
use systems_programming.Kernel.Boot.{
  pageinfo_init, clear_processes, give_table, setup_table, map_stack, set_esp, setup_stack,
  finish_setup, process_setup, setup_range, setup_command, map_kernel, kernel, is_command,
  fork_command, forkexit_command,
}
use systems_programming.Kernel.Pageinfo.{PageLaws, pageinfo_init-owner, initial_owner-zero}

-- process_init sets registers: a process keeps its number and its state.
pub record ProcessInitLaws {Memory : Type 0} (images : Images Memory) : Type 0 where
  pub same_pid : (p : Proc) (flags : ℕ) → (images.process_init p flags).pid ≡ p.pid
  pub same_state : (p : Proc) (flags : ℕ) → (images.process_init p flags).state ≡ p.state

module _ {Memory : Type 0} (hw : Hardware Memory) (images : Images Memory) (laws : AddressLaws hw)
    (init : ProcessInitLaws images) where
  give_table-Grants :
      (pid : ℕ) (r : Option ℕ × Kernel Memory) → Grants pid r.1 (give_table hw images pid r)
  unfolding give_table
  give_table-Grants pid (answer, k) =
      Grants-same pid k _ (λ i. ground arith) (λ i. ground arith) (λ j. ground arith)

  setup_table-Grants : (pid : ℕ) (k : Kernel Memory) → Grants pid k (setup_table hw images pid k)
  unfolding setup_table
  setup_table-Grants pid k =
      let k1 : Kernel Memory = record k {
        processes = update k.processes pid (images.process_init (k.processes pid) 0);
      } in
      let first : Grants pid k k1 =
        Grants-same pid k k1 (λ i. ground (arith, init.same_pid (k.processes pid) 0))
          (λ i. ground (arith, init.same_state (k.processes pid) 0)) (λ j. refl) in
      Grants-trans pid first (
        Grants-trans pid
          (Extends-Grants pid (copy_pagetable-Extends hw laws pid k1 hw.kernel_pagetable))
          (give_table-Grants pid (copy_pagetable hw k1 hw.kernel_pagetable (pid_owner pid))))

  setup_stack-Grants : (pid : ℕ) (k : Kernel Memory) → Grants pid k (setup_stack hw images pid k)
  unfolding setup_stack map_stack
  setup_stack-Grants pid k =
      let k1 = set_esp hw images pid hw.memsize_virtual k in
      let first : Grants pid k k1 =
        Grants-same pid k k1 (λ i. ground arith) (λ i. ground arith) (λ j. refl) in
      elim (Option-cases (alloc_free_page hw k1 (pid_owner pid))) [
        | inl e ↦
            rw (e, setup_stack, map_stack)
              (record {
                same_pid = first.same_pid;
                same_state = first.same_state;
                owner = first.owner;
              })
        | inr ((page, k2), e) ↦
            let g =
              Grants-trans pid first
                (Extends-Grants pid (alloc_free_page-Extends hw laws pid k1 e)) in
            rw (e, setup_stack, map_stack)
              (record { same_pid = g.same_pid; same_state = g.same_state; owner = g.owner })
      ]

  -- With the tables of process `pid` set up in state `k`, its program is not loaded: program_load
  -- returns -1, or fails an assertion.
  abbrev pub LoadFails : ℕ → ℕ → Kernel Memory → Type 0
  LoadFails pid program k =
      (k' : Kernel Memory)
      → program_load hw images pid program (setup_table hw images pid k) ≢ loaded k'

  -- Of `n` processes from `lo` on, some are set up, and the program of the next is not loaded.
  abbrev pub RangeFails : ℕ → ℕ → Kernel Memory → Type 0
  RangeFails lo n k =
      (m : ℕ) × (m < n)
      × ((k1 : Kernel Memory) × (setup_range hw images m lo k ≡ some k1)
          × LoadFails (lo + m) (lo + m - 1) k1)

  -- The processes from `lo` on are started, `n` of them; the others are as before.
  pub record Starts (lo n : ℕ) (k k' : Kernel Memory) : Type 0 where
    pub orderly : Orderly hw k'
    pub states :
        (i : ℕ)
        → (k'.processes i).state
          ≡ (if leb lo i && ltb i (lo + n) then runnable else (k.processes i).state)

  abbrev pub StartsPost : Type 0 → ℕ → ℕ → Kernel Memory → Option (Kernel Memory) → Type 0
  StartsPost fails lo n k none = fails
  StartsPost fails lo n k (some k') = Starts lo n k k'

  set_runnable-Starts :
      (pid : ℕ) (k k' : Kernel Memory)
      → pid ≢ 0
      → Orderly hw k
      → Grants pid k k'
      → Starts pid 1 k (set_state k' pid runnable)
  set_runnable-Starts pid k k' nz o g = record {
    orderly = record {
      own_slot = λ i. ground (arith, g.same_pid i, o.own_slot i);
      zero_free = ground (arith, nz, g.same_state 0, o.zero_free);
      owners = λ j q h own qnz f. elim (ℕ_discrete q pid) [
        | yes e ↦ ground (arith, e, f)
        | no ne ↦ elim (g.owner j) [
          | inl same ↦ o.owners j q h (sym same ∙ own) qnz (ground (arith, ne, f, g.same_state q))
          | inr mine ↦ ne (ground (arith, mine, own))
        ]
      ];
    };
    states = λ i. elim (ℕ_discrete i pid) [
      | yes e ↦ ground (arith, e)
      | no ne ↦ ground (arith, ne, g.same_state i)
    ];
  }

  process_setup-StartsPost :
      (pid program : ℕ) (k : Kernel Memory)
      → pid ≢ 0
      → Orderly hw k
      → StartsPost (LoadFails pid program k) pid 1 k (process_setup hw images pid program k)
  unfolding process_setup finish_setup
  process_setup-StartsPost pid program k nz o =
      go (program_load hw images pid program t) refl
        (program_load-LoadedPost hw images pid program t (g.same_pid pid ∙ o.own_slot pid))
    where
      t : Kernel Memory
      t = setup_table hw images pid k

      g : Grants pid k t
      g = setup_table-Grants pid k

      go :
          (r : Loaded Memory)
          → program_load hw images pid program t ≡ r
          → LoadedPost pid t r
          → StartsPost (LoadFails pid program k) pid 1 k (finish_setup hw images pid r)
      go (loaded k') e p =
          set_runnable-Starts pid k (setup_stack hw images pid k') nz o
            (Grants-trans pid g (Grants-trans pid p (setup_stack-Grants pid k')))
      go (minus_one k') e p = λ k2 f. cc
      go asserts e p = λ k2 f. cc

  Starts-trans :
      (lo n : ℕ) (k k1 k2 : Kernel Memory)
      → Starts lo 1 k k1
      → Starts (lo + 1) n k1 k2
      → Starts lo (suc n) k k2
  Starts-trans lo n k k1 k2 a b = record {
    orderly = b.orderly;
    states = λ i. b.states i ∙ ground (arith, a.states i);
  }

  -- A process is started, and then those behind it.
  StartsPost-then :
      (lo n : ℕ) (k : Kernel Memory) (r : Option (Kernel Memory))
      (next : Kernel Memory → Option (Kernel Memory)) (first later : Type 0)
      → StartsPost first lo 1 k r
      → (first → later)
      → ((k1 : Kernel Memory)
          → Orderly hw k1
          → r ≡ some k1
          → StartsPost later (lo + 1) n k1 (next k1))
      → StartsPost later lo
          (suc n)
          k
          (elim r as (λ _. Option (Kernel Memory)) [ none ↦ none | some k1 ↦ next k1 ])
  StartsPost-then lo n k none next first later p h f = h p
  StartsPost-then lo n k (some k1) next first later p h f = go (next k1) (f k1 p.orderly refl)
    where
      go :
          (r : Option (Kernel Memory))
          → StartsPost later (lo + 1) n k1 r
          → StartsPost later lo (suc n) k r
      go none q = q
      go (some k2) q = Starts-trans lo n k k1 k2 p q

  -- A failure behind the first process of a range.
  RangeFails-later :
      (lo n : ℕ) (k k1 : Kernel Memory)
      → process_setup hw images lo (lo - 1) k ≡ some k1
      → RangeFails (lo + 1) n k1
      → RangeFails lo (suc n) k
  unfolding setup_range
  RangeFails-later lo n k k1 e (m, lt, (k2, at, fails)) = (
    suc m,
    omega (arith, lt),
    (
      k2,
      rw (e, setup_range) at,
      λ k3 f. fails k3 (
          ap (λ x. program_load hw images x (x - 1) (setup_table hw images x k2)) (omega arith)
          ∙ f),
    ),
  )

  RangeFails-widen :
      (lo n : ℕ) (k : Kernel Memory) (r : Option (Kernel Memory)) (k1 k2 : Kernel Memory)
      → process_setup hw images lo (lo - 1) k ≡ some k1
      → StartsPost (RangeFails (lo + 1) n k1) (lo + 1) n k2 r
      → StartsPost (RangeFails lo (suc n) k) (lo + 1) n k2 r
  RangeFails-widen lo n k none k1 k2 e p = RangeFails-later lo n k k1 e p
  RangeFails-widen lo n k (some k3) k1 k2 e p = p

  setup_range-StartsPost :
      (left i : ℕ) (k : Kernel Memory)
      → i ≢ 0
      → Orderly hw k
      → StartsPost (RangeFails i left k) i left k (setup_range hw images left i k)
  unfolding setup_range
  setup_range-StartsPost zero i k nz o = record { orderly = o; states = λ q. ground arith }
  setup_range-StartsPost (suc left) i k nz o =
      StartsPost-then i left k (process_setup hw images i (i - 1) k)
        (λ k1. setup_range hw images left (i + 1) k1) (LoadFails i (i - 1) k)
        (RangeFails i (suc left) k) (process_setup-StartsPost i (i - 1) k nz o)
        (λ f. (
          0,
          omega arith,
          (
            k,
            refl,
            λ k' e. f k' (
                ap (λ x. program_load hw images x (x - 1) (setup_table hw images x k)) (omega arith)
                ∙ e),
          ),
        ))
        (λ k1 o1 e.
          RangeFails-widen i left k (setup_range hw images left (i + 1) k1) k1 k1 e
            (setup_range-StartsPost left (i + 1) k1 (omega arith) o1))

  -- How many processes a command starts.
  abbrev pub started : Option (List ℕ) → ℕ
  started command =
      if is_command fork_command command || is_command forkexit_command command then 1 else 4

  -- A program that the command names is not loaded, where those before it are.
  abbrev pub CommandFails : Option (List ℕ) → Kernel Memory → Type 0
  CommandFails command k =
      if is_command fork_command command
      then LoadFails 1 4 k
      else if is_command forkexit_command command
      then LoadFails 1 5 k
      else RangeFails 1 4 k

  setup_command-StartsPost :
      (command : Option (List ℕ)) (k : Kernel Memory)
      → Orderly hw k
      → StartsPost
          (CommandFails command k)
          1
          (started command)
          k
          (setup_command hw images command k)
  unfolding setup_command
  setup_command-StartsPost command k o = elim (Bool-cases (is_command fork_command command)) [
    | inl e ↦ rw (e, setup_command) (process_setup-StartsPost 1 4 k (omega arith) o)
    | inr e ↦ elim (Bool-cases (is_command forkexit_command command)) [
      | inl f ↦ rw (e, f, setup_command) (process_setup-StartsPost 1 5 k (omega arith) o)
      | inr f ↦ rw (e, f, setup_command) (setup_range-StartsPost 4 1 k (omega arith) o)
    ]
  ]

  -- Before a process is set up, nobody owns a page of physical memory.
  cleared-Orderly :
      PageLaws hw
      → (k : Kernel Memory)
      → Orderly hw (map_kernel hw images (clear_processes hw (pageinfo_init hw k)))
  unfolding map_kernel clear_processes
  cleared-Orderly pages k = record {
    own_slot = λ i. refl;
    zero_free = refl;
    owners = λ j q h own nz f.
        nz (initial_owner-zero hw _ q (sym (pageinfo_init-owner hw pages k j h).0 ∙ own));
  }

  -- The machine runs process 1 under its own page table; the processes that the command names are
  -- runnable, and the others free.
  pub record Running (command : Option (List ℕ)) (k : Kernel Memory) : Type 0 where
    pub orderly : Orderly hw k
    pub first : k.current ≡ 1
    pub table : k.active_pagetable ≡ (k.processes 1).pagetable
    pub states :
        (i : ℕ)
        → (k.processes i).state
          ≡ (if leb 1 i && ltb i (1 + started command) then runnable else free)

  -- The state in which the first process is set up: no process yet, every page with its initial owner,
  -- and the memory of the kernel mapped.
  abbrev pub cleared : Kernel Memory → Kernel Memory
  cleared k = map_kernel hw images (clear_processes hw (pageinfo_init hw k))

  abbrev pub BootPost : Option (List ℕ) → Kernel Memory → Option (Kernel Memory) → Type 0
  BootPost command k none = CommandFails command (cleared k)
  BootPost command k (some k') = Running command k'

  -- The start of the machine, whatever was in its memory, where the address macros and process_init
  -- obey their laws: it runs process 1 under its own page table with an orderly table, in which the
  -- processes that the command names are runnable and the others free; or it stops at an assertion,
  -- and then the program of the first of those processes that is not set up is not loaded, in the
  -- state in which those before it are.
  pub kernel-BootPost :
      PageLaws hw
      → (command : Option (List ℕ)) (k : Kernel Memory)
      → BootPost command k (kernel hw images command k)
  unfolding kernel run map_kernel clear_processes
  kernel-BootPost pages command k =
      go (setup_command hw images command (cleared k)) refl
        (setup_command-StartsPost command (cleared k) (cleared-Orderly pages k))
    where
      go :
          (r : Option (Kernel Memory))
          → setup_command hw images command (cleared k) ≡ r
          → StartsPost (CommandFails command (cleared k)) 1 (started command) (cleared k) r
          → BootPost command k (kernel hw images command k)
      go none e p = rw (e, kernel) p
      go (some k1) e p =
          let one : (k1.processes 1).state ≡ runnable = p.states 1 ∙ ground arith in
          rw (e, kernel, run, one)
            (record {
              orderly = record {
                own_slot = p.orderly.own_slot;
                zero_free = p.orderly.zero_free;
                owners = p.orderly.owners;
              };
              first = refl;
              table = refl;
              states = p.states;
            })
