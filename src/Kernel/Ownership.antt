-- ===== src/Kernel/Ownership.antt =====
-- Assign4/kernel.c, `free_current_process`: who owns each page afterwards.
use systems_programming.Prelude.{
  ap, update, ℕ, zero, suc, ◌+◌, ◌≤◌, ◌<◌, ◌≡◌, ◌≢◌, refl, ◌∙◌, true, ◌&&◌, some, inl, inr, ◌==◌,
  if◌then◌else◌, ltb, leb, arith, Bool-cases, Option-cases,
}
use systems_programming.Prelude.Search.{find_from-some}
use systems_programming.Kernel.State.{
  Hardware, Kernel, Proc, Owner, reserved, kernel_owned, pid_owner, owner_eq, PageInfo, free,
  blocked, runnable, ProcState, is_runnable, set_state,
}
use systems_programming.Kernel.Release.{
  maps_page, find_page_owner, release_page, release_body, release_pages, free_current_process,
}

pub owner_eq→eq : (a b : Owner) → owner_eq a b ≡ true → a ≡ b
owner_eq→eq reserved reserved h = refl
owner_eq→eq kernel_owned kernel_owned h = refl
owner_eq→eq (pid_owner a) (pid_owner b) h = ground arith
owner_eq→eq reserved (pid_owner b) h = ground arith
owner_eq→eq reserved kernel_owned h = ground arith
owner_eq→eq kernel_owned reserved h = ground arith
owner_eq→eq kernel_owned (pid_owner b) h = ground arith
owner_eq→eq (pid_owner a) reserved h = ground arith
owner_eq→eq (pid_owner a) kernel_owned h = ground arith

pub owner_eq_refl : (a : ℕ) → owner_eq (pid_owner a) (pid_owner a) ≡ true
owner_eq_refl a = ground arith

pub is_runnable→eq : (s : ProcState) → is_runnable s ≡ true → s ≡ runnable
is_runnable→eq runnable h = refl
is_runnable→eq free h = ground arith
is_runnable→eq blocked h = ground arith
is_runnable→eq ProcState.broken h = ground arith

module _ {Memory : Type 0} (hw : Hardware Memory) where
  -- The process found is a runnable one from 1 on.
  pub find_page_owner-runnable :
      (k : Kernel Memory) (i : ℕ) {q : ℕ}
      → find_page_owner hw k i ≡ some q
      → (1 ≤ q) × ((k.processes q).state ≡ runnable) × (maps_page hw k i q ≡ true)
  unfolding find_page_owner
  find_page_owner-runnable k i {q} h =
      let f = find_from-some _ _ 1 h in
      (
        f.lower,
        is_runnable→eq (k.processes q).state (ground (arith, f.passes)),
        ground (arith, f.passes),
      )

  -- The body writes page `i` only.
  release_body-pageinfo :
      (pid i : ℕ) (k : Kernel Memory) (j : ℕ)
      → (release_body hw pid i k).pageinfo j ≡ (
          if i == j && owner_eq (k.pageinfo j).owner (pid_owner pid)
          then release_page hw k j (k.pageinfo j)
          else k.pageinfo j)
  unfolding release_body
  release_body-pageinfo pid i k j = ground arith

  release_body-rest :
      (pid i : ℕ) (k : Kernel Memory)
      → ((release_body hw pid i k).processes ≡ k.processes)
        × ((release_body hw pid i k).memory ≡ k.memory)
        × ((release_body hw pid i k).current ≡ k.current)
  unfolding release_body
  release_body-rest pid i k = elim (Bool-cases (owner_eq (k.pageinfo i).owner (pid_owner pid))) [
    | inl e ↦ rw (e, release_body) (refl, refl, refl)
    | inr e ↦ rw (e, release_body) (refl, refl, refl)
  ]

  release_page-release_body :
      (pid i : ℕ) (k : Kernel Memory) (j : ℕ) (info : PageInfo)
      → release_page hw (release_body hw pid i k) j info ≡ release_page hw k j info
  unfolding release_body release_page find_page_owner maps_page
  release_page-release_body pid i k j info =
      elim (Bool-cases (owner_eq (k.pageinfo i).owner (pid_owner pid))) [
        | inl e ↦ rw (e, release_body) refl
        | inr e ↦ rw (e, release_body) refl
      ]

  -- The loop treats each page of its range by itself, against the state it started from.
  release_pages-pageinfo :
      (pid left i : ℕ) (k : Kernel Memory) (j : ℕ)
      → (release_pages hw pid left i k).pageinfo j ≡ (
          if leb i j && ltb j (i + left) && owner_eq (k.pageinfo j).owner (pid_owner pid)
          then release_page hw k j (k.pageinfo j)
          else k.pageinfo j)
  unfolding release_pages
  release_pages-pageinfo pid zero i k j = ground arith
  release_pages-pageinfo pid (suc left) i k j =
      release_pages-pageinfo pid left (i + 1) (release_body hw pid i k) j
      ∙ rw (release_body-pageinfo pid i k j, release_page-release_body pid i k j) (ground arith)

  release_pages-rest :
      (pid left i : ℕ) (k : Kernel Memory)
      → ((release_pages hw pid left i k).processes ≡ k.processes)
        × ((release_pages hw pid left i k).memory ≡ k.memory)
        × ((release_pages hw pid left i k).current ≡ k.current)
  unfolding release_pages
  release_pages-rest pid zero i k = (refl, refl, refl)
  release_pages-rest pid (suc left) i k =
      let (p, m, c) = release_pages-rest pid left (i + 1) (release_body hw pid i k) in
      let (p', m', c') = release_body-rest pid i k in (p ∙ p', m ∙ m', c ∙ c')

  -- The pages that `free_current_process` goes through.
  abbrev pub Physical : ℕ → Type 0
  Physical j = j < hw.page_number hw.memsize_physical

  pub free_current_process-pageinfo :
      (k : Kernel Memory) (slot j : ℕ)
      → Physical j
      → (free_current_process hw k slot).pageinfo j ≡ (
          if owner_eq (k.pageinfo j).owner (pid_owner (k.processes slot).pid)
          then release_page hw (set_state k slot blocked) j (k.pageinfo j)
          else k.pageinfo j)
  unfolding free_current_process
  free_current_process-pageinfo k slot j h =
      release_pages-pageinfo (k.processes slot).pid _ 0 (set_state k slot blocked) j ∙ ground arith

  pub free_current_process-outside :
      (k : Kernel Memory) (slot j : ℕ)
      → ¬ (Physical j)
      → (free_current_process hw k slot).pageinfo j ≡ k.pageinfo j
  unfolding free_current_process
  free_current_process-outside k slot j h =
      release_pages-pageinfo (k.processes slot).pid _ 0 (set_state k slot blocked) j ∙ ground arith

  pub free_current_process-processes :
      (k : Kernel Memory) (slot : ℕ)
      → (free_current_process hw k slot).processes
        ≡ (set_state (set_state k slot blocked) slot free).processes
  unfolding free_current_process
  free_current_process-processes k slot =
      let n = hw.page_number hw.memsize_physical in
      let (p, _, _) = release_pages-rest (k.processes slot).pid n 0 (set_state k slot blocked) in
      ap (λ (f : ℕ → Proc). update f slot (record (f slot) { state = free })) p

  pub free_current_process-current :
      (k : Kernel Memory) (slot : ℕ) → (free_current_process hw k slot).current ≡ k.current
  unfolding free_current_process
  free_current_process-current k slot =
      (release_pages-rest (k.processes slot).pid _ 0 (set_state k slot blocked)).2

  -- The process that gives its pages back is blocked, so the search passes it over.
  pub find_page_owner-ne :
      (k : Kernel Memory) (slot i : ℕ) {q : ℕ}
      → find_page_owner hw (set_state k slot blocked) i ≡ some q
      → (q ≢ slot) × ((k.processes q).state ≡ runnable) × (1 ≤ q)
  find_page_owner-ne k slot i {q} h =
      let (lower, run, _) = find_page_owner-runnable (set_state k slot blocked) i h in ground arith

  release_page-disowns :
      (k : Kernel Memory) (slot j : ℕ) (info : PageInfo)
      → slot ≢ 0
      → (release_page hw (set_state k slot blocked) j info).owner ≢ pid_owner slot
  unfolding release_page
  release_page-disowns k slot j info nz =
      elim (Option-cases (find_page_owner hw (set_state k slot blocked) j)) [
        | inl e ↦ ground arith
        | inr (q, e) ↦ ground (arith, find_page_owner-ne k slot j e)
      ]

  -- After `free_current_process` for a process in its own slot, no physical page is owned by it.
  pub free_current_process-disowns :
      (k : Kernel Memory) (slot j : ℕ)
      → slot ≢ 0
      → (k.processes slot).pid ≡ slot
      → Physical j
      → ((free_current_process hw k slot).pageinfo j).owner ≢ pid_owner slot
  free_current_process-disowns k slot j nz own h =
      elim (Bool-cases (owner_eq (k.pageinfo j).owner (pid_owner (k.processes slot).pid))) [
        | inl e ↦
            rw (free_current_process-pageinfo k slot j h, e) (release_page-disowns k slot j _ nz)
        | inr e ↦
            rw (free_current_process-pageinfo k slot j h, e)
              (λ o. ground (arith, owner_eq_refl slot))
      ]
