-- ===== src/Children/Unknown.antt =====
-- database.c: the end of a process that the list of running jobs does not know.
use fcron.Prelude.{
  ℕ, zero, suc, ◌+◌, ◌≤◌, ◌<◌, ◌≡◌, refl, ap, ap₂, sym, subst, false, Option, none, some, ltb, ◌==◌,
  if◌then◌else◌, arith, Bool-cases, inl, inr,
}
use fcron.UList.{UList, entry, next_at, u_list_last, below_last, u_list_first}
use fcron.State.{Exe, no_exe, Fcron, Env}
use fcron.Children.{seek, after_seek, one_child}

-- No entry has the process.
abbrev pub IsUnknown : ℕ → UList Exe → Type 0
IsUnknown pid l = (j : ℕ) → j < l.num_entries → (pid == (entry no_exe l j).ctrl_pid) ≡ false

-- A list whose iteration is at an entry, or does not run.
at : UList Exe → Option ℕ → UList Exe
at l cur = record l { cur_entry = cur; cur_removed = false }

module _ (l : UList Exe) (pid : ℕ) (unknown : IsUnknown pid l) where
  below_last-lt : (i : ℕ) → below_last i (u_list_last (at l (some i))) ≡ ltb (i + 1) l.num_entries
  unfolding at u_list_last below_last
  below_last-lt i = elim (Bool-cases (l.num_entries == 0)) [
    | inl e ↦ rw e (ground arith)
    | inr e ↦ rw e (ground arith)
  ]

  next_at-at :
      (i : ℕ)
      → next_at (at l (some i)) i ≡ at l (if ltb (i + 1) l.num_entries then some (i + 1) else none)
  unfolding at next_at
  next_at-at i = ap (λ b. at l (if b then some (i + 1) else none)) (below_last-lt i)

  seek-none : (fuel : ℕ) → seek fuel pid (at l none) ≡ at l none
  unfolding seek at
  seek-none zero = refl
  seek-none (suc fuel) = refl

  seek-IsUnknown :
      (fuel i : ℕ)
      → i < l.num_entries
      → l.num_entries ≤ i + fuel
      → seek fuel pid (at l (some i)) ≡ at l none
  unfolding seek at
  seek-IsUnknown zero i h f = absurd (omega arith)
  seek-IsUnknown (suc fuel) i h f = elim (Bool-cases (ltb (i + 1) l.num_entries)) [
    | inl more ↦
        rw (unknown i h, next_at-at i, more)
          (seek-IsUnknown fuel (i + 1) (ground arith) (omega arith))
    | inr end ↦ rw (unknown i h, next_at-at i, end) (seek-none fuel)
  ]

one_child-at :
    (env : Env) (ended : Option ℕ → Fcron → Fcron) (pid : ℕ) (s : Fcron) (l : UList Exe)
    → IsUnknown pid l
    → one_child env ended pid (record s { exe_list = at l none })
      ≡ some (record s { exe_list = at l none })
unfolding one_child u_list_first after_seek at
one_child-at env ended pid s l unknown =
    let t = record s { exe_list = at l none } in
    elim (Bool-cases (l.num_entries == 0)) [
      | inl e ↦ rw e (ap (after_seek env ended t) (seek-none l pid unknown (suc l.num_entries)))
      | inr e ↦ rw e (
          ap (after_seek env ended t)
            (seek-IsUnknown l pid unknown (suc l.num_entries) 0 (ground arith) (omega arith)))
    ]

-- When a process ends that no entry of the list of running jobs has, and no iteration over the list
-- is going on, `wait_chld` and `wait_all` go
-- through the whole list and leave everything as it is: no job is taken out of the list, whatever
-- is done for the jobs that have ended.
pub one_child-IsUnknown :
    (env : Env) (ended : Option ℕ → Fcron → Fcron) (pid : ℕ) (s : Fcron)
    → s.exe_list.cur_entry ≡ none
    → s.exe_list.cur_removed ≡ false
    → IsUnknown pid s.exe_list
    → one_child env ended pid s ≡ some s
unfolding at
one_child-IsUnknown env ended pid s idle kept unknown =
    let l = s.exe_list in
    let same : at l none ≡ l =
      ap₂ (λ c r. record l { cur_entry = c; cur_removed = r }) (sym idle) (sym kept) in
    subst
      (λ k. one_child env ended pid (record s { exe_list = k }) ≡ some (record s { exe_list = k }))
      same (one_child-at env ended pid s l unknown)
