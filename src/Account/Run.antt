-- ===== src/Account/Run.antt =====
-- database.c: the count of jobs in `run_queue_job` and `run_normal_job`.
use fcron.Prelude.{
  ℕ, ◌+◌, ◌≡◌, ◌⊎◌, refl, ap, ◌∙◌, Bool, true, false, ◌&&◌, ◌||◌, Option, none, some, List, [], ◌∷◌,
  ◌++◌, ltb, ◌==◌, if◌then◌else◌, arith, inl, inr, Bool-cases, ==_iff,
}
use fcron.Line.{Line}
use fcron.Opt.{is, exe_sev}
use fcron.UList.Add
use fcron.State.{Exe, no_exe, Fcron, put_line, update, uchar_max}
use fcron.Account.{is_line, occurrences-append, exe_lines, running, IsAccounted}
use fcron.Run.{after_fork, fork, exe_list_add, run_queue_job, add_numexe, run_normal_job}

exe_lines-append : (xs ys : List Exe) → exe_lines (xs ++ ys) ≡ exe_lines xs ++ exe_lines ys
exe_lines-append [] ys = refl
exe_lines-append (x ∷ xs) ys = ap (λ l. x.line ∷ l) (exe_lines-append xs ys)

-- One more for the line itself.
abbrev pub one_for : ℕ → ℕ → ℕ
one_for line j = if line == j then 1 else 0

-- The list of running jobs with one more entry.
pub record Added (e : Exe) (s t : Fcron) : Type 0 where
  pub lines_same : t.lines ≡ s.lines
  pub serial_same : t.serial ≡ s.serial
  pub lavg_same : t.lavg_list ≡ s.lavg_list
  pub valid : Add.IsValid t.exe_list
  pub unlimited : t.exe_list.max_entries ≡ 0
  pub more : Add.contents t.exe_list ≡ Add.contents s.exe_list ++ (e ∷ [])

pub exe_list_add-Added :
    (e : Exe) (s : Fcron)
    → Add.IsValid s.exe_list
    → s.exe_list.max_entries ≡ 0
    → Added e s (exe_list_add e s)
unfolding exe_list_add
exe_list_add-Added e s v m =
    let (l, eq, c, v', m') = Add.u_list_add-contents no_exe s.exe_list e v (inl m) in
    rw (exe_list_add, eq)
      (record {
        lines_same = refl;
        serial_same = refl;
        lavg_same = refl;
        valid = v';
        unlimited = m' ∙ m;
        more = c;
      })

pub occurrences-Added :
    (j : ℕ) (e : Exe) (s t : Fcron)
    → Added e s t
    → running j t ≡ running j s + (if is_line j e.line then 1 else 0)
occurrences-Added j e s t a =
    rw (a.more, exe_lines-append (Add.contents s.exe_list) (e ∷ []))
      (occurrences-append j (exe_lines (Add.contents s.exe_list)) (e.line ∷ []) ∙ omega arith)

-- A job has been started: one more runs for the line, and nothing else has changed.
pub record Started (line : ℕ) (s t : Fcron) : Type 0 where
  pub lines_same : t.lines ≡ s.lines
  pub serial_same : t.serial ≡ s.serial
  pub lavg_same : t.lavg_list ≡ s.lavg_list
  pub exe_valid : Add.IsValid t.exe_list
  pub exe_unlimited : t.exe_list.max_entries ≡ 0
  pub one_more : (j : ℕ) → running j t ≡ running j s + one_for line j

pub fork-last : (s : Fcron) → s.forks ≡ [] → fork s ≡ (none, s)
unfolding fork
fork-last s e =
    ap {B = Option ℕ × Fcron}
      (λ l. elim l [ [] ↦ (none, s) | q ∷ qs ↦ (q, record s { forks = qs }) ]) e

pub fork-next :
    (r : Option ℕ) (rest : List (Option ℕ)) (s : Fcron)
    → s.forks ≡ r ∷ rest
    → fork s ≡ (r, record s { forks = rest })
unfolding fork
fork-next r rest s e =
    ap {B = Option ℕ × Fcron}
      (λ l. elim l [ [] ↦ (none, s) | q ∷ qs ↦ (q, record s { forks = qs }) ]) e

pub run_queue_job-Started :
    (line p : ℕ) (rest : List (Option ℕ)) (s : Fcron)
    → s.forks ≡ some p ∷ rest
    → Add.IsValid s.exe_list
    → s.exe_list.max_entries ≡ 0
    → Started line s (run_queue_job line s)
unfolding run_queue_job after_fork
run_queue_job-Started line p rest s e v m =
    let exe : Exe = record { line = some line; ctrl_pid = p } in
    let a = exe_list_add-Added exe (record s { forks = rest }) v m in
    rw (run_queue_job, fork-next (some p) rest s e)
      (record {
        lines_same = a.lines_same;
        serial_same = a.serial_same;
        lavg_same = a.lavg_same;
        exe_valid = a.valid;
        exe_unlimited = a.unlimited;
        one_more = λ j. occurrences-Added j exe (record s { forks = rest }) _ a;
      })

pub numexe-add_numexe :
    (line j : ℕ) (s : Fcron)
    → ((add_numexe line s).lines j).numexe ≡ (s.lines j).numexe + one_for line j
unfolding add_numexe
numexe-add_numexe line j s = elim (Bool-cases (line == j)) [
  | inl e ↦ rw (put_line, update, e) (ap (λ k. (s.lines k).numexe + 1) ((==_iff line j).0 e))
  | inr e ↦ rw (put_line, update, e) (omega arith)
]

-- A job that is counted and started keeps the count.
Started-IsAccounted :
    (line : ℕ) (s t : Fcron) → IsAccounted s → Started line (add_numexe line s) t → IsAccounted t
unfolding add_numexe
Started-IsAccounted line s t a b = record {
  exe_valid = b.exe_valid;
  exe_unlimited = b.exe_unlimited;
  serial_valid = rw b.serial_same a.serial_valid;
  lavg_valid = rw b.lavg_same a.lavg_valid;
  counted = λ j.
      rw (b.lines_same, b.serial_same, b.lavg_same)
        (numexe-add_numexe line j s ∙ omega (arith, a.counted j, b.one_more j));
}

-- May the line run now: `run_normal_job`'s test.
abbrev pub may_run : Line → Bool
may_run l = l.numexe == 0 || (is exe_sev l.option && ltb l.numexe uchar_max)

-- `run_normal_job` keeps the count, if `fork` gives a process: a line that may run is counted and
-- runs once more, and a line that runs already, or UCHAR_MAX times with the option `exesev`, leaves
-- everything as it is.
pub run_normal_job-IsAccounted :
    (line p : ℕ) (rest : List (Option ℕ)) (s : Fcron)
    → IsAccounted s
    → s.forks ≡ some p ∷ rest
    → let t = run_normal_job line s in
      IsAccounted t
      × (((may_run (s.lines line) ≡ true) × ((j : ℕ) → running j t ≡ running j s + one_for line j))
          ⊎ ((may_run (s.lines line) ≡ false) × (t ≡ s)))
unfolding run_normal_job add_numexe
run_normal_job-IsAccounted line p rest s a e =
    let started =
      run_queue_job-Started line p rest (add_numexe line s) e a.exe_valid a.exe_unlimited in
    elim (Bool-cases (may_run (s.lines line))) [
      | inl idle ↦
          rw (run_normal_job, idle)
            (Started-IsAccounted line s _ a started, inl (refl, λ j. started.one_more j))
      | inr busy ↦ rw (run_normal_job, busy) (a, inr (refl, refl))
    ]
