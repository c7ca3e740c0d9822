-- ===== src/Account.antt =====
-- database.c: what `cl_numexe` counts, the running jobs of a line and its entries in the two queues
-- of jobs that wait.
pub mod Run
pub mod SerialQueue
pub mod Failed
use fcron.Prelude.{
  ℕ, ◌+◌, ◌≤◌, ◌≡◌, ◌∙◌, Bool, true, false, Option, none, some, List, [], ◌∷◌, ◌++◌, map, ◌==◌,
  if◌then◌else◌, arith, drop, take, ap, sym, take-append-drop,
}
use fcron.Serial.Fifo
use fcron.Serial.{Serial}
use fcron.UList.Add
use fcron.State.{Exe, Lavg, Fcron}

abbrev pub is_line : ℕ → Option ℕ → Bool
is_line j none = false
is_line j (some i) = i == j

-- How often a line stands in a list.
abbrev pub occurrences : ℕ → List (Option ℕ) → ℕ
occurrences j [] = 0
occurrences j (x ∷ xs) = (if is_line j x then 1 else 0) + occurrences j xs

pub occurrences-append :
    (j : ℕ) (xs ys : List (Option ℕ))
    → occurrences j (xs ++ ys) ≡ occurrences j xs + occurrences j ys
occurrences-append j [] ys = omega arith
occurrences-append j (x ∷ xs) ys = omega (arith, occurrences-append j xs ys)

abbrev pub exe_lines : List Exe → List (Option ℕ)
exe_lines es = map (λ e. e.line) es

abbrev pub lavg_lines : List Lavg → List (Option ℕ)
lavg_lines es = map (λ e. e.line) es

-- The running jobs of a line, and its entries in the serial queue and in the load average queue.
abbrev pub running : ℕ → Fcron → ℕ
running j s = occurrences j (exe_lines (Add.contents s.exe_list))

abbrev pub in_serial : ℕ → Fcron → ℕ
in_serial j s = occurrences j (Fifo.contents s.serial)

abbrev pub in_lavg : ℕ → Fcron → ℕ
in_lavg j s = occurrences j (lavg_lines (Add.contents s.lavg_list))

-- The queues are well-formed, the list of running jobs has no largest size, and every line's
-- `cl_numexe` is the number of its jobs that run or wait.
pub record IsAccounted (s : Fcron) : Type 0 where
  pub exe_valid : Add.IsValid s.exe_list
  pub exe_unlimited : s.exe_list.max_entries ≡ 0
  pub serial_valid : Fifo.IsValid s.serial
  pub lavg_valid : Add.IsValid s.lavg_list
  pub counted : (j : ℕ) → (s.lines j).numexe ≡ running j s + in_serial j s + in_lavg j s
