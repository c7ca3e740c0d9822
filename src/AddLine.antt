-- ===== src/AddLine.antt =====
-- conf.c: the checks of `add_line_to_file` on a line that was read; its scheduling stands in
-- `Load.Scheduled`.
use fcron.Prelude.{
  ℕ, ◌*◌, ◌^◌, leb, Bool, true, false, ◌&&◌, ◌||◌, Option, none, some, List, [], ◌∷◌, ltb, ◌==◌,
  if◌then◌else◌,
}
use fcron.Opt.{Flag, is}
use fcron.Save.{Bytes, SavedLine}

-- `strcspn(s, " \t\n;|") != strlen(s)`, or a dash in front.
abbrev pub is_special : ℕ → Bool
is_special c = c == b' ' || c == b'\t' || c == b'\n' || c == b';' || c == b'|'

unfoldable pub has_special : Bytes → Bool
has_special [] = false
has_special (c ∷ cs) = is_special c || has_special cs

unfoldable pub is_unsafe : Bytes → Bool
unfolding has_special
is_unsafe [] = false
is_unsafe (c ∷ cs) = c == b'-' || has_special (c ∷ cs)

abbrev pub safe_mailfrom : Option Bytes → Option Bytes
safe_mailfrom none = none
safe_mailfrom (some s) = if is_unsafe s then none else some s

abbrev pub is_null : Option Bytes → Bool
is_null none = true
is_null (some s) = false

abbrev pub safe_mailto : Bytes → Option Bytes → Option Bytes
safe_mailto owner none = none
safe_mailto owner (some s) = if is_unsafe s then some owner else some s

-- The owner's name, if the file's owner is not root.
abbrev pub run_as : Option Bytes → Option Bytes → Option Bytes
run_as none runas = runas
run_as (some owner) runas = some owner

-- `cl_timefreq < 1` of a `long`, which is negative from 2 ^ 63 on.
abbrev pub is_below_one : ℕ → Bool
is_below_one v = ltb v 1 || leb (2 ^ 63) v

-- The first part of `add_line_to_file`, in front of `set_next_exe_startup`: the line that is added, if it is valid.
unfoldable pub check_line : Option Bytes → Bytes → SavedLine → Option SavedLine
unfolding is_unsafe
check_line runas_str owner l =
    if is_null l.shell || is_null l.runas || is_null l.mailto
    then none
    else some (record l {
      runas = run_as runas_str l.runas;
      mailfrom = safe_mailfrom l.mailfrom;
      mailto = safe_mailto owner l.mailto;
      timefreq = if is Flag.freq l.option && is_below_one l.timefreq then 3600 * 24 else l.timefreq;
    })

-- In front of the lines, as the list is built.
abbrev pub add : Option SavedLine → List SavedLine → List SavedLine
add none ls = ls
add (some l) ls = l ∷ ls
