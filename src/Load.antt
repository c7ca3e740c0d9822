-- ===== src/Load.antt =====
-- conf.c: `read_file`, which loads a binary fcrontab. The file is the list of bytes that `read` has not
-- given yet. What is left for `read` after calls of `getc`, which skip an unknown field, is a
-- parameter, as `getc` reads ahead. SELinux and the opening of the file are left out; what reading does to
-- the daemon stands in `Load.Scheduled`. A size that is negative as a `short`, or larger than the variable that the
-- data goes to, is an outcome of its own, as `read` then writes past the variable.
pub mod Ends
pub mod Fields
pub mod Parts
pub mod Times
pub mod Storable
pub mod RoundTrip
pub mod Safe
pub mod Scheduled
use fcron.Prelude.{
  ℕ, zero, suc, ◌+◌, ◌-◌, ◌*◌, ◌%◌, ◌^◌, Bool, true, false, not, ◌&&◌, ◌||◌, Option, none, some,
  List, [], ◌∷◌, ◌++◌, length, take, drop, get_or, replicate, ltb, leb, ◌==◌, ◌⊎◌, inl, inr,
  if◌then◌else◌,
}
use fcron.Bits.{Bitstring}
use fcron.Opt.{Flag, is, set_opt, clear_opt}
use fcron.AddLine.{check_line, add}
use fcron.EnvList.{strcmp_until, env_list_putenv}
use fcron.Save.{Bytes, Layout, Kind, SavedLine, SavedFile, file_version, number_of}

-- "USER" and "LOGNAME"
abbrev pub user_name : Bytes
user_name = b'U' ∷ b'S' ∷ b'E' ∷ b'R' ∷ []

abbrev pub log_name : Bytes
log_name = b'L' ∷ b'O' ∷ b'G' ∷ b'N' ∷ b'A' ∷ b'M' ∷ b'E' ∷ []

abbrev pub is_forbidden : Bytes → Bool
is_forbidden e = strcmp_until b'=' e user_name || strcmp_until b'=' e log_name

-- The list after `env_list_putenv`, which does nothing for an empty text.
unfoldable pub put_envvar : List Bytes → Bytes → List Bytes
unfolding env_list_putenv
put_envvar list b = elim (env_list_putenv list b true) [ none ↦ list | some l ↦ l ]

-- The values of config.h.in for SERIAL_ONCE and LAVG_ONCE.
abbrev pub serial_once : ℕ
serial_once = 0

abbrev pub lavg_once : ℕ
lavg_once = 1

unfoldable pub set_default_opt : Bitstring → Bitstring
set_default_opt opt =
    let o = if leb 1 serial_once then clear_opt Flag.serial_sev opt else opt in
    if lavg_once == 0 then set_opt Flag.lavg_sev o else o

-- A line that `Alloc` has cleared.
abbrev pub new_line : SavedLine
new_line = record {
  shell = none;
  runas = none;
  mailfrom = none;
  mailto = none;
  tz = none;
  until = 0;
  first = 0;
  nextexe = 0;
  timefreq = 0;
  remain = 0;
  runfreq = 0;
  option = replicate 4 0;
  lavg = replicate 3 0;
  numexe = 0;
  nice = 0;
  jitter = 0;
  mins = replicate 8 0;
  hrs = replicate 3 0;
  days = replicate 4 0;
  mons = replicate 2 0;
  dow = replicate 1 0;
}

-- `read` into memory that holds `old`: the first bytes are overwritten.
abbrev pub overwrite : Bytes → Bytes → Bytes
overwrite old new = new ++ drop (length new) old

abbrev pub overwrite_byte : ℕ → Bytes → ℕ
overwrite_byte old new = get_or (overwrite (old ∷ []) new) 0 0

-- The variables of `read_file` that live across the fields.
pub record Reader : Type 0 where
  pub cl : SavedLine
  pub bufi : ℕ
  pub has_read_cl_first : Bool
  pub file : SavedFile

-- The type with a number.
unfoldable pub find_kind : ℕ → List Kind → Option Kind
find_kind n [] = none
find_kind n (k ∷ ks) = if number_of k == n then some k else find_kind n ks

-- The types of the `switch`, in its order.
abbrev pub known : List Kind
known =
    Kind.envvar ∷ Kind.tzdiff ∷ Kind.tz ∷ Kind.shell ∷ Kind.runas ∷ Kind.mailfrom ∷ Kind.mailto
    ∷ Kind.nextexe ∷ Kind.first ∷ Kind.option ∷ Kind.numexe ∷ Kind.lavg ∷ Kind.until ∷ Kind.nice
    ∷ Kind.runfreq ∷ Kind.remain ∷ Kind.timefreq ∷ Kind.jitter ∷ Kind.mins ∷ Kind.hrs ∷ Kind.days
    ∷ Kind.mons ∷ Kind.dow ∷ Kind.endline ∷ []

-- What `read_file` ends with. `overrun`: it writes past a variable.
pub data Outcome : Type 0 where
  loaded : SavedFile → Outcome
  failed : Outcome
  overrun : Outcome
  out_of_fuel : Outcome

-- What `read_strn` makes of the bytes it reads: a text ends at its first NUL.
unfoldable pub c_string : Bytes → Bytes
c_string [] = []
c_string (c ∷ cs) = if c == 0 then [] else c ∷ c_string cs

-- The size of the variable that the data of a field goes to; `read_strn` allocates what it needs.
unfoldable pub room : Kind → Option ℕ
room Kind.header = some 8
room Kind.timedate = some 8
room Kind.tzdiff = some 8
room Kind.nextexe = some 8
room Kind.first = some 8
room Kind.until = some 8
room Kind.runfreq = some 8
room Kind.remain = some 8
room Kind.timefreq = some 8
room Kind.jitter = some 8
room Kind.option = some 4
room Kind.numexe = some 1
room Kind.nice = some 1
room Kind.lavg = some 3
room Kind.mins = some 8
room Kind.hrs = some 3
room Kind.days = some 4
room Kind.mons = some 2
room Kind.dow = some 1
room _ = none

abbrev pub within : ℕ → Option ℕ → Bool
within size none = true
within size (some n) = leb size n

-- `size` is not negative as a `short`, and the data has room.
unfoldable pub fits : Kind → ℕ → Bool
unfolding room
fits k size = ltb size (2 ^ 15) && within size (room k)

-- The user that the file is for: the owner, unless that is root.
abbrev pub owner_of : Option Bytes → Bytes → Bytes
owner_of none user = user
owner_of (some owner) user = owner

-- The variables before the main loop.
abbrev pub start_reader : ℕ → Bytes → Reader
start_reader bufi user = record {
  cl = new_line;
  bufi = bufi;
  has_read_cl_first = false;
  file = record { user = user; tzdiff = 0; envvars = []; lines = [] };
}

-- Go on with the data and what follows.
abbrev pub proceed {ℓ} : {A : Type ℓ} → Outcome ⊎ (A × Bytes) → (A → Bytes → Outcome) → Outcome
proceed (inl o) f = o
proceed (inr (a, rest)) f = f a rest

module _ (m : Layout) (runas_str : Option Bytes) where
  -- S_ENDLINE_T
  unfoldable pub end_line : Reader → Reader
  unfolding check_line
  end_line r =
      let l = r.cl in
      let complete =
        if is Flag.freq l.option && not r.has_read_cl_first
        then record l { first = l.nextexe }
        else l in
      record r {
        cl = new_line;
        file = record r.file {
          lines = add (check_line runas_str r.file.user complete) r.file.lines;
        };
      }

  -- Keep the `long` that was read, and change the line with it.
  abbrev pub with_long : Bytes → (ℕ → SavedLine → SavedLine) → Reader → Reader
  with_long body f r =
      let v = m.long_of (overwrite (m.long_bytes r.bufi) body) in
      record r { bufi = v; cl = f v r.cl }

  abbrev pub with_line : (SavedLine → SavedLine) → Reader → Reader
  with_line f r = record r { cl = f r.cl }

  -- The `switch` on a known type with its data.
  unfoldable pub apply_field : Kind → Bytes → Reader → Reader
  unfolding end_line strcmp_until set_default_opt put_envvar c_string
  apply_field Kind.envvar b r =
      if is_forbidden (c_string b)
      then r
      else record r { file = record r.file { envvars = put_envvar r.file.envvars (c_string b) } }
  apply_field Kind.tzdiff b r =
      let v = m.long_of (overwrite (m.long_bytes r.bufi) b) in
      record r { bufi = v; file = record r.file { tzdiff = v % 256 } }
  apply_field Kind.tz b r = with_line (λ l. record l { tz = some (c_string b) }) r
  apply_field Kind.shell b r = with_line (λ l. record l { shell = some (c_string b) }) r
  apply_field Kind.runas b r = with_line (λ l. record l { runas = some (c_string b) }) r
  apply_field Kind.mailfrom b r = with_line (λ l. record l { mailfrom = some (c_string b) }) r
  apply_field Kind.mailto b r = with_line (λ l. record l { mailto = some (c_string b) }) r
  apply_field Kind.nextexe b r = with_long b (λ v l. record l { nextexe = v }) r
  apply_field Kind.first b r = record (with_long b (λ v l. record l { first = v }) r) {
    has_read_cl_first = true;
  }
  apply_field Kind.option b r =
      with_line
        (λ l. record l {
          option = overwrite (if ltb (length b) 4 then set_default_opt l.option else l.option) b;
        })
        r
  apply_field Kind.numexe b r = with_line (λ l. record l { numexe = overwrite_byte l.numexe b }) r
  apply_field Kind.lavg b r = with_line (λ l. record l { lavg = overwrite l.lavg b }) r
  apply_field Kind.until b r = with_long b (λ v l. record l { until = v }) r
  apply_field Kind.nice b r = with_line (λ l. record l { nice = overwrite_byte l.nice b }) r
  apply_field Kind.runfreq b r = with_long b (λ v l. record l { runfreq = v % 2 ^ 16 }) r
  apply_field Kind.remain b r = with_long b (λ v l. record l { remain = v % 2 ^ 16 }) r
  apply_field Kind.timefreq b r = with_long b (λ v l. record l { timefreq = v }) r
  apply_field Kind.jitter b r = with_long b (λ v l. record l { jitter = v % 256 }) r
  apply_field Kind.mins b r = with_line (λ l. record l { mins = overwrite l.mins b }) r
  apply_field Kind.hrs b r = with_line (λ l. record l { hrs = overwrite l.hrs b }) r
  apply_field Kind.days b r = with_line (λ l. record l { days = overwrite l.days b }) r
  apply_field Kind.mons b r = with_line (λ l. record l { mons = overwrite l.mons b }) r
  apply_field Kind.dow b r = with_line (λ l. record l { dow = overwrite l.dow b }) r
  apply_field Kind.endline b r = end_line r
  apply_field _ b r = r

  -- `read_type`: the number, the size and what follows, or `none` if there are fewer bytes.
  unfoldable pub read_type : Bytes → Option (ℕ × ℕ × Bytes)
  read_type (a ∷ b ∷ c ∷ d ∷ rest) = some (m.short_of (a ∷ b ∷ []), m.short_of (c ∷ d ∷ []), rest)
  read_type _ = none

  -- `read` of `size` bytes into memory for a field of a type: the bytes and what follows.
  unfoldable pub read_data : Kind → ℕ → Bytes → Outcome ⊎ (Bytes × Bytes)
  unfolding fits
  read_data k size rest =
      if fits k size
      then (if ltb (length rest) size then inl failed else inr (take size rest, drop size rest))
      else inl overrun

  -- The `default` case: the line that was read so far is dropped, and the data is skipped.
  abbrev pub unknown_field : Reader → Option Bytes → Outcome ⊎ (Reader × Bytes)
  unknown_field r none = inl failed
  unknown_field r (some rest) = inr (record r { cl = new_line }, rest)

  abbrev pub known_field : Kind → Reader → Outcome ⊎ (Bytes × Bytes) → Outcome ⊎ (Reader × Bytes)
  known_field k r (inl o) = inl o
  known_field k r (inr (data_read, rest)) = inr (apply_field k data_read r, rest)

  unfoldable pub one_case :
      (ℕ → Bytes → Option Bytes) → Reader → ℕ → Bytes → Option Kind → Outcome ⊎ (Reader × Bytes)
  unfolding read_data apply_field
  one_case skip r size rest none =
      unknown_field r (skip (if ltb size (2 ^ 15) then size else 0) rest)
  one_case skip r size rest (some Kind.endline) = inr (apply_field Kind.endline [] r, rest)
  one_case skip r size rest (some k) = known_field k r (read_data k size rest)

  -- One round of the main loop, unless it ends.
  unfoldable pub one_field :
      (ℕ → Bytes → Option Bytes) → Reader → Bytes → Outcome ⊎ (Reader × Bytes)
  unfolding read_type one_case find_kind
  one_field skip r bs = elim (read_type bs) [
    | none ↦ inl (loaded r.file)
    | some (n, size, rest) ↦ one_case skip r size rest (find_kind n known)
  ]

  unfoldable pub read_fields : ℕ → (ℕ → Bytes → Option Bytes) → Reader → Bytes → Outcome
  unfolding one_field
  read_fields zero skip r bs = out_of_fuel
  read_fields (suc fuel) skip r bs =
      proceed (one_field skip r bs) (λ r' rest. read_fields fuel skip r' rest)

  -- A field of a given type in front of the file: its data and what follows.
  unfoldable pub expect : Kind → Bytes → Outcome ⊎ (Bytes × Bytes)
  unfolding read_type read_data
  expect k bs = elim (read_type bs) [
    | none ↦ inl failed
    | some (n, size, rest) ↦ if n == number_of k then read_data k size rest else inl failed
  ]

  -- `read_file` with the bytes of the file. `bufi` is 0 before the header is read.
  unfoldable pub read_file : ℕ → (ℕ → Bytes → Option Bytes) → Bytes → Outcome
  unfolding expect read_fields c_string
  read_file fuel skip bs = proceed (expect Kind.header bs) (λ version bs1.
      let bufi = m.long_of (overwrite (m.long_bytes 0) version) in
      let valid = proceed (expect Kind.user bs1) (λ user bs2.
        proceed (expect Kind.timedate bs2) (λ t_save bs3.
          read_fields fuel skip (start_reader bufi (owner_of runas_str (c_string user))) bs3)) in
      if bufi == file_version then valid else failed)
