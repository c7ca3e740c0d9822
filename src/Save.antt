-- ===== src/Save.antt =====
-- save.c: the binary fcrontab that fcron keeps of each user's file. It is a sequence of fields, each
-- with a type, the size of its data and the data, that is collected in a buffer and written to disk.
-- How a `short` and a `long` lie in memory is a parameter. Bytes are numbers below 256, and a `long`
-- is its bit pattern; sizes and times are not negative. `fdatasync` and the messages are left out.
pub mod Buffer
pub mod Written
use fcron.Prelude.{
  ℕ, zero, suc, ◌+◌, ◌-◌, ◌/◌, ◌^◌, ◌<◌, ◌≡◌, Bool, true, false, not, Option, none, some, List, [],
  ◌∷◌, ◌++◌, length, take, drop, ltb, leb, ◌==◌, ◌>>=◌, if◌then◌else◌,
}
use fcron.Bits.{Bitstring}
use fcron.Opt.{Flag, is}

abbrev pub Bytes : Type 0
Bytes = List ℕ

-- The machine's layout of a `short int` and of a `long int`, with what `memcpy` out and back gives.
pub record Layout : Type 0 where
  pub short_bytes : ℕ → Bytes
  pub long_bytes : ℕ → Bytes
  pub short_of : Bytes → ℕ
  pub long_of : Bytes → ℕ
  pub short_size : (n : ℕ) → length (short_bytes n) ≡ 2
  pub long_size : (n : ℕ) → length (long_bytes n) ≡ 8
  pub short_of-bytes : (n : ℕ) → n < 2 ^ 16 → short_of (short_bytes n) ≡ n
  pub long_of-bytes : (n : ℕ) → n < 2 ^ 64 → long_of (long_bytes n) ≡ n

-- WRITE_BUF_LEN
abbrev pub write_buf_len : ℕ
write_buf_len = 1024

-- The types of fields, by their numbers S_…_T.
pub data Kind : Type 0 where
  header user timedate tzdiff envvar endline shell numexe lavg until nice runas mailto nextexe :
      Kind
  remain timefreq runfreq mins hrs days mons dow option first tz jitter mailfrom : Kind

abbrev pub number_of : Kind → ℕ
number_of header = 1
number_of user = 2
number_of timedate = 3
number_of tzdiff = 4
number_of envvar = 1000
number_of endline = 2000
number_of shell = 2001
number_of numexe = 2002
number_of lavg = 2003
number_of until = 2004
number_of nice = 2005
number_of runas = 2006
number_of mailto = 2007
number_of nextexe = 2008
number_of remain = 2009
number_of timefreq = 2010
number_of runfreq = 2011
number_of mins = 2012
number_of hrs = 2013
number_of days = 2014
number_of mons = 2015
number_of dow = 2016
number_of option = 2017
number_of first = 2018
number_of tz = 2019
number_of jitter = 2020
number_of mailfrom = 2021

-- A field with its data.
pub record Field : Type 0 where
  pub kind : Kind
  pub body : Bytes

-- `cl_t`, with its texts. A text that is NULL is `none`.
pub record SavedLine : Type 0 where
  pub shell : Option Bytes
  pub runas : Option Bytes
  pub mailfrom : Option Bytes
  pub mailto : Option Bytes
  pub tz : Option Bytes
  pub until : ℕ
  pub first : ℕ
  pub nextexe : ℕ
  pub timefreq : ℕ
  pub remain : ℕ
  pub runfreq : ℕ
  pub option : Bitstring
  pub lavg : Bytes
  pub numexe : ℕ
  pub nice : ℕ
  pub jitter : ℕ
  pub mins : Bitstring
  pub hrs : Bitstring
  pub days : Bitstring
  pub mons : Bitstring
  pub dow : Bitstring

-- `cf_t`: `tzdiff` is the bit pattern of the `signed char`.
pub record SavedFile : Type 0 where
  pub user : Bytes
  pub tzdiff : ℕ
  pub envvars : List Bytes
  pub lines : List SavedLine

-- S_FILEVERSION
abbrev pub file_version : ℕ
file_version = 100

-- The text that a string is saved as: NULL has length 0.
abbrev pub text : Option Bytes → Bytes
text none = []
text (some s) = s

abbrev pub is_empty : Bytes → Bool
is_empty [] = true
is_empty (c ∷ cs) = false

-- `v > 0` of a time
abbrev pub is_positive : ℕ → Bool
is_positive v = ltb 0 v

-- A `signed char` as a `long`.
unfoldable pub sign_extend : ℕ → ℕ
sign_extend c = if ltb c 128 then c else c + (2 ^ 64 - 256)

abbrev pub optional : Bool → List Field → List Field
optional b fs = if b then fs else []

module _ (m : Layout) where
  abbrev pub long_field : Kind → ℕ → Field
  long_field k v = record { kind = k; body = m.long_bytes v }

  abbrev pub text_field : Kind → Bytes → Field
  text_field k s = record { kind = k; body = s }

  -- The bytes that `save_str`, `save_strn`, `save_lint` and `save_type` add to the buffer, for data whose
  -- length fits a `short int`.
  unfoldable pub encode : Field → Bytes
  encode f = m.short_bytes (number_of f.kind) ++ (m.short_bytes (length f.body) ++ f.body)

  unfoldable pub encode_all : List Field → Bytes
  unfolding encode
  encode_all [] = []
  encode_all (f ∷ fs) = encode f ++ encode_all fs

  abbrev pub tz_fields : Option Bytes → List Field
  tz_fields none = []
  tz_fields (some s) = text_field tz s ∷ []

  -- The fields of a line.
  unfoldable pub line_fields : SavedLine → List Field
  line_fields l =
      text_field shell (text l.shell)
      ∷ text_field runas (text l.runas)
      ∷ text_field mailto (text l.mailto)
      ∷ text_field option l.option
      ∷ long_field nextexe l.nextexe
      ∷ (optional (not (l.numexe == 0)) (text_field numexe (l.numexe ∷ []) ∷ [])
          ++ (optional (is Flag.lavg l.option) (text_field lavg l.lavg ∷ [])
              ++ (optional (is_positive l.until) (long_field until l.until ∷ [])
                  ++ (optional (not (l.nice == 0)) (text_field nice (l.nice ∷ []) ∷ [])
                      ++ (optional (is_positive l.runfreq)
                            (long_field runfreq l.runfreq ∷ long_field remain l.remain ∷ [])
                          ++ (tz_fields l.tz
                              ++ (optional (is_positive l.jitter) (long_field jitter l.jitter ∷ [])
                                  ++ (optional (not (is_empty (text l.mailfrom)))
                                        (text_field mailfrom (text l.mailfrom) ∷ [])
                                      ++ ((if is Flag.freq l.option
                                            then long_field first l.first
                                              ∷ long_field timefreq l.timefreq
                                              ∷ []
                                            else text_field mins l.mins
                                              ∷ text_field hrs l.hrs
                                              ∷ text_field days l.days
                                              ∷ text_field mons l.mons
                                              ∷ text_field dow l.dow
                                              ∷ [])
                                          ++ (text_field endline [] ∷ []))))))))))

  unfoldable pub all_line_fields : List SavedLine → List Field
  unfolding line_fields
  all_line_fields [] = []
  all_line_fields (l ∷ ls) = line_fields l ++ all_line_fields ls

  abbrev pub envvar_fields : List Bytes → List Field
  envvar_fields [] = []
  envvar_fields (e ∷ es) = text_field envvar e ∷ envvar_fields es

  -- The fields that `write_file_to_disk` saves, in order.
  unfoldable pub file_fields : SavedFile → ℕ → List Field
  unfolding all_line_fields sign_extend
  file_fields file time_date =
      long_field header file_version
      ∷ text_field user file.user
      ∷ long_field timedate time_date
      ∷ (optional (not (file.tzdiff == 0)) (long_field tzdiff (sign_extend file.tzdiff) ∷ [])
          ++ (envvar_fields file.envvars ++ all_line_fields file.lines))

-- The buffer, what has reached the disk, and the results of the coming calls of `write`: the number
-- of bytes written, `none` for an error.
pub record Writer : Type 0 where
  pub write_buf : Bytes
  pub disk : Bytes
  pub writes : List (Option ℕ)

-- The loop of `write_buf_to_disk` on the bytes that are left. `retries` is what is left of the retries
-- that are allowed. A call of `write` takes no more bytes than it is given.
unfoldable pub write_loop : ℕ → List (Option ℕ) → Bytes → Bytes → Option (Bytes × List (Option ℕ))
write_loop retries writes disk [] = some (disk, writes)
write_loop zero writes disk (c ∷ cs) = none
write_loop (suc retries) [] disk (c ∷ cs) = none
write_loop (suc retries) (none ∷ writes) disk (c ∷ cs) = none
write_loop (suc retries) (some n ∷ writes) disk (c ∷ cs) =
    write_loop retries writes (disk ++ take n (c ∷ cs)) (drop n (c ∷ cs))

-- `write_buf_to_disk`: `num_retries++ > to_write / 2` allows one call more than half of the bytes.
unfoldable pub write_buf_to_disk : Writer → Option Writer
unfolding write_loop
write_buf_to_disk w = do
  (disk, writes) ← write_loop (length w.write_buf / 2 + 1) w.writes w.disk w.write_buf
  some (record { write_buf = []; disk = disk; writes = writes })

module _ (m : Layout) where
  abbrev pub push : Field → Writer → Writer
  push f w = record w { write_buf = w.write_buf ++ encode m f }

  -- `save_type`, `save_str`, `save_strn` and `save_lint`: write the buffer to disk if the field does not
  -- fit behind what is there, and add the field. The code does not test that it fits an empty buffer: see
  -- `save_all`.
  unfoldable pub save_field : Field → Writer → Option Writer
  unfolding write_buf_to_disk encode
  save_field f w =
      let flushed = write_buf_to_disk w in
      if ltb (write_buf_len - length w.write_buf) (4 + length f.body)
      then flushed >>= (λ u. some (push f u))
      else some (push f w)

  -- The buffer, if nothing was written past its end.
  unfoldable pub within_buf : Writer → Option Writer
  within_buf w = if leb (length w.write_buf) write_buf_len then some w else none

  -- `none` is an error, or a field that was written past the end of the buffer. A text that is so long
  -- that its length does not fit a `short int` counts as such a field.
  unfoldable pub save_all : List Field → Writer → Option Writer
  unfolding save_field within_buf
  save_all [] w = some w
  save_all (f ∷ fs) w = do u ← save_field f w; v ← within_buf u; save_all fs v

  -- `write_file_to_disk`
  unfoldable pub write_file_to_disk : SavedFile → ℕ → Writer → Option Writer
  unfolding save_all file_fields
  write_file_to_disk file time_date w =
      save_all (file_fields m file time_date) (record w { write_buf = [] }) >>= write_buf_to_disk
