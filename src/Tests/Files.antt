-- ===== src/Tests/Files.antt =====
-- Examples for save.c, conf.c and env_list.c, on a little-endian machine.
use fcron.Prelude.{
  ◌-◌, map, inr, All, ℕ, zero, suc, ◌+◌, ◌*◌, ◌/◌, ◌%◌, ◌<◌, ◌≤◌, ◌≡◌, ◌≢◌, ◌↔◌, ◌⊎◌, refl, Option,
  none, some, [], ◌∷◌, ◌++◌, length, drop, length-drop, subst, some_inj, arith,
}
use fcron.Bits.{bit_test, byte_test}
use fcron.EnvList.{env_list_setenv, env_list_getenv}
use fcron.EnvList.Lookup.{env_list_getenv-env_list_setenv}
use fcron.Save.{
  Bytes, Layout, Kind, SavedLine, SavedFile, Writer, Field, encode_all, file_fields,
  write_file_to_disk, write_buf_to_disk, write_buf_len, save_field,
}
use fcron.Save.Buffer.{save_field-fits}
use fcron.Save.Written.{written, FitsBuf, write_file_to_disk-disk, write_buf_to_disk-ends}
use fcron.Load.{Outcome, read_file, c_string}
use fcron.Load.Safe.{AreSafe, read_file-AreSafe}
use fcron.Load.Ends.{NeverLonger, read_file-ends}
use fcron.Load.RoundTrip.{loaded_file}
use fcron.Load.Scheduled.{load_file, add_lines, load_file-write_file_to_disk}
use fcron.Startup.{default}
use fcron.Tests.Data.{daemon, env}
use fcron.Load.Times.{loaded_line}

-- The lowest byte comes first.
unfoldable bytes_of : ℕ → ℕ → Bytes
bytes_of zero n = []
bytes_of (suc k) n = n % 256 ∷ bytes_of k (n / 256)

unfoldable value_of : Bytes → ℕ
value_of [] = 0
value_of (b ∷ bs) = b + 256 * value_of bs

unfoldable limit : ℕ → ℕ
limit zero = 1
limit (suc k) = 256 * limit k

length-bytes_of : (k n : ℕ) → length (bytes_of k n) ≡ k
unfolding bytes_of
length-bytes_of zero n = refl
length-bytes_of (suc k) n = omega (arith, length-bytes_of k (n / 256))

value_of-bytes_of : (k n : ℕ) → n < limit k → value_of (bytes_of k n) ≡ n
unfolding bytes_of value_of limit
value_of-bytes_of zero n h = omega arith
value_of-bytes_of (suc k) n h =
    let rest = value_of-bytes_of k (n / 256) (omega arith) in omega (arith, rest)

unfoldable little_endian : Layout
unfolding limit bytes_of value_of
little_endian = record {
  short_bytes = bytes_of 2;
  long_bytes = bytes_of 8;
  short_of = value_of;
  long_of = value_of;
  short_size = length-bytes_of 2;
  long_size = length-bytes_of 8;
  short_of-bytes = value_of-bytes_of 2;
  long_of-bytes = value_of-bytes_of 8;
}

abbrev always : ℕ → Bytes → Option Bytes
always n bs = some (drop n bs)

length-drop_le : (n : ℕ) (bs : Bytes) → length (drop n bs) ≤ length bs
length-drop_le n bs = omega (arith, length-drop n bs)

always-NeverLonger : NeverLonger always
always-NeverLonger n bs rest e =
    subst (λ l. length l ≤ length bs) (some_inj e) (length-drop_le n bs)

-- Every day, as root, with a time zone and mail to root.
abbrev daily : SavedLine
daily = record {
  shell = some (b'i' ∷ b'd' ∷ []);
  runas = some (b'r' ∷ []);
  mailfrom = none;
  mailto = some (b'-' ∷ []);
  tz = some (b'Z' ∷ []);
  until = 0;
  first = 60;
  nextexe = 1000;
  timefreq = 0;
  remain = 3;
  runfreq = 2;
  option = 1 ∷ 0 ∷ 0 ∷ 0 ∷ [];
  lavg = 0 ∷ 0 ∷ 0 ∷ [];
  numexe = 0;
  nice = 10;
  jitter = 0;
  mins = 0 ∷ 0 ∷ 0 ∷ 0 ∷ 0 ∷ 0 ∷ 0 ∷ 0 ∷ [];
  hrs = 0 ∷ 0 ∷ 0 ∷ [];
  days = 0 ∷ 0 ∷ 0 ∷ 0 ∷ [];
  mons = 0 ∷ 0 ∷ [];
  dow = 0 ∷ [];
}

-- The line when it was loaded.
abbrev saved_file : SavedFile
saved_file = record {
  user = b'r' ∷ [];
  tzdiff = 255;
  envvars = (b'A' ∷ b'=' ∷ b'1' ∷ []) ∷ [];
  lines = daily ∷ [];
}

abbrev disk_ready : Writer
disk_ready = record { write_buf = []; disk = []; writes = some 100 ∷ some 1000 ∷ [] }

abbrev disk_done : Writer
disk_done = record {
  write_buf = [];
  disk = encode_all little_endian (file_fields little_endian saved_file 7);
  writes = [];
}

saved : write_file_to_disk little_endian saved_file 7 disk_ready ≡ some disk_done
unfolding write_file_to_disk encode_all file_fields little_endian bit_test byte_test
saved = refl

write_file_to_disk-disk_example :
    All (FitsBuf little_endian) (file_fields little_endian saved_file 7)
    × (disk_done.disk ≡ [] ++ encode_all little_endian (file_fields little_endian saved_file 7))
write_file_to_disk-disk_example =
    write_file_to_disk-disk little_endian saved_file 7 disk_ready disk_done saved

load_file-write_file_to_disk_example :
    (read_file little_endian none 30 always disk_done.disk
      ≡ Outcome.loaded (loaded_file little_endian none saved_file))
    × (load_file env value_of default little_endian none 30 always disk_done.disk 0 9 daemon
        ≡ inr (
            add_lines env value_of default 0
              (daemon.now - 7)
              none
              (b'r' ∷ [])
              (map loaded_line saved_file.lines)
              9
              daemon))
unfolding c_string file_fields bit_test byte_test
load_file-write_file_to_disk_example =
    load_file-write_file_to_disk little_endian none env value_of default saved_file 7 30 always
      disk_ready disk_done 0 9 daemon (refl, omega arith) (omega arith) ((refl, omega arith), tt)
      (
        (
          (refl, omega arith),
          (refl, omega arith),
          (refl, omega arith),
          (refl, omega arith),
          tt,
          refl,
          refl,
          (refl, refl, refl, refl, refl),
          omega arith,
          omega arith,
          omega arith,
          omega arith,
          omega arith,
          omega arith,
          omega arith,
        ),
        tt,
      )
      (omega arith) refl (omega arith) (omega arith) saved

read_file-AreSafe_example : AreSafe none (loaded_file little_endian none saved_file)
read_file-AreSafe_example =
    read_file-AreSafe little_endian none 30 always disk_done.disk
      (loaded_file little_endian none saved_file) load_file-write_file_to_disk_example.0

read_file-ends_example :
    read_file little_endian none 9 always (1 ∷ 0 ∷ 8 ∷ []) ≢ Outcome.out_of_fuel
read_file-ends_example =
    read_file-ends little_endian none 9 always (1 ∷ 0 ∷ 8 ∷ []) always-NeverLonger (omega arith)

env_list_getenv-env_list_setenv_example :
    (env_list_getenv ((b'A' ∷ b'=' ∷ b'2' ∷ []) ∷ []) (b'A' ∷ []) ≡ some (b'2' ∷ []))
    × ((◌≡◌ {A = Bytes} (b'B' ∷ []) (b'A' ∷ []))
        ⊎ (env_list_getenv ((b'A' ∷ b'=' ∷ b'2' ∷ []) ∷ []) (b'B' ∷ [])
            ≡ env_list_getenv ((b'A' ∷ b'=' ∷ b'1' ∷ []) ∷ []) (b'B' ∷ [])))
unfolding env_list_setenv
env_list_getenv-env_list_setenv_example =
    env_list_getenv-env_list_setenv ((b'A' ∷ b'=' ∷ b'1' ∷ []) ∷ [])
      ((b'A' ∷ b'=' ∷ b'2' ∷ []) ∷ []) (b'A' ∷ []) (b'2' ∷ []) (b'B' ∷ []) (refl, tt) (refl, tt)
      refl

abbrev three_left : Writer
three_left = record { write_buf = 1 ∷ 2 ∷ 3 ∷ []; disk = 9 ∷ []; writes = some 2 ∷ some 2 ∷ [] }

write_buf_to_disk-ends_example :
    (u : Writer) × (write_buf_to_disk three_left ≡ some u) × (u.disk ≡ written three_left)
write_buf_to_disk-ends_example =
    write_buf_to_disk-ends three_left (omega arith, (omega arith, tt)) (omega arith)

abbrev shell_field : Field
shell_field = record { kind = Kind.shell; body = b'i' ∷ b'd' ∷ [] }

abbrev three_and_shell : Writer
three_and_shell = record three_left { write_buf = 1 ∷ 2 ∷ 3 ∷ 209 ∷ 7 ∷ 2 ∷ 0 ∷ b'i' ∷ b'd' ∷ [] }

save_field-fits_example :
    (length three_and_shell.write_buf ≤ write_buf_len) ↔ (length shell_field.body ≤ 1020)
unfolding save_field little_endian
save_field-fits_example =
    save_field-fits little_endian shell_field three_left three_and_shell (omega arith) refl
