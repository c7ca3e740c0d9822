-- ===== src/EnvList.antt =====
-- env_list.c: the environment variables of a fcrontab, and `strcmp_until` of subs.c. A list is its
-- entries in order, which `UList` implements; the entries are the texts "NAME=value". `none` is NULL.
pub mod Lookup
use fcron.Prelude.{
  ℕ, zero, suc, ◌+◌, Bool, true, false, ◌&&◌, Option, none, some, List, [], ◌∷◌, ◌++◌, length, drop,
  ◌==◌, if◌then◌else◌,
}

-- A text without its NUL at the end.
abbrev pub Text : Type 0
Text = List ℕ

-- Whether the comparison is at the end of a text.
unfoldable pub ends_at : ℕ → Text → Bool
ends_at until [] = true
ends_at until (c ∷ cs) = c == until

-- `strcmp_until(left, right, until) == 0`
unfoldable pub strcmp_until : ℕ → Text → Text → Bool
unfolding ends_at
strcmp_until until [] right = ends_at until right
strcmp_until until (c ∷ cs) [] = c == until
strcmp_until until (c ∷ cs) (d ∷ ds) =
    if c == until then d == until else c == d && strcmp_until until cs ds

-- The text of an entry, `"%s=%s"`.
abbrev pub assignment : Text → Text → Text
assignment name value = name ++ (b'=' ∷ value)

-- The loops over the list: overwrite the first entry with that name, if `overwrite` asks for it, or
-- add an entry at the end.
unfoldable pub put : Text → Text → Bool → List Text → List Text
unfolding strcmp_until
put name new overwrite [] = new ∷ []
put name new overwrite (c ∷ cs) =
    let rest = put name new overwrite cs in
    if strcmp_until b'=' name c then (if overwrite then new ∷ cs else c ∷ cs) else c ∷ rest

-- `none` for an empty name.
unfoldable pub env_list_setenv : List Text → Text → Text → Bool → Option (List Text)
unfolding put
env_list_setenv list [] value overwrite = none
env_list_setenv list (c ∷ cs) value overwrite =
    some (put (c ∷ cs) (assignment (c ∷ cs) value) overwrite list)

-- The variable is found under the name that `envvar` begins with.
unfoldable pub env_list_putenv : List Text → Text → Bool → Option (List Text)
unfolding put
env_list_putenv list [] overwrite = none
env_list_putenv list (c ∷ cs) overwrite = some (put (c ∷ cs) (c ∷ cs) overwrite list)

-- The text behind the name and one character more of the first entry with that name.
unfoldable pub find_value : List Text → Text → Option Text
unfolding strcmp_until
find_value [] name = none
find_value (c ∷ cs) name =
    let rest = find_value cs name in
    if strcmp_until b'=' name c then some (drop (suc (length name)) c) else rest

unfoldable pub env_list_getenv : List Text → Text → Option Text
unfolding find_value
env_list_getenv list [] = none
env_list_getenv list (c ∷ cs) = find_value list (c ∷ cs)

-- The array for `execle`: copies of the entries, and a NULL at the end.
unfoldable pub env_list_export_envp : List Text → List (Option Text)
env_list_export_envp [] = none ∷ []
env_list_export_envp (c ∷ cs) = some c ∷ env_list_export_envp cs
