-- ===== src/EnvList/Lookup.antt =====
-- env_list.c: what `env_list_getenv` finds.
use fcron.Prelude.{
  ◌≡◌, refl, sym, Bool, true, false, some, List, [], ◌∷◌, ◌==◌, arith, Bool-cases, inl, inr, ◌&&◌,
  ap₂, suc, length, drop, ==_refl, ◌⊎◌, some_inj,
}
use fcron.EnvList.{
  Text, ends_at, strcmp_until, assignment, put, env_list_setenv, find_value, env_list_getenv,
}

-- A name: no '=' in it.
abbrev pub IsName : Text → Type 0
IsName [] = Unit
IsName (c ∷ cs) = ((c == b'=') ≡ false) × IsName cs

strcmp_until-assignment :
    (name value : Text) → IsName name → strcmp_until b'=' name (assignment name value) ≡ true
unfolding strcmp_until ends_at
strcmp_until-assignment [] value h = refl
strcmp_until-assignment (c ∷ cs) value h = rw (h.0, ==_refl c, strcmp_until-assignment cs value h.1)

both_true : (a : Bool) {b : Bool} → a && b ≡ true → (a ≡ true) × (b ≡ true)
both_true true e = (refl, e)
both_true false e = absurd cc

drop-assignment : (name value : Text) → drop (suc (length name)) (assignment name value) ≡ value
drop-assignment [] value = refl
drop-assignment (c ∷ cs) value = drop-assignment cs value

find_value-put :
    (list : List Text) (name value : Text)
    → IsName name
    → find_value (put name (assignment name value) true list) name ≡ some value
unfolding find_value put
find_value-put [] name value h =
    rw (strcmp_until-assignment name value h, drop-assignment name value)
find_value-put (c ∷ cs) name value h = elim (Bool-cases (strcmp_until b'=' name c)) [
  | inl found ↦ rw (found, strcmp_until-assignment name value h, drop-assignment name value)
  | inr other ↦ rw (other, other, find_value-put cs name value h)
]

-- Two names that match the same entry are the same.
matches-same :
    (a b c : Text)
    → IsName a
    → IsName b
    → strcmp_until b'=' a c ≡ true
    → strcmp_until b'=' b c ≡ true
    → a ≡ b
unfolding strcmp_until ends_at
matches-same [] [] c h k m n = refl
matches-same [] (y ∷ ys) [] h k m n = absurd (cc (k.0, n))
matches-same (x ∷ xs) [] [] h k m n = absurd (cc (h.0, m))
matches-same (x ∷ xs) (y ∷ ys) [] h k m n = absurd (cc (h.0, m))
matches-same [] (y ∷ ys) (z ∷ zs) h k m n = absurd (grind (arith, k.0, m, n, ends_at))
matches-same (x ∷ xs) [] (z ∷ zs) h k m n = absurd (grind (arith, h.0, m, n, ends_at))
matches-same (x ∷ xs) (y ∷ ys) (z ∷ zs) h k m n =
    let (xz, xs_match) = both_true (x == z) (rw h.0 at m) in
    let (yz, ys_match) = both_true (y == z) (rw k.0 at n) in
    let heads : x ≡ y = ground (arith, xz, yz) in
    ap₂ ◌∷◌ heads (matches-same xs ys zs h.1 k.1 xs_match ys_match)

-- Setting one variable does not change what another name finds.
find_value-put_other :
    (list : List Text) (name value other : Text)
    → IsName name
    → IsName other
    → strcmp_until b'=' other (assignment name value) ≡ false
    → (other ≡ name)
      ⊎ (find_value (put name (assignment name value) true list) other ≡ find_value list other)
unfolding find_value put
find_value-put_other [] name value other h k new = inr (rw new)
find_value-put_other (c ∷ cs) name value other h k new =
    elim (Bool-cases (strcmp_until b'=' name c)) [
      | inl found ↦ elim (Bool-cases (strcmp_until b'=' other c)) [
        | inl also ↦ inl (matches-same other name c k h also found)
        | inr differs ↦ inr (rw (found, new, differs))
      ]
      | inr absent ↦ elim (find_value-put_other cs name value other h k new) [
        | inl same ↦ inl same
        | inr rest ↦ inr (rw (absent, rest))
      ]
    ]

-- A variable that is set has its value, and every other one the value it had.
pub env_list_getenv-env_list_setenv :
    (list new : List Text) (name value other : Text)
    → IsName name
    → IsName other
    → env_list_setenv list name value true ≡ some new
    → (env_list_getenv new name ≡ some value)
      × ((other ≡ name) ⊎ (env_list_getenv new other ≡ env_list_getenv list other))
unfolding env_list_setenv env_list_getenv
env_list_getenv-env_list_setenv list new [] value other h k e = absurd cc
env_list_getenv-env_list_setenv list new (n ∷ ns) value [] h k e =
    let same = some_inj e in (rw (sym same, find_value-put list (n ∷ ns) value h), inr refl)
env_list_getenv-env_list_setenv list new (n ∷ ns) value (o ∷ os) h k e =
    let same = some_inj e in
    (
      rw (sym same, find_value-put list (n ∷ ns) value h),
      elim (Bool-cases (strcmp_until b'=' (o ∷ os) (assignment (n ∷ ns) value))) [
        | inl found ↦ inl (
            matches-same (o ∷ os) (n ∷ ns) (assignment (n ∷ ns) value) k h found
              (strcmp_until-assignment (n ∷ ns) value h))
        | inr absent ↦ elim (find_value-put_other list (n ∷ ns) value (o ∷ os) h k absent) [
          | inl same_name ↦ inl same_name
          | inr kept ↦ inr (rw (sym same, kept))
        ]
      ],
    )
