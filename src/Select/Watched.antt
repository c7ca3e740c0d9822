-- ===== src/Select/Watched.antt =====
-- select.c: which descriptors `select` looks at.
use fcron.Prelude.{
  ℕ, zero, suc, ◌≤◌, ◌<◌, ◌≡◌, refl, sym, true, false, ◌==◌, inl, inr, if◌then◌else◌, arith,
  Bool-cases, le→leb, ◌⊎◌, subst,
}
use fcron.Select.{
  FdSet, SelectInstance, is_member, set_member, clear_member, find_max, select_add_read,
  select_rm_read,
}

-- Each member is below the number that is passed to `select`.
abbrev pub IsWatched : SelectInstance → Type 0
IsWatched si = (i : ℕ) → is_member i si.readfds_master ≡ true → i < si.nfds

is_member-set_member :
    (fd i : ℕ) (ms : FdSet)
    → is_member i (set_member fd ms) ≡ true
    → (i ≡ fd) ⊎ (is_member i ms ≡ true)
unfolding set_member is_member
is_member-set_member fd i ms h = elim (Bool-cases (is_member fd ms)) [
  | inl there ↦ inr (rw there at h)
  | inr absent ↦ elim (Bool-cases (fd == i)) [
    | inl same ↦ inl (ground (arith, same))
    | inr other ↦ inr (rw (absent, other) at h)
  ]
]

-- Adding a descriptor keeps all descriptors watched, the new one among them.
pub select_add_read-IsWatched :
    (si : SelectInstance) (fd i : ℕ)
    → IsWatched si
    → is_member i (select_add_read si fd).readfds_master ≡ true
    → i < (select_add_read si fd).nfds
unfolding select_add_read
select_add_read-IsWatched si fd i h member =
    elim (is_member-set_member fd i si.readfds_master member) [
      | inl new ↦ ground (arith, new)
      | inr old ↦ ground (arith, h i old)
    ]

find_max-below :
    (ms : FdSet) (n nfds : ℕ)
    → ((i : ℕ) → i < n → is_member i ms ≡ false)
    → find_max ms n nfds ≡ nfds
unfolding find_max
find_max-below ms zero nfds h = refl
find_max-below ms (suc i) nfds h =
    rw (h i (omega arith)) (find_max-below ms i nfds (λ j lt. h j (omega arith)))

find_max-lowest :
    (ms : FdSet) (n nfds low : ℕ)
    → low < n
    → is_member low ms ≡ true
    → ((i : ℕ) → i < low → is_member i ms ≡ false)
    → find_max ms n nfds ≡ suc low
unfolding find_max
find_max-lowest ms zero nfds low lt member below = absurd (omega arith)
find_max-lowest ms (suc i) nfds low lt member below = elim (Bool-cases (i == low)) [
  | inl same ↦
      let e : i ≡ low = ground (arith, same) in
      subst (λ k. find_max ms k (if is_member k ms then suc k else nfds) ≡ suc low) (sym e)
        (rw member (find_max-below ms low (suc low) below))
  | inr other ↦
      let less : low < i = ground (arith, other) in
      find_max-lowest ms i (if is_member i ms then suc i else nfds) low less member below
]

-- If the largest descriptor is removed, then the number passed to `select` is one more than the lowest
-- descriptor that is left, so that every other descriptor is no longer watched.
pub select_rm_read-unwatched :
    (si : SelectInstance) (fd low high : ℕ)
    → si.nfds ≤ suc fd
    → low < high
    → low ≤ fd
    → is_member low (select_rm_read si fd).readfds_master ≡ true
    → ((i : ℕ) → i < low → is_member i (select_rm_read si fd).readfds_master ≡ false)
    → is_member high (select_rm_read si fd).readfds_master ≡ true
    → ((select_rm_read si fd).nfds ≡ suc low) × ((select_rm_read si fd).nfds ≤ high)
unfolding select_rm_read
select_rm_read-unwatched si fd low high largest less le member below other =
    let top = le→leb si.nfds (suc fd) largest in
    let low_max =
      find_max-lowest (clear_member fd si.readfds_master) (suc fd) si.nfds low (omega arith) member
        below in
    rw (top, low_max) (refl, omega arith)
