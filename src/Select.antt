-- ===== src/Select.antt =====
-- select.c: the descriptors that the daemon waits for. An `fd_set` is the list of its members, and the
-- largest descriptor is kept as `nfds`, one more than `__fd_max`, as `select` wants it. `select` itself
-- is a parameter: its result and the set that it leaves.
pub mod Watched
use fcron.Prelude.{
  ℕ, zero, suc, Bool, true, false, ◌||◌, Option, none, some, List, [], ◌∷◌, ltb, leb, ◌==◌,
  if◌then◌else◌,
}

abbrev pub FdSet : Type 0
FdSet = List ℕ

-- FD_ISSET, FD_SET and FD_CLR
unfoldable pub is_member : ℕ → FdSet → Bool
is_member fd [] = false
is_member fd (m ∷ ms) = m == fd || is_member fd ms

unfoldable pub set_member : ℕ → FdSet → FdSet
unfolding is_member
set_member fd ms = if is_member fd ms then ms else fd ∷ ms

unfoldable pub clear_member : ℕ → FdSet → FdSet
clear_member fd [] = []
clear_member fd (m ∷ ms) = let rest = clear_member fd ms in if m == fd then rest else m ∷ rest

-- `retcode` is -1 for an error.
pub data Retcode : Type 0 where
  error : Retcode
  ready : ℕ → Retcode

pub record SelectInstance : Type 0 where
  pub readfds : FdSet
  pub readfds_master : FdSet
  pub retcode : Retcode
  pub nfds : ℕ

abbrev pub select_init : SelectInstance
select_init = record { readfds = []; readfds_master = []; retcode = Retcode.ready 0; nfds = 0 }

unfoldable pub select_add_read : SelectInstance → ℕ → SelectInstance
unfolding set_member
select_add_read si fd = record si {
  readfds_master = set_member fd si.readfds_master;
  nfds = if ltb si.nfds (suc fd) then suc fd else si.nfds;
}

-- The loop from `n - 1` down to 0, which goes on after it has found a member.
unfoldable pub find_max : FdSet → ℕ → ℕ → ℕ
unfolding is_member
find_max ms zero nfds = nfds
find_max ms (suc i) nfds = find_max ms i (if is_member i ms then suc i else nfds)

unfoldable pub select_rm_read : SelectInstance → ℕ → SelectInstance
unfolding clear_member find_max
select_rm_read si fd =
    let master = clear_member fd si.readfds_master in
    record si {
      readfds_master = master;
      nfds = if leb si.nfds (suc fd) then find_max master (suc fd) si.nfds else si.nfds;
    }

-- `none` is the `die` for an error other than EINTR.
unfoldable pub select_call :
    (ℕ → FdSet → Retcode × FdSet) → Bool → SelectInstance → Option SelectInstance
select_call select is_eintr si =
    let (retcode, readfds) = select si.nfds si.readfds_master in
    let called = record si { readfds = readfds; retcode = retcode } in
    elim retcode [
      | Retcode.error ↦ if is_eintr then some called else none
      | Retcode.ready n ↦ some called
    ]
