-- ===== src/Clock/Zone.antt =====
-- Work in the time zone of a line, between `switch_timezone` and `switch_back_timezone`.
use fcron.Prelude.{ℕ, ◌≡◌, refl, false, Bool, Option, none, some, if◌then◌else◌, arith}
use fcron.Clock.{Zone, switch_timezone, switch_back_timezone}

-- The zone after `if (tz_changed > 0) switch_back_timezone(orig_tz_envvar)`.
unfoldable pub back_if : Zone → Zone × Bool → Zone
unfolding switch_back_timezone
back_if orig (zone, changed) = if changed then switch_back_timezone orig else zone

-- A function that switches to a line's zone does its work in that zone, and in the current zone if
-- the line has none.
pub switch_timezone-zone :
    (current : Zone) (dest : ℕ)
    → ((switch_timezone current (some dest)).0 ≡ some dest)
      × (switch_timezone current none ≡ (current, false))
unfolding switch_timezone
switch_timezone-zone none dest = (refl, refl)
switch_timezone-zone (some z) dest = (ground arith, refl)

-- Called in the original zone, a function leaves it set afterwards. Called by another function that
-- has switched to the line's zone already, it leaves that zone set, for the rest of its caller.
pub back_if-switch_timezone :
    (orig : Zone) (dest : Option ℕ)
    → (back_if orig (switch_timezone orig dest) ≡ orig)
      × (back_if orig (switch_timezone (switch_timezone orig dest).0 dest)
          ≡ (switch_timezone orig dest).0)
unfolding back_if switch_timezone
back_if-switch_timezone orig none = (refl, refl)
back_if-switch_timezone none (some d) = (refl, ground arith)
back_if-switch_timezone (some z) (some d) = (ground arith, ground arith)
