-- ===== src/Bits/Table.antt =====
-- Testing a property of all small numbers by running it.
use fcron.Prelude.{ℕ, zero, suc, ◌<◌, ◌≡◌, Bool, true, ◌&&◌, arith}

module _ (test : ℕ → Bool) where
  -- The test holds of the numbers that are less than a bound.
  unfoldable pub holds_to : ℕ → Bool
  holds_to zero = true
  holds_to (suc bound) = holds_to bound && test bound

  -- So it holds of each of them.
  pub test-holds_to : (bound : ℕ) {n : ℕ} → n < bound → holds_to bound ≡ true → test n ≡ true
  unfolding holds_to
  test-holds_to zero small all = absurd (omega arith)
  test-holds_to (suc bound) {n} small all = ground (arith, test-holds_to bound {n = n})
