-- ===== src/Search/Scan.antt =====
-- database.c: the scanning loops of the search.
use fcron.Prelude.{ℕ, zero, suc, ◌+◌, ◌≤◌, ◌<◌, ◌≡◌, Bool, true, false, arith}
use fcron.Search.{scan}

-- The loop stops between its start and its limit.
pub scan_range : (test : ℕ → Bool) (i n : ℕ) → (i ≤ scan test i n) × (scan test i n ≤ i + n)
unfolding scan
scan_range test i zero = omega arith
scan_range test i (suc n) = ground (arith, scan_range test (i + 1) n)

-- If it stops below its limit, the test holds there.
pub scan-test : (test : ℕ → Bool) (i n : ℕ) → scan test i n < i + n → test (scan test i n) ≡ true
unfolding scan
scan-test test i zero h = absurd (omega arith)
scan-test test i (suc n) h = ground (arith, scan-test test (i + 1) n)

-- The test fails at all it has passed.
pub scan-skips : (test : ℕ → Bool) (i n k : ℕ) → i ≤ k → k < scan test i n → test k ≡ false
unfolding scan
scan-skips test i zero k lo hi = absurd (omega arith)
scan-skips test i (suc n) k lo hi = ground (arith, scan-skips test (i + 1) n k)
