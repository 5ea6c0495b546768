-- ===== src/Common/Below.antt =====
-- A statement on a small range, checked by evaluation.
use Prim.Native.Nat.{ℕ, zero, suc, ◌+◌, ◌<◌}
use mathlib.Core.Path.{◌≡◌}
use mathlib.Core.Bool.{Bool, true, ◌&&◌}
use native.Mathlib.Omega.{arith}

-- Does the test hold of the `count` numbers from `start` on?
unfoldable pub holds_from : (start count : ℕ) → (ℕ → Bool) → Bool
holds_from start zero test = true
holds_from start (suc count) test = test start && holds_from (start + 1) count test

reached :
    (start count : ℕ) (test : ℕ → Bool)
    → holds_from start count test ≡ true
    → (k : ℕ) → k < count
    → test (start + k) ≡ true
unfolding holds_from
reached start zero test all_hold k inside = absurd (omega arith)
reached start (suc count) test all_hold zero inside = ground arith
reached start (suc count) test all_hold (suc k) inside =
    ground (arith, reached (start + 1) count test (ground arith) k (omega arith))

pub holds_from_lem :
    (count : ℕ) (test : ℕ → Bool) (k : ℕ)
    → holds_from 0 count test ≡ true
    → k < count
    → test k ≡ true
holds_from_lem count test k all_hold inside = ground (arith, reached 0 count test all_hold k inside)
