-- ===== src/Base/Table.antt =====
-- A test of every number below a bound, which computes.
use protocol_emulator.Base.Tests.{◌==◌, Bool-cases}
use Prim.Native.Nat.{ℕ, zero, suc, ◌<◌}
use mathlib.Core.Path.{◌≡◌}
use mathlib.Core.Logic.{inl, inr}
use mathlib.Core.Bool.{Bool, true, ◌&&◌}
use native.Mathlib.Omega.{arith}

unfoldable pub all_below : ℕ → (ℕ → Bool) → Bool
all_below zero test = true
all_below (suc n) test = test n && all_below n test

absurd : (k : ℕ) → k < 0 → ⊥
absurd k h = omega (arith, h)

pub all_below-at :
    (n : ℕ) (test : ℕ → Bool) → all_below n test ≡ true → (k : ℕ) → k < n → test k ≡ true
unfolding all_below
all_below-at zero test h k l = elim (absurd k l) [ ]
all_below-at (suc n) test h k l = elim (Bool-cases (k == n)) [
  | inl e ↦ let same : k ≡ n = ground (arith, e) in rw same (ground (arith, h))
  | inr e ↦ all_below-at n test (ground (arith, h)) k (ground (arith, l, e))
]
