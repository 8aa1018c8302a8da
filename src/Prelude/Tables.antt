-- ===== src/Prelude/Tables.antt =====
-- Tests of every number of a range, by evaluation.
use Prim.Native.Nat.{ℕ, zero, suc, ◌+◌, ◌≤◌, ◌<◌}
use mathlib.Core.Path.{◌≡◌}
use mathlib.Core.Bool.{Bool, true, ◌&&◌}
use mathlib.Core.Logic.{inl, inr}
use native.Mathlib.Omega.{arith}
use cases.Prelude.Tests.{nat_eq, Bool-cases}
use mathlib.Core.Path.{subst}

-- The numbers from `from`, `count` of them.
unfoldable pub every : (ℕ → Bool) → ℕ → ℕ → Bool
every test zero from = true
every test (suc count) from = test from && every test count (suc from)

pub every_lem :
    (test : ℕ → Bool) (count from n : ℕ)
    → every test count from ≡ true
    → from ≤ n
    → n < from + count
    → test n ≡ true
unfolding every
every_lem test zero from n h low high = absurd (omega arith)
every_lem test (suc count) from n h low high = elim (Bool-cases (nat_eq from n)) [
  | inl e ↦ (let same : from ≡ n = ground arith in subst (λ n. test n ≡ true) same (ground arith))
  | inr e ↦ every_lem test count (suc from) n (ground arith) (ground arith) (omega arith)
]
