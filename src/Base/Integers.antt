-- ===== src/Base/Integers.antt =====
-- Integers over the native numbers, for a `bigint` difference that may fall below zero.
use Prim.Native.Nat.{ℕ, ◌-◌, ◌<◌, ◌≤◌}
use mathlib.Core.Path.{◌≡◌}
use mathlib.Core.Logic.{◌↔◌}
use mathlib.Core.Bool.{Bool, true, false}
use native.Mathlib.Omega.{arith}
use shared_deposit_monad.Base.Tests.{ltb, if◌then◌else◌}

pub data ℤ : Type 0 where
  pos negsuc : ℕ → ℤ

-- `a - b` on `bigint`
unfoldable pub minus : ℕ → ℕ → ℤ
minus a b = if ltb a b then negsuc (b - a - 1) else pos (a - b)

-- `z > 0n`
unfoldable pub is_positive : ℤ → Bool
is_positive (pos n) = ltb 0 n
is_positive (negsuc n) = false

-- `n > z` for a natural `n`
unfoldable pub exceeds : ℕ → ℤ → Bool
exceeds n (pos m) = ltb m n
exceeds n (negsuc m) = true

pub is_positive-minus : (a b : ℕ) → (is_positive (minus a b) ≡ true) ↔ (b < a)
unfolding minus is_positive
is_positive-minus a b = ground arith

pub exceeds-minus : (n a b : ℕ) → b ≤ a → (exceeds n (minus a b) ≡ false) ↔ (n ≤ a - b)
unfolding minus exceeds
exceeds-minus n a b h = ground arith
