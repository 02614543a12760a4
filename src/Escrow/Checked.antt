-- ===== src/Escrow/Checked.antt =====
-- Checked arithmetic of contracts/contracts/SharedDepositEscrow.sol: where it succeeds, and with what.
use shared_deposit_monad.Base.{ℕ, suc, ◌+◌, ◌-◌, ◌%◌, ◌^◌, ◌≤◌, ◌<◌, ◌≡◌, arith}
use shared_deposit_monad.Escrow.Types.{max_claims}
use shared_deposit_monad.Escrow.Storage.{ok, u128, sub_checked, add_u16, add_u32, add_u128}

pub sub_checked_lem : (a b : ℕ) → b ≤ a → sub_checked a b ≡ ok (a - b)
unfolding sub_checked
sub_checked_lem a b h = ground arith

pub sub_checked_ok : (a b c : ℕ) → sub_checked a b ≡ ok c → (c ≡ a - b) × (b ≤ a)
unfolding sub_checked
sub_checked_ok a b c h = ground arith

pub add_u16_lem : (a b : ℕ) → a + b < 2 ^ 16 → add_u16 a b ≡ ok (a + b)
unfolding add_u16
add_u16_lem a b h = ground arith

pub add_u16_ok : (a b c : ℕ) → add_u16 a b ≡ ok c → c ≡ a + b
unfolding add_u16
add_u16_ok a b c h = ground arith

pub add_u32_ok : (a b c : ℕ) → add_u32 a b ≡ ok c → c ≡ a + b
unfolding add_u32
add_u32_ok a b c h = ground arith

pub add_u128_lem : (a b : ℕ) → a + b < u128 → add_u128 a b ≡ ok (a + b)
unfolding add_u128
add_u128_lem a b h = ground arith

pub add_u128_ok : (a b c : ℕ) → add_u128 a b ≡ ok c → c ≡ a + b
unfolding add_u128
add_u128_ok a b c h = ground arith

-- The ID of a new claim fits its counter.
pub small_id : (n : ℕ) → n < max_claims → (n + 1) % 2 ^ 32 ≡ suc n
small_id n h = omega arith
