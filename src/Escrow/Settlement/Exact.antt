-- ===== src/Escrow/Settlement/Exact.antt =====
-- The settlement of contracts/contracts/SharedDepositEscrow.sol splits exactly: the allocations make up
-- the approved shared total, and no tenant pays more than what remains of the deposit.
pub mod Rounds
use shared_deposit_monad.Base.{
  ℕ, zero, suc, ◌+◌, ◌-◌, ◌*◌, ◌/◌, ◌%◌, ◌≤◌, ◌<◌, ◌≡◌, refl, sym, ◌∙◌, ap, subst, ◌⊎◌, inl, inr,
  Bool, true, false, Option, none, some, List, [], ◌∷◌, if◌then◌else◌, ltb, leb, arith, Bool-cases,
  if_true, if_false, some_inj, All, length,
}
use native.Mathlib.Nat.{mul-le-mul_right, le_of_mul-le-mul_right, div-mul-le_self, div-le_of_le-mul}
use shared_deposit_monad.Escrow.Settlement.{
  sum, Share, base_shares, zero_shares, distribute, allocs, refunds, settle,
}
use Rounds.{remainings, IsCapped, IsSplit, distribute-IsSplit}

base_shares-remainings :
    (shared total : ℕ) (rs : List ℕ) → remainings (base_shares shared total rs) ≡ rs
unfolding base_shares remainings
base_shares-remainings shared total [] = refl
base_shares-remainings shared total (r ∷ rs) =
    ap (λ x. r ∷ x) (base_shares-remainings shared total rs)

base_shares-IsCapped :
    (shared total : ℕ) (rs : List ℕ) → shared ≤ total → IsCapped (base_shares shared total rs)
unfolding base_shares
base_shares-IsCapped shared total [] h = tt
base_shares-IsCapped shared total (r ∷ rs) h =
    (div-le_of_le-mul total (mul-le-mul_right r h), base_shares-IsCapped shared total rs h)

base_shares-sum :
    (shared total : ℕ) (rs : List ℕ)
    → sum (allocs (base_shares shared total rs)) * total ≤ shared * sum rs
unfolding base_shares allocs sum
base_shares-sum shared total [] = omega arith
base_shares-sum shared total (r ∷ rs) =
    let a = div-mul-le_self (shared * r) total in
    let b = base_shares-sum shared total rs in grind (arith, a, b)

base_shares-sum_le :
    (shared : ℕ) (rs : List ℕ) → 0 < sum rs → sum (allocs (base_shares shared (sum rs) rs)) ≤ shared
base_shares-sum_le shared rs h = le_of_mul-le-mul_right (base_shares-sum shared (sum rs) rs) h

zero_shares-IsSplit : (rs : List ℕ) → IsSplit 0 rs (zero_shares rs)
unfolding zero_shares IsSplit remainings allocs sum
zero_shares-IsSplit [] = (refl, (refl, tt))
zero_shares-IsSplit (r ∷ rs) =
    let (a, (b, c)) = zero_shares-IsSplit rs in
    (ap (λ x. r ∷ x) a, (omega (arith, b), (omega arith, c)))

refunds_total :
    (ss : List Share) → IsCapped ss → sum (refunds ss) + sum (allocs ss) ≡ sum (remainings ss)
unfolding refunds allocs remainings sum
refunds_total [] h = refl
refunds_total (s ∷ ss) h = let z = refunds_total ss h.1 in let k = h.0 in omega (arith, z, k)

-- The settlement succeeds wherever the approved shared total is within what remains of the deposits:
-- the defensive revert is never reached. Its allocations add up to the shared total to the last wei, and
-- none is above what remains of the tenant's deposit.
pub settle_exact :
    (shared : ℕ) (remaining : List ℕ)
    → shared ≤ sum remaining
    → (ss : List Share) × ((settle shared remaining ≡ some ss) × IsSplit shared remaining ss)
unfolding settle IsSplit
settle_exact shared remaining h =
    let total = sum remaining in
    let base = base_shares shared total remaining in
    let enough : ltb total shared ≡ false = ground (arith, h) in
    elim (Bool-cases (ltb 0 shared)) [
      | inl k ↦
          let small = base_shares-sum_le shared remaining (ground (arith, h, k)) in
          let (out, (d, q)) =
            distribute-IsSplit (shared - sum (allocs base)) (sum (allocs base)) remaining base
              (
                base_shares-remainings shared total remaining,
                (refl, base_shares-IsCapped shared total remaining h),
              )
              (omega (arith, small, h)) in
          (
            out,
            (
              if_false _ _ enough ∙ (if_true _ _ k ∙ d),
              subst (λ x. IsSplit x remaining out) (omega (arith, small)) q,
            ),
          )
      | inr k ↦ (
        zero_shares remaining,
        (
          if_false _ _ enough ∙ if_false _ _ k,
          subst (λ x. IsSplit x remaining (zero_shares remaining)) (ground (arith, k))
              (zero_shares-IsSplit remaining),
        ),
      )
    ]

-- The refunds and the shared total make up what remains of the deposits.
pub refunds-IsSplit :
    (shared : ℕ) (remaining : List ℕ) (ss : List Share)
    → IsSplit shared remaining ss
    → sum (refunds ss) + shared ≡ sum remaining
unfolding IsSplit
refunds-IsSplit shared remaining ss (a, (b, c)) =
    subst (λ x. sum (refunds ss) + x ≡ sum remaining) b
      (subst (λ x. sum (refunds ss) + sum (allocs ss) ≡ sum x) a (refunds_total ss c))
