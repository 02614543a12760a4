-- ===== src/Escrow/Solvency/Fresh.antt =====
-- An agreement of contracts/contracts/SharedDepositEscrow.sol before any call.
use shared_deposit_monad.Base.{ℕ, Bool, if◌then◌else◌, ◌<◌, ◌≡◌, refl, ◌∙◌, false, arith}
use shared_deposit_monad.Escrow.Types.{Agreement, Tenant, Claim, is_pending, is_finalized}
use shared_deposit_monad.Escrow.Storage.{State, u128, IsRegistered}
use shared_deposit_monad.Escrow.Sums.{IsDistinct, tenant_sum_zero}
use shared_deposit_monad.Escrow.Solvency.{owed_of, held, claimed_of, claimed, is_stray, IsAccounted}
use shared_deposit_monad.Escrow.Solvency.Reserves.{IsClaimless-IsReserved}
use shared_deposit_monad.Escrow.Solvency.Quiet.{not_finalized-held}

-- Nothing is funded, claimed, withdrawn or paid out.
abbrev pub IsBlank : Tenant → Type 0
IsBlank t =
    (t.cancelled_funding_withdrawn ≡ false)
    × (t.funded_amount ≡ 0)
    × (claimed_of t ≡ 0)
    × (t.refund_withdrawn ≡ false)

abbrev pub IsIdle : Agreement → Type 0
IsIdle ag =
    (ag.total_funded ≡ 0)
    × (ag.total_cancelled_funding_withdrawn ≡ 0)
    × (claimed ag ≡ 0)
    × (ag.shared_approved_claims ≡ 0)
    × (ag.recipient_payout_withdrawn ≡ false)
    × (is_finalized ag.status ≡ false)
    × (ag.claim_count ≡ 0)
    × (ag.unresolved_claim_count ≡ 0)

-- The storage of an agreement whose tenants are those of the list, each once, before any other call.
abbrev pub IsFresh : State → Type 0
IsFresh s =
    IsRegistered s
    × IsDistinct s.tenant_list
    × ((a : ℕ) → (s.tenants a).required_amount < u128)
    × ((a : ℕ) → IsBlank (s.tenants a))
    × IsIdle s.agreement
    × ((id : ℕ) → is_pending (s.claims id).status ≡ false)

owed_of_nothing : (t : Tenant) → t.funded_amount ≡ 0 → owed_of t ≡ 0
unfolding owed_of
owed_of_nothing t h = ground arith

unclaimed_stray :
    (tenants : ℕ → Tenant) (c : Claim) → is_pending c.status ≡ false → is_stray tenants c ≡ false
unfolding is_stray
unclaimed_stray tenants c h = rw h refl

zero_small : (n : ℕ) → n ≡ 0 → n < u128
zero_small n h = omega arith

zero_back : (b : Bool) (n : ℕ) → n ≡ 0 → (if b then 0 else n) ≡ 0
zero_back b n h = ground arith

pub IsFresh-IsAccounted : (s : State) → IsFresh s → IsAccounted s × (held s ≡ 0)
IsFresh-IsAccounted s
      (
        reg,
        distinct,
        fits,
        blank,
        (total, back, none_claimed, none_shared, payout, running, counts, unresolved),
        pending,
      ) =
    let nothing =
      tenant_sum_zero owed_of s.tenants s.tenant_list
        (λ a. owed_of_nothing (s.tenants a) (blank a).1) in
    (
      (
        (reg, distinct, fits, (λ a. rw ((blank a).0) refl), omega arith),
        IsClaimless-IsReserved s (
          (λ a. (blank a).2),
          none_claimed,
          none_shared,
          (λ id. unclaimed_stray s.tenants (s.claims id) (pending id)),
        ),
        ((λ a. zero_small _ (blank a).1), zero_small _ total),
        ((λ a. rw ((blank a).3) refl), rw payout refl, zero_back _ _ back),
      ),
      not_finalized-held s running ∙ nothing,
    )
