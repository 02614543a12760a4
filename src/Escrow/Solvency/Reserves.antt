-- ===== src/Escrow/Solvency/Reserves.antt =====
-- The reservations of claims and the bounds of contracts/contracts/SharedDepositEscrow.sol, over
-- changes of one tenant.
use shared_deposit_monad.Base.{
  ℕ, ◌<◌, ◌≡◌, refl, ◌∙◌, inl, inr, Bool, false, ◌&&◌, not, if◌then◌else◌, arith, Bool-cases,
}
use shared_deposit_monad.Escrow.Types.{Tenant, Claim, is_finalized, is_cancelled}
use shared_deposit_monad.Escrow.Storage.{State, put, set_tenant, u128}
use shared_deposit_monad.Escrow.Sums.{put_all, put_keeps, tenant_sum_zero}
use shared_deposit_monad.Escrow.Funding.{
  check_and_activate, with_status, all_tenants_accepted_and_funded,
}
use shared_deposit_monad.Escrow.Solvency.{
  IsReserved, IsBounded, IsUnpaid, claimed_of, claimed, is_stray, is_opened,
}

-- Nothing is claimed.
abbrev pub IsClaimless : State → Type 0
IsClaimless s =
    ((a : ℕ) → claimed_of (s.tenants a) ≡ 0)
    × (claimed s.agreement ≡ 0)
    × (s.agreement.shared_approved_claims ≡ 0)
    × ((id : ℕ) → is_stray s.tenants (s.claims id) ≡ false)

approved_nothing : (t : Tenant) → claimed_of t ≡ 0 → t.approved_individual_claims ≡ 0
approved_nothing t h = omega arith

pub closed-IsClaimless :
    (s : State) → is_opened s.agreement.status ≡ false → IsReserved s → IsClaimless s
closed-IsClaimless s closed (each, total, buckets, stray, none_each, none_total) =
    let nothing : claimed s.agreement ≡ 0 = rw closed at none_total in
    ((λ a. rw closed at (none_each a)), nothing, omega arith, stray)

zero_if : (b : Bool) (n : ℕ) → n ≡ 0 → (if b then 0 else n) ≡ 0
zero_if b n h = ground arith

pub IsClaimless-IsReserved : (s : State) → IsClaimless s → IsReserved s
IsClaimless-IsReserved s (each, total, shared, stray) =
    let buckets =
      tenant_sum_zero (λ t. t.approved_individual_claims) s.tenants s.tenant_list
        (λ a. approved_nothing (s.tenants a) (each a)) in
    (
      (λ a. omega (arith, each a)),
      omega arith,
      omega arith,
      stray,
      (λ a. zero_if _ _ (each a)),
      zero_if _ _ total,
    )

-- What a claim says of its tenant stands while tenants are kept.
pub stray_keeps :
    (tenants others : ℕ → Tenant) (c : Claim)
    → ((a : ℕ) → (others a).exists ≡ (tenants a).exists)
    → is_stray others c ≡ is_stray tenants c
unfolding is_stray
stray_keeps tenants others c h = rw (h c.liable_tenant) refl

pub set_tenant-IsClaimless :
    (s : State) (a : ℕ) (t : Tenant)
    → claimed_of t ≡ claimed_of (s.tenants a)
    → t.exists ≡ (s.tenants a).exists
    → IsClaimless s
    → IsClaimless (set_tenant a t s)
unfolding set_tenant
set_tenant-IsClaimless s a t same there (each, total, shared, stray) = (
  put_all (λ (u : Tenant). claimed_of u ≡ 0) s.tenants a t (same ∙ each a) each,
  total,
  shared,
  (λ id.
      stray_keeps s.tenants (put s.tenants a t) (s.claims id)
        (put_keeps (λ (u : Tenant). u.exists) s.tenants a t there)
      ∙ stray id),
)

pub check_and_activate-IsClaimless :
    (s : State) → IsClaimless s → IsClaimless (check_and_activate s)
unfolding check_and_activate with_status
check_and_activate-IsClaimless s h =
    elim (Bool-cases (s.agreement.recipient_accepted && all_tenants_accepted_and_funded s)) [
      | inl k ↦ rw k h
      | inr k ↦ rw k h
    ]

-- Nothing is claimed, and the agreement is not finalized.
abbrev pub IsQuiet : State → Type 0
IsQuiet s = IsClaimless s × IsBounded s × IsUnpaid s × (is_finalized s.agreement.status ≡ false)

pub set_tenant-IsQuiet :
    (s : State) (a : ℕ) (t : Tenant)
    → claimed_of t ≡ claimed_of (s.tenants a)
    → t.exists ≡ (s.tenants a).exists
    → t.refund_withdrawn ≡ (s.tenants a).refund_withdrawn
    → t.funded_amount < u128
    → IsQuiet s
    → IsQuiet (set_tenant a t s)
unfolding set_tenant
set_tenant-IsQuiet s a t same there paid small
      (quiet, (bound, total), (each, payout, back), running) =
    (
      set_tenant-IsClaimless s a t same there quiet,
      (put_all (λ (u : Tenant). u.funded_amount < u128) s.tenants a t small bound, total),
      (
        put_all
            (λ (u : Tenant). (u.refund_withdrawn && not (is_finalized s.agreement.status)) ≡ false)
            s.tenants a t (rw paid (each a)) each,
        payout,
        back,
      ),
      running,
    )

unpaid_active : (b c : Bool) → (b && not c) ≡ false → c ≡ false → (b && not false) ≡ false
unpaid_active b c h k = ground arith

pub nothing_back : (b : Bool) (n : ℕ) → (if b then 0 else n) ≡ 0 → b ≡ false → n ≡ 0
nothing_back b n h k = ground arith

pub check_and_activate-IsQuiet :
    (s : State)
    → is_cancelled s.agreement.status ≡ false
    → IsQuiet s
    → IsQuiet (check_and_activate s)
unfolding check_and_activate with_status is_finalized is_cancelled
check_and_activate-IsQuiet s live (quiet, bound, (each, payout, back), running) =
    elim (Bool-cases (s.agreement.recipient_accepted && all_tenants_accepted_and_funded s)) [
      | inl k ↦ rw k (
        quiet,
        bound,
        (
          (λ a. unpaid_active _ _ (each a) running),
          unpaid_active _ _ payout running,
          nothing_back _ _ back live,
        ),
        refl,
      )
      | inr k ↦ rw k (quiet, bound, (each, payout, back), running)
    ]
