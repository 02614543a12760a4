-- ===== src/Escrow/Solvency/Claims.antt =====
-- Storage that the claims of contracts/contracts/SharedDepositEscrow.sol change, and what it keeps.
pub mod Ends
pub mod Calls
pub mod Resolutions
pub mod Conservation
use shared_deposit_monad.Base.{
  ℕ, ◌+◌, ◌-◌, ◌≤◌, ◌<◌, ◌≡◌, refl, sym, ◌∙◌, subst, inl, inr, ◌⊎◌, Bool, true, false, ◌&&◌, ◌||◌,
  not, if◌then◌else◌, List, [], ◌∷◌, ◌==◌, any, arith, Bool-cases,
}
use shared_deposit_monad.Escrow.Types.{Agreement, Tenant, Claim, is_finalized, is_cancelled}
use shared_deposit_monad.Escrow.Storage.{State, put, set_tenant, u128, IsRegistered}
use shared_deposit_monad.Escrow.Sums.{tenant_sum, put_all, put_keeps, tenant_sum-put}
use shared_deposit_monad.Escrow.Solvency.{
  owed_of, owed, IsSound, IsReserved, IsBounded, IsUnpaid, IsAccounted, claimed_of, claimed,
  is_stray, is_opened,
}
use shared_deposit_monad.Escrow.Solvency.Reserves.{stray_keeps}

-- The storage with another agreement record, other claims and other votes.
abbrev pub moved : Agreement → (ℕ → Claim) → (ℕ → ℕ → ℕ) → State → State
moved ag claims votes s = record s { agreement = ag; claims = claims; votes = votes }

-- The parts of the record that no claim changes.
abbrev pub KeepsCore : Agreement → Agreement → Type 0
KeepsCore ag old =
    (ag.status ≡ old.status)
    × (ag.total_funded ≡ old.total_funded)
    × (ag.total_cancelled_funding_withdrawn ≡ old.total_cancelled_funding_withdrawn)

abbrev pub KeepsTenant : Tenant → Tenant → Type 0
KeepsTenant t old =
    (t.exists ≡ old.exists)
    × (t.required_amount ≡ old.required_amount)
    × (t.funded_amount ≡ old.funded_amount)
    × (t.cancelled_funding_withdrawn ≡ old.cancelled_funding_withdrawn)

abbrev pub KeepsOwed : State → State → Type 0
KeepsOwed s s2 =
    IsAccounted s2
    × (owed s2.tenants s2.tenant_list ≡ owed s.tenants s.tenant_list)
    × (s2.agreement.status ≡ s.agreement.status)

opened_zero : (b : Bool) (n : ℕ) → b ≡ true → (if b then 0 else n) ≡ 0
opened_zero b n h = ground arith

-- Claims that name no tenant of their own, or whose tenant stays as it is.
pub moved-KeepsOwed :
    (ag : Agreement) (claims : ℕ → Claim) (votes : ℕ → ℕ → ℕ) (s : State)
    → IsAccounted s
    → is_opened s.agreement.status ≡ true
    → KeepsCore ag s.agreement
    → (ag.recipient_payout_withdrawn && not (is_finalized s.agreement.status)) ≡ false
    → claimed ag ≤ s.agreement.total_funded
    → ag.shared_approved_claims + s.agreement.total_approved_claims
      ≡ s.agreement.shared_approved_claims + ag.total_approved_claims
    → ((id : ℕ) → is_stray s.tenants (claims id) ≡ false)
    → KeepsOwed s (moved ag claims votes s)
moved-KeepsOwed ag claims votes s
      (
        (reg, distinct, fits, before, total),
        (each, all, buckets, stray, none_each, none_all),
        (bound, bound2),
        (unpaid, payout, back),
      )
      opened (status, funded, withdrawn) taken le shared strays =
    (
      (
        (reg, distinct, fits, (λ a. rw status (before a)), omega arith),
        (
          each,
          omega arith,
          omega arith,
          strays,
          (λ a. rw status (none_each a)),
          rw status (opened_zero _ _ opened),
        ),
        (bound, omega arith),
        ((λ a. rw status (unpaid a)), rw status taken, rw (status, withdrawn) back),
      ),
      refl,
      status,
    )

owed_of_keeps : (t old : Tenant) → KeepsTenant t old → owed_of t ≡ owed_of old
unfolding owed_of
owed_of_keeps t old (there, required, funded, flag) = rw (flag, funded) refl

-- A changed claim on one tenant.
pub moved_tenant-KeepsOwed :
    (ag : Agreement) (claims : ℕ → Claim) (votes : ℕ → ℕ → ℕ) (s : State) (a : ℕ) (t : Tenant)
    → IsAccounted s
    → is_opened s.agreement.status ≡ true
    → KeepsCore ag s.agreement
    → (ag.recipient_payout_withdrawn && not (is_finalized s.agreement.status)) ≡ false
    → (s.tenants a).exists ≡ true
    → KeepsTenant t (s.tenants a)
    → (t.refund_withdrawn && not (is_finalized s.agreement.status)) ≡ false
    → claimed_of t ≤ (s.tenants a).funded_amount
    → claimed ag ≤ s.agreement.total_funded
    → ag.shared_approved_claims + t.approved_individual_claims + s.agreement.total_approved_claims
      ≡ s.agreement.shared_approved_claims
        + (s.tenants a).approved_individual_claims
        + ag.total_approved_claims
    → ((id : ℕ) → is_stray s.tenants (claims id) ≡ false)
    → KeepsOwed s (set_tenant a t (moved ag claims votes s))
unfolding set_tenant
moved_tenant-KeepsOwed ag claims votes s a t
      (
        (reg, distinct, fits, before, total),
        (each, all, buckets, stray, none_each, none_all),
        (bound, bound2),
        (unpaid, payout, back),
      )
      opened (status, funded, withdrawn) taken there same own le le2 shared strays =
    let listed = sym (reg a) ∙ there in
    let sum_owed = tenant_sum-put owed_of s.tenants a t s.tenant_list distinct listed in
    let sum_approved =
      tenant_sum-put (λ u. u.approved_individual_claims) s.tenants a t s.tenant_list distinct
        listed in
    let same_owed = owed_of_keeps t (s.tenants a) same in
    (
      (
        (
          (λ x. put_keeps (λ (u : Tenant). u.exists) s.tenants a t same.0 x ∙ reg x),
          distinct,
          put_all (λ (u : Tenant). u.required_amount < u128) s.tenants a t (rw same.1 (fits a))
              fits,
          put_all
              (λ (u : Tenant).
                (u.cancelled_funding_withdrawn && not (is_cancelled ag.status)) ≡ false)
              s.tenants a t (rw (same.3, status) (before a)) (λ x. rw status (before x)),
          omega arith,
        ),
        (
          put_all (λ (u : Tenant). claimed_of u ≤ u.funded_amount) s.tenants a t (rw same.2 le)
              each,
          omega arith,
          omega arith,
          (λ id.
              stray_keeps s.tenants (put s.tenants a t) (claims id)
                (put_keeps (λ (u : Tenant). u.exists) s.tenants a t same.0)
              ∙ strays id),
          (λ x. rw status (opened_zero _ _ opened)),
          rw status (opened_zero _ _ opened),
        ),
        (
          put_all (λ (u : Tenant). u.funded_amount < u128) s.tenants a t (rw same.2 (bound a))
              bound,
          omega arith,
        ),
        (
          put_all (λ (u : Tenant). (u.refund_withdrawn && not (is_finalized ag.status)) ≡ false)
              s.tenants a t (rw status own) (λ x. rw status (unpaid x)),
          rw status taken,
          rw (status, withdrawn) back,
        ),
      ),
      omega arith,
      status,
    )
