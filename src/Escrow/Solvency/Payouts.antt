-- ===== src/Escrow/Solvency/Payouts.antt =====
-- The finalization of contracts/contracts/SharedDepositEscrow.sol and the deposits.
pub mod Refunds
pub mod Conservation
use shared_deposit_monad.Base.{
  ℕ, ◌+◌, ◌≤◌, ◌<◌, ◌≡◌, refl, sym, ap, ◌∙◌, ◌↔◌, inl, inr, Bool, true, false, ◌&&◌, ◌||◌, not,
  ◌==◌, arith, Bool-cases, leb, List, if◌then◌else◌,
}
use shared_deposit_monad.Escrow.Types.{
  AgreementStatus, Agreement, Tenant, is_none, is_active, is_finalized, is_cancelled, is_funding,
  invalid_status, voting_still_open, unresolved_claims_remain,
}
use shared_deposit_monad.Escrow.Storage.{
  State, Msg, Call, ok, reverted, Done, u128, set_tenant, require_agreement, revert_if, finish,
  send_mon, ◌>>=◌, ◌>>◌, bind_ok, ok_inj, put,
}
use shared_deposit_monad.Escrow.Funding.{with_status}
use shared_deposit_monad.Escrow.Finalization.{
  compute_settlement, finalize_agreement, withdraw_tenant_refund, withdraw_recipient_payout,
}
use shared_deposit_monad.Escrow.Settlement.{Share}
use shared_deposit_monad.Escrow.Sums.{tenant_sum, tenant_sum-put, tenant_sum_ext}
use shared_deposit_monad.Escrow.Solvency.{
  owed_of, owed, unpaid_of, unpaid_payout, held, is_opened, claimed_of, IsAccounted, Conserves,
  IsSound, IsReserved, IsUnpaid, IsBounded,
}
use shared_deposit_monad.Escrow.Solvency.Changes.{not_withdrawn}
use shared_deposit_monad.Escrow.Solvency.Reserves.{stray_keeps, nothing_back}
use shared_deposit_monad.Escrow.Solvency.Quiet.{not_finalized-held}
use shared_deposit_monad.Escrow.Solvency.Claims.{moved-KeepsOwed, moved_tenant-KeepsOwed}
use shared_deposit_monad.Escrow.Solvency.Payouts.Refunds.{
  refunded, refunded_keeps, compute_settlement_total,
}

pub active_status :
    (x : AgreementStatus)
    → is_active x ≡ true
    → (is_cancelled x ≡ false) × (is_finalized x ≡ false) × (is_none x ≡ false)
unfolding is_active is_cancelled is_finalized is_none
active_status x h = ground arith

pub owed_of_whole :
    (t : Tenant) → t.cancelled_funding_withdrawn ≡ false → owed_of t ≡ t.funded_amount
unfolding owed_of
owed_of_whole t h = rw h refl

pub unpaid_of_whole : (t : Tenant) → t.refund_withdrawn ≡ false → unpaid_of t ≡ t.refund_amount
unfolding unpaid_of
unpaid_of_whole t h = rw h refl

-- On an active agreement the deposits are whole: what is owed is what was funded.
deposits_whole :
    (s : State)
    → IsAccounted s
    → is_active s.agreement.status ≡ true
    → (owed s.tenants s.tenant_list ≡ tenant_sum (λ t. t.funded_amount) s.tenants s.tenant_list)
      × (s.agreement.total_funded ≡ owed s.tenants s.tenant_list)
deposits_whole s ((reg, distinct, fits, before, total), reserved, bound, (unpaid, payout, back)) h =
    let (live, running, there) = active_status s.agreement.status h in
    (
      tenant_sum_ext owed_of (λ t. t.funded_amount) s.tenants s.tenants s.tenant_list
          (λ a. owed_of_whole (s.tenants a) (not_withdrawn _ _ (before a) live)),
      omega (arith, nothing_back _ _ back live),
    )

-- The settlement of an active agreement succeeds, and splits the deposits to the last wei.
pub active_settlement :
    (s : State)
    → IsAccounted s
    → is_active s.agreement.status ≡ true
    → (tenants : ℕ → Tenant) × (total : ℕ) × (compute_settlement s
        ≡ ok (record s { tenants = tenants }, total))
      × (tenant_sum (λ t. t.refund_amount) tenants s.tenant_list + s.agreement.total_approved_claims
          ≡ owed s.tenants s.tenant_list)
      × (shares : List Share) × (tenants ≡ refunded s.tenant_list shares s.tenants)
active_settlement s kept h =
    let (whole, funded) = deposits_whole s kept h in
    let (each, all, buckets, stray, none_each, none_all) = kept.1 in
    let (shares, total, e, sums) =
      compute_settlement_total s (λ a. omega (arith, each a)) kept.2.0 kept.0.1 (omega arith)
        (omega (arith, kept.2.1)) in
    (refunded s.tenant_list shares s.tenants, total, e, omega arith, shares, refl)

-- The guards of the finalization, with the settlement shut.
pub finalize_guards :
    (msg : Msg) (s : State) (next : Call Done) (d : Done)
    → (require_agreement s
        >> (revert_if (not (is_active s.agreement.status)) invalid_status
            >> (revert_if (leb msg.timestamp s.agreement.settlement_deadline) voting_still_open
                >> (revert_if
                      (not (s.agreement.unresolved_claim_count == 0))
                      unresolved_claims_remain
                    >> next))))
      ≡ ok d
    → (is_active s.agreement.status ≡ true)
      × (s.agreement.settlement_deadline < msg.timestamp)
      × (s.agreement.unresolved_claim_count ≡ 0)
      × (next ≡ ok d)
finalize_guards msg s next d h = ground arith

finalize_passes :
    (msg : Msg) (s : State) (next : Call Done)
    → is_active s.agreement.status ≡ true
    → s.agreement.settlement_deadline < msg.timestamp
    → s.agreement.unresolved_claim_count ≡ 0
    → (require_agreement s
        >> (revert_if (not (is_active s.agreement.status)) invalid_status
            >> (revert_if (leb msg.timestamp s.agreement.settlement_deadline) voting_still_open
                >> (revert_if
                      (not (s.agreement.unresolved_claim_count == 0))
                      unresolved_claims_remain
                    >> next))))
      ≡ next
unfolding require_agreement
finalize_passes msg s next active late resolved =
    let there = (active_status s.agreement.status active).2 in ground arith

-- An agreement can be finalized, by anybody, exactly when it is active, its settlement deadline has
-- passed and no claim is unresolved: neither the defensive check of the settlement nor the checked
-- arithmetic ever reverts. Its refunds and the approved claims then make up the deposits.
pub finalize_agreement_iff :
    (msg : Msg) (s : State)
    → IsAccounted s
    → ((d : Done) × (finalize_agreement msg s ≡ ok d)
        × (tenant_sum (λ t. t.refund_amount) d.state.tenants d.state.tenant_list
              + d.state.agreement.total_approved_claims
            ≡ s.agreement.total_funded))
      ↔ ((is_active s.agreement.status ≡ true)
          × (s.agreement.settlement_deadline < msg.timestamp)
          × (s.agreement.unresolved_claim_count ≡ 0))
unfolding finalize_agreement
finalize_agreement_iff msg s kept = (
  (λ (d, e, sums).
      let (active, late, resolved, next) = finalize_guards msg s _ d e in (active, late, resolved)),
  (λ (active, late, resolved).
      let (tenants, total, e, sums, shares, shape) = active_settlement s kept active in
      let funded = (deposits_whole s kept active).1 in
      (
        record {
          state = with_status AgreementStatus.finalized (record s { tenants = tenants });
          sent = 0;
        },
        finalize_passes msg s _ active late resolved ∙ (rw e refl),
        unfold with_status in omega arith,
      )),
)
