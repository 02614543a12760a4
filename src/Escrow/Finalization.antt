-- ===== src/Escrow/Finalization.antt =====
-- Finalization and payouts of contracts/contracts/SharedDepositEscrow.sol: finalizeAgreement with
-- `_computeSettlement` on the storage, withdrawTenantRefund and withdrawRecipientPayout.
use shared_deposit_monad.Base.{ℕ, ◌%◌, Bool, true, not, none, some, List, [], ◌∷◌, leb, ◌==◌}
use shared_deposit_monad.Escrow.Types.{
  AgreementStatus, Tenant, is_active, is_finalized, invalid_status, invalid_amount, not_tenant,
  not_recipient, voting_still_open, unresolved_claims_remain, nothing_to_withdraw,
  already_withdrawn,
}
use shared_deposit_monad.Escrow.Storage.{
  State, Msg, Call, ok, reverted, ◌>>=◌, ◌>>◌, revert_if, u128, add_u128, sub_checked,
  require_agreement, put, set_tenant, Done, send_mon, finish,
}
use shared_deposit_monad.Escrow.Funding.{with_status}
use shared_deposit_monad.Escrow.Settlement.{Share, settle}

-- What remains of each deposit after the approved individual claims.
unfoldable pub remaining_deposits : (ℕ → Tenant) → List ℕ → Call (List ℕ)
unfolding sub_checked
remaining_deposits tenants [] = ok []
remaining_deposits tenants (a ∷ l) = do
  remaining ← sub_checked (tenants a).funded_amount (tenants a).approved_individual_claims
  rest ← remaining_deposits tenants l
  ok (remaining ∷ rest)

-- The last loop: the refunds are stored and added up.
unfoldable pub store_refunds :
    List ℕ → List Share → (ℕ → Tenant) → (total : ℕ) → Call ((ℕ → Tenant) × ℕ)
unfolding sub_checked add_u128
store_refunds [] shares tenants total = ok (tenants, total)
store_refunds (a ∷ l) [] tenants total = ok (tenants, total)
store_refunds (a ∷ l) (share ∷ shares) tenants total = do
  refund ← sub_checked share.remaining share.alloc
  let amount = refund % u128
  sum_so_far ← add_u128 total amount
  store_refunds l shares (put tenants a (record (tenants a) { refund_amount = amount })) sum_so_far

-- `_computeSettlement`: the storage with the refunds, and their total.
unfoldable pub compute_settlement : State → Call (State × ℕ)
compute_settlement s = do
  remaining ← remaining_deposits s.tenants s.tenant_list
  shares ← (elim (settle s.agreement.shared_approved_claims remaining) [
    | none ↦ reverted invalid_amount
    | some shares ↦ ok shares
  ])
  stored ← store_refunds s.tenant_list shares s.tenants 0
  ok (record s { tenants = stored.0 }, stored.1)

unfoldable pub finalize_agreement : Msg → State → Call Done
unfolding require_agreement is_active with_status
finalize_agreement msg s = do
  require_agreement s
  revert_if (not (is_active s.agreement.status)) invalid_status
  revert_if (leb msg.timestamp s.agreement.settlement_deadline) voting_still_open
  revert_if (not (s.agreement.unresolved_claim_count == 0)) unresolved_claims_remain
  settled ← compute_settlement s
  finish (with_status AgreementStatus.finalized settled.0)

unfoldable pub withdraw_tenant_refund : Msg → (accepts : Bool) → State → Call Done
unfolding require_agreement is_finalized set_tenant send_mon
withdraw_tenant_refund msg accepts s = do
  require_agreement s
  revert_if (not (is_finalized s.agreement.status)) invalid_status
  revert_if (not (s.tenants msg.sender).exists) not_tenant
  revert_if (s.tenants msg.sender).refund_withdrawn already_withdrawn
  let amount = (s.tenants msg.sender).refund_amount
  revert_if (amount == 0) nothing_to_withdraw
  send_mon accepts amount
      (set_tenant msg.sender (record (s.tenants msg.sender) { refund_withdrawn = true }) s)

unfoldable pub withdraw_recipient_payout : Msg → (accepts : Bool) → State → Call Done
unfolding require_agreement is_finalized send_mon
withdraw_recipient_payout msg accepts s = do
  require_agreement s
  revert_if (not (is_finalized s.agreement.status)) invalid_status
  revert_if (not (msg.sender == s.agreement.recipient)) not_recipient
  revert_if s.agreement.recipient_payout_withdrawn already_withdrawn
  let amount = s.agreement.total_approved_claims
  revert_if (amount == 0) nothing_to_withdraw
  send_mon accepts amount
      (record s { agreement = record (s.agreement) { recipient_payout_withdrawn = true } })
