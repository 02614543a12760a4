-- ===== src/Escrow/Claims.antt =====
-- Claims and votes of contracts/contracts/SharedDepositEscrow.sol: submitClaim, withdrawPendingClaim,
-- voteClaim and finalizePendingClaim. The new claim's ID is the new claim count.
use shared_deposit_monad.Base.{
  ℕ, ◌+◌, Bool, true, false, not, ◌&&◌, ◌||◌, if◌then◌else◌, ltb, leb, ◌==◌, ◌%◌, ◌^◌,
}
use shared_deposit_monad.Escrow.Types.{
  Claim, ClaimType, shared, individual, ClaimStatus, max_claims, is_active, is_pending,
  invalid_status, invalid_amount, not_tenant, not_recipient, not_participant, claim_window_not_open,
  claim_window_closed, too_many_claims, missing_evidence, claim_exceeds_available_deposit,
  individual_claim_exceeds_tenant_balance, invalid_claim, already_voted, voting_closed,
  voting_still_open,
}
use shared_deposit_monad.Escrow.Storage.{
  State, Msg, Call, ok, ◌>>=◌, ◌>>◌, revert_if, add_u16, add_u32, add_u128, sub_checked,
  require_agreement, put, set_tenant, set_claim, Done, finish,
}

-- The reservation of a new claim in the balance of the tenant that it names.
unfoldable pub reserve : ClaimType → (liable amount : ℕ) → State → Call State
unfolding sub_checked add_u128 set_tenant
reserve shared liable amount s = do revert_if (not (liable == 0)) invalid_claim; ok s
reserve individual liable amount s = do
  revert_if (not (s.tenants liable).exists) invalid_claim
  revert_if
      (ltb (s.tenants liable).funded_amount (
        (s.tenants liable).open_individual_claim_amount
        + (s.tenants liable).approved_individual_claims
        + amount))
      individual_claim_exceeds_tenant_balance
  open_amount ← add_u128 (s.tenants liable).open_individual_claim_amount amount
  ok (
      set_tenant liable (record (s.tenants liable) { open_individual_claim_amount = open_amount })
        s)

-- The storage of the new claim, after its reservation.
unfoldable pub open_claim :
    ClaimType → (liable amount reason evidence : ℕ) → (unresolved open_amount : ℕ) → State → State
unfolding set_claim
open_claim kind liable amount reason evidence unresolved open_amount s =
    let id = s.agreement.claim_count + 1 in
    let c = record (s.claims id) {
      liable_tenant = liable;
      reason_hash = reason;
      evidence_hash = evidence;
      amount = amount;
      claim_type = kind;
      status = ClaimStatus.pending;
    } in
    let a = record (s.agreement) {
      claim_count = id % 2 ^ 32;
      unresolved_claim_count = unresolved;
      total_open_claim_amount = open_amount;
    } in
    set_claim id c (record s { agreement = a })

unfoldable pub submit_claim :
    Msg → ClaimType → (liable amount reason evidence : ℕ) → State → Call Done
unfolding require_agreement is_active add_u32 add_u128
submit_claim msg kind liable amount reason evidence s = do
  require_agreement s
  revert_if (not (is_active s.agreement.status)) invalid_status
  revert_if (not (msg.sender == s.agreement.recipient)) not_recipient
  revert_if (ltb msg.timestamp s.agreement.lease_end) claim_window_not_open
  revert_if (ltb s.agreement.claim_deadline msg.timestamp) claim_window_closed
  revert_if (leb max_claims s.agreement.claim_count) too_many_claims
  revert_if (amount == 0) invalid_amount
  revert_if (reason == 0 || evidence == 0) missing_evidence
  revert_if
      (ltb s.agreement.total_funded
        (s.agreement.total_open_claim_amount + s.agreement.total_approved_claims + amount))
      claim_exceeds_available_deposit
  s2 ← reserve kind liable amount s
  unresolved ← add_u32 s2.agreement.unresolved_claim_count 1
  open_amount ← add_u128 s2.agreement.total_open_claim_amount amount
  finish (open_claim kind liable amount reason evidence unresolved open_amount s2)

-- The tenant's part of `_releaseOpenClaimReservation`.
unfoldable pub release_for : ClaimType → Claim → State → Call State
unfolding sub_checked set_tenant
release_for shared c s = ok s
release_for individual c s = do
  open_amount ← sub_checked (s.tenants c.liable_tenant).open_individual_claim_amount c.amount
  ok (
      set_tenant c.liable_tenant
        (record (s.tenants c.liable_tenant) { open_individual_claim_amount = open_amount }) s)

-- A claim leaves PENDING without approval: the status, the count, and the reservation.
unfoldable pub close_claim : ClaimStatus → ℕ → State → Call State
unfolding sub_checked set_claim release_for
close_claim status id s = do
  unresolved ← sub_checked s.agreement.unresolved_claim_count 1
  open_amount ← sub_checked s.agreement.total_open_claim_amount (s.claims id).amount
  let a = record (s.agreement) {
    unresolved_claim_count = unresolved;
    total_open_claim_amount = open_amount;
  }
  release_for (s.claims id).claim_type (s.claims id)
      (set_claim id (record (s.claims id) { status = status }) (record s { agreement = a }))

-- `_rejectClaim`
abbrev pub reject_claim : ℕ → State → Call State
reject_claim = close_claim ClaimStatus.rejected

-- The bucket that an approved claim is added to.
unfoldable pub approve_for : ClaimType → Claim → State → Call State
unfolding sub_checked add_u128 set_tenant
approve_for shared c s = do
  total ← add_u128 s.agreement.shared_approved_claims c.amount
  ok (record s { agreement = record (s.agreement) { shared_approved_claims = total } })
approve_for individual c s = do
  open_amount ← sub_checked (s.tenants c.liable_tenant).open_individual_claim_amount c.amount
  total ← add_u128 (s.tenants c.liable_tenant).approved_individual_claims c.amount
  let t = record (s.tenants c.liable_tenant) {
    open_individual_claim_amount = open_amount;
    approved_individual_claims = total;
  }
  ok (set_tenant c.liable_tenant t s)

-- `_approveClaim`
unfoldable pub approve_claim : ℕ → State → Call State
unfolding sub_checked add_u128 set_claim approve_for
approve_claim id s = do
  unresolved ← sub_checked s.agreement.unresolved_claim_count 1
  open_amount ← sub_checked s.agreement.total_open_claim_amount (s.claims id).amount
  total ← add_u128 s.agreement.total_approved_claims (s.claims id).amount
  let a = record (s.agreement) {
    unresolved_claim_count = unresolved;
    total_open_claim_amount = open_amount;
    total_approved_claims = total;
  }
  approve_for (s.claims id).claim_type (s.claims id) (
      set_claim id (record (s.claims id) { status = ClaimStatus.approved })
        (record s { agreement = a }))

unfoldable pub withdraw_pending_claim : Msg → ℕ → State → Call Done
unfolding require_agreement is_active is_pending
withdraw_pending_claim msg id s = do
  require_agreement s
  revert_if (not (is_active s.agreement.status)) invalid_status
  revert_if (not (msg.sender == s.agreement.recipient)) not_recipient
  revert_if (not (is_pending (s.claims id).status)) invalid_claim
  s2 ← close_claim ClaimStatus.withdrawn id s
  finish s2

-- The vote and its count; 1 is YES, 2 is NO.
unfoldable pub count_vote : Msg → ℕ → (support : Bool) → State → Call State
unfolding add_u16 set_claim
count_vote msg id true s = do
  yes_votes ← add_u16 (s.claims id).yes_votes 1
  let c = record (s.claims id) { yes_votes = yes_votes }
  ok (set_claim id c (record s { votes = put s.votes id (put (s.votes id) msg.sender 1) }))
count_vote msg id false s = do
  no_votes ← add_u16 (s.claims id).no_votes 1
  let c = record (s.claims id) { no_votes = no_votes }
  ok (set_claim id c (record s { votes = put s.votes id (put (s.votes id) msg.sender 2) }))

-- Rejection once an approval is impossible.
unfoldable pub reject_if_lost : ℕ → State → Call State
unfolding sub_checked add_u16
reject_if_lost id s = do
  others ← sub_checked s.agreement.tenant_count s.agreement.required_approvals
  bound ← add_u16 others 1
  if leb bound (s.claims id).no_votes then reject_claim id s else ok s

-- The outcome of the counted votes.
unfoldable pub resolve_vote : ℕ → State → Call State
resolve_vote id s =
    if leb s.agreement.required_approvals (s.claims id).yes_votes
    then approve_claim id s
    else reject_if_lost id s

unfoldable pub vote_claim : Msg → ℕ → (support : Bool) → State → Call Done
unfolding require_agreement is_active is_pending
vote_claim msg id support s = do
  require_agreement s
  revert_if (not (is_active s.agreement.status)) invalid_status
  revert_if (ltb s.agreement.settlement_deadline msg.timestamp) voting_closed
  revert_if (not (s.tenants msg.sender).exists) not_tenant
  revert_if (not (is_pending (s.claims id).status)) invalid_claim
  revert_if (not (s.votes id msg.sender == 0)) already_voted
  s2 ← count_vote msg id support s
  s3 ← resolve_vote id s2
  finish s3

unfoldable pub finalize_pending_claim : Msg → ℕ → State → Call Done
unfolding require_agreement is_active is_pending
finalize_pending_claim msg id s = do
  require_agreement s
  revert_if (not (is_active s.agreement.status)) invalid_status
  revert_if (leb msg.timestamp s.agreement.settlement_deadline) voting_still_open
  revert_if (not (s.tenants msg.sender).exists && not (msg.sender == s.agreement.recipient))
      not_participant
  revert_if (not (is_pending (s.claims id).status)) invalid_claim
  s2 ←
      (if leb s.agreement.required_approvals (s.claims id).yes_votes
        then approve_claim id s
        else reject_claim id s)
  finish s2
