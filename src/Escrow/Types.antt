-- ===== src/Escrow/Types.antt =====
-- The types of contracts/contracts/SharedDepositEscrow.sol. Addresses and hashes are numbers, zero
-- being `address(0)` and `bytes32(0)`; a uint128 is a natural below 2 ^ 128.
use shared_deposit_monad.Base.{ℕ, Bool, true, false}

abbrev pub min_tenants : ℕ
min_tenants = 2

abbrev pub max_tenants : ℕ
max_tenants = 8

abbrev pub max_claims : ℕ
max_claims = 32

pub data AgreementStatus : Type 0 where
  none funding active finalized cancelled : AgreementStatus

pub record Agreement : Type 0 where
  pub creator : ℕ
  pub recipient : ℕ
  pub terms_hash : ℕ
  pub lease_start : ℕ
  pub lease_end : ℕ
  pub funding_deadline : ℕ
  pub claim_deadline : ℕ
  pub settlement_deadline : ℕ
  pub tenant_count : ℕ
  pub required_approvals : ℕ
  pub claim_count : ℕ
  pub unresolved_claim_count : ℕ
  pub total_required : ℕ
  pub total_funded : ℕ
  pub total_cancelled_funding_withdrawn : ℕ
  pub total_open_claim_amount : ℕ
  pub total_approved_claims : ℕ
  pub shared_approved_claims : ℕ
  pub recipient_accepted : Bool
  pub recipient_payout_withdrawn : Bool
  pub status : AgreementStatus

pub record Tenant : Type 0 where
  pub required_amount : ℕ
  pub funded_amount : ℕ
  pub open_individual_claim_amount : ℕ
  pub approved_individual_claims : ℕ
  pub refund_amount : ℕ
  pub cancelled_funding_withdrawn_amount : ℕ
  pub index : ℕ
  pub exists : Bool
  pub accepted : Bool
  pub cancelled_funding_withdrawn : Bool
  pub refund_withdrawn : Bool

pub data ClaimType : Type 0 where
  shared individual : ClaimType

pub data ClaimStatus : Type 0 where
  none pending approved rejected withdrawn : ClaimStatus

pub record Claim : Type 0 where
  pub liable_tenant : ℕ
  pub reason_hash : ℕ
  pub evidence_hash : ℕ
  pub amount : ℕ
  pub yes_votes : ℕ
  pub no_votes : ℕ
  pub claim_type : ClaimType
  pub status : ClaimStatus

-- The custom errors, and the panic of checked arithmetic.
pub data Error : Type 0 where
  invalid_agreement invalid_status invalid_address invalid_tenant_count duplicate_tenant : Error
  creator_must_be_tenant recipient_cannot_be_tenant invalid_timeline invalid_amount : Error
  invalid_terms_hash not_tenant not_recipient not_participant already_accepted : Error
  tenant_not_accepted funding_deadline_passed funding_deadline_not_passed terms_mismatch : Error
  overfunding claim_window_closed claim_window_not_open missing_evidence : Error
  claim_exceeds_available_deposit individual_claim_exceeds_tenant_balance invalid_claim : Error
  too_many_claims already_voted voting_closed voting_still_open unresolved_claims_remain : Error
  nothing_to_withdraw already_withdrawn transfer_failed direct_transfer_not_allowed : Error
  panic : Error

unfoldable pub is_none : AgreementStatus → Bool
is_none AgreementStatus.none = true
is_none _ = false

unfoldable pub is_funding : AgreementStatus → Bool
is_funding AgreementStatus.funding = true
is_funding _ = false

unfoldable pub is_active : AgreementStatus → Bool
is_active AgreementStatus.active = true
is_active _ = false

unfoldable pub is_finalized : AgreementStatus → Bool
is_finalized AgreementStatus.finalized = true
is_finalized _ = false

unfoldable pub is_cancelled : AgreementStatus → Bool
is_cancelled AgreementStatus.cancelled = true
is_cancelled _ = false

unfoldable pub is_pending : ClaimStatus → Bool
is_pending ClaimStatus.pending = true
is_pending _ = false

unfoldable pub is_individual : ClaimType → Bool
is_individual ClaimType.individual = true
is_individual _ = false
