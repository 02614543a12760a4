-- ===== src/Escrow/Creation.antt =====
-- `createAgreement` and `_registerTenants` of contracts/contracts/SharedDepositEscrow.sol. The storage
-- of a new agreement ID is the zero value.
use shared_deposit_monad.Base.{
  ℕ, suc, ◌+◌, ◌/◌, ◌%◌, ◌^◌, Bool, true, false, not, ◌||◌, List, [], ◌∷◌, ◌++◌, ltb, leb, ◌==◌,
  length,
}
use shared_deposit_monad.Escrow.Types.{
  Agreement, AgreementStatus, Tenant, Claim, ClaimType, ClaimStatus, invalid_address,
  invalid_terms_hash, invalid_tenant_count, invalid_timeline, invalid_amount, duplicate_tenant,
  creator_must_be_tenant, recipient_cannot_be_tenant, min_tenants, max_tenants,
}
use shared_deposit_monad.Escrow.Storage.{
  State, Msg, Call, ok, ◌>>=◌, ◌>>◌, revert_if, u128, set_tenant,
}

pub record Terms : Type 0 where
  pub recipient : ℕ
  pub terms_hash : ℕ
  pub lease_start : ℕ
  pub lease_end : ℕ
  pub funding_deadline : ℕ
  pub claim_deadline : ℕ
  pub settlement_deadline : ℕ
  pub tenant_addresses : List ℕ
  pub required_amounts : List ℕ

abbrev pub blank_agreement : Agreement
blank_agreement = record {
  creator = 0;
  recipient = 0;
  terms_hash = 0;
  lease_start = 0;
  lease_end = 0;
  funding_deadline = 0;
  claim_deadline = 0;
  settlement_deadline = 0;
  tenant_count = 0;
  required_approvals = 0;
  claim_count = 0;
  unresolved_claim_count = 0;
  total_required = 0;
  total_funded = 0;
  total_cancelled_funding_withdrawn = 0;
  total_open_claim_amount = 0;
  total_approved_claims = 0;
  shared_approved_claims = 0;
  recipient_accepted = false;
  recipient_payout_withdrawn = false;
  status = AgreementStatus.none;
}

abbrev pub blank_tenant : Tenant
blank_tenant = record {
  required_amount = 0;
  funded_amount = 0;
  open_individual_claim_amount = 0;
  approved_individual_claims = 0;
  refund_amount = 0;
  cancelled_funding_withdrawn_amount = 0;
  index = 0;
  exists = false;
  accepted = false;
  cancelled_funding_withdrawn = false;
  refund_withdrawn = false;
}

abbrev pub blank_claim : Claim
blank_claim = record {
  liable_tenant = 0;
  reason_hash = 0;
  evidence_hash = 0;
  amount = 0;
  yes_votes = 0;
  no_votes = 0;
  claim_type = ClaimType.shared;
  status = ClaimStatus.none;
}

abbrev pub blank_state : State
blank_state = record {
  agreement = blank_agreement;
  tenant_list = [];
  tenants = λ a. blank_tenant;
  claims = λ n. blank_claim;
  votes = λ n a. 0;
}

-- The loop of `_registerTenants` from index `i` on: the new storage, whether the creator was listed,
-- and the total. The caller has checked that both lists are of one length.
pub record Registered : Type 0 where
  pub state : State
  pub creator_listed : Bool
  pub total : ℕ

-- The slot that one tenant gets, and its place at the end of the list.
unfoldable pub register_one : (tenant required i : ℕ) → State → State
unfolding set_tenant
register_one tenant required i s =
    let t = record (s.tenants tenant) {
      required_amount = required;
      index = i % 2 ^ 16;
      exists = true;
    } in
    set_tenant tenant t (record s { tenant_list = s.tenant_list ++ tenant ∷ [] })

unfoldable pub register_tenants :
    (sender recipient i : ℕ) → List ℕ → List ℕ → Registered → Call Registered
unfolding register_one
register_tenants sender recipient i [] amounts r = ok r
register_tenants sender recipient i (a ∷ addresses) [] r = ok r
register_tenants sender recipient i (a ∷ addresses) (n ∷ amounts) r = do
  revert_if (a == 0) invalid_address
  revert_if (a == recipient) recipient_cannot_be_tenant
  revert_if (r.state.tenants a).exists duplicate_tenant
  revert_if (n == 0) invalid_amount
  register_tenants sender recipient (suc i) addresses amounts (record {
    state = register_one a n i r.state;
    creator_listed = a == sender || r.creator_listed;
    total = r.total + n;
  })

unfoldable pub new_agreement : Msg → Terms → Agreement
new_agreement msg t = record (blank_agreement) {
  creator = msg.sender;
  recipient = t.recipient;
  terms_hash = t.terms_hash;
  lease_start = t.lease_start;
  lease_end = t.lease_end;
  funding_deadline = t.funding_deadline;
  claim_deadline = t.claim_deadline;
  settlement_deadline = t.settlement_deadline;
  tenant_count = length t.tenant_addresses % 2 ^ 16;
  required_approvals = (length t.tenant_addresses / 2) % 2 ^ 16 + 1;
  status = AgreementStatus.funding;
}

unfoldable pub check_terms : Msg → Terms → Call (Unit {0})
check_terms msg t = do
  revert_if (t.recipient == 0) invalid_address
  revert_if (t.terms_hash == 0) invalid_terms_hash
  revert_if (not (length t.tenant_addresses == length t.required_amounts)) invalid_tenant_count
  revert_if
      (ltb (length t.tenant_addresses) min_tenants || ltb max_tenants (length t.tenant_addresses))
      invalid_tenant_count
  revert_if (leb t.funding_deadline msg.timestamp) invalid_timeline
  revert_if (ltb t.lease_end t.lease_start) invalid_timeline
  revert_if (ltb t.lease_end t.funding_deadline) invalid_timeline
  revert_if (leb t.claim_deadline t.lease_end) invalid_timeline
  revert_if (leb t.settlement_deadline t.claim_deadline) invalid_timeline

-- The storage of the new agreement.
unfoldable pub create_agreement : Msg → Terms → Call State
unfolding check_terms new_agreement register_tenants
create_agreement msg t = do
  check_terms msg t
  r ← register_tenants msg.sender t.recipient 0 t.tenant_addresses t.required_amounts (record {
    state = record (blank_state) { agreement = new_agreement msg t };
    creator_listed = false;
    total = 0;
  })
  revert_if (not r.creator_listed) creator_must_be_tenant
  revert_if (leb u128 r.total) invalid_amount
  let a = record (r.state.agreement) { total_required = r.total % u128 }
  let s = r.state
  ok (record s { agreement = a })
