-- ===== src/Escrow/Funding.antt =====
-- Acceptance, funding and cancellation of contracts/contracts/SharedDepositEscrow.sol.
use shared_deposit_monad.Base.{
  ℕ, Bool, true, not, ◌&&◌, ◌||◌, List, [], ◌∷◌, if◌then◌else◌, ltb, leb, ◌==◌, ◌%◌,
}
use shared_deposit_monad.Escrow.Types.{
  AgreementStatus, Tenant, invalid_status, invalid_amount, not_tenant, not_recipient,
  not_participant, already_accepted, tenant_not_accepted, funding_deadline_passed,
  funding_deadline_not_passed, terms_mismatch, overfunding, nothing_to_withdraw, already_withdrawn,
  is_funding, is_cancelled,
}
use shared_deposit_monad.Escrow.Storage.{
  State, Msg, Call, ◌>>=◌, ◌>>◌, revert_if, u128, add_u128, sub_checked, require_agreement,
  set_tenant, Done, send_mon, finish,
}

-- The loop of `_allTenantsAcceptedAndFunded`
unfoldable pub all_ready : (ℕ → Tenant) → List ℕ → Bool
all_ready tenants [] = true
all_ready tenants (a ∷ rest) =
    (tenants a).accepted
    && ((tenants a).funded_amount == (tenants a).required_amount && all_ready tenants rest)

unfoldable pub all_tenants_accepted_and_funded : State → Bool
unfolding all_ready
all_tenants_accepted_and_funded s =
    s.agreement.recipient_accepted && all_ready s.tenants s.tenant_list

unfoldable pub with_status : AgreementStatus → State → State
with_status status s = record s { agreement = record (s.agreement) { status = status } }

-- `_checkAndActivate`
unfoldable pub check_and_activate : State → State
unfolding with_status
check_and_activate s =
    if s.agreement.recipient_accepted && all_tenants_accepted_and_funded s
    then with_status AgreementStatus.active s
    else s

unfoldable pub accept_as_tenant : Msg → (expected_terms_hash : ℕ) → State → Call Done
unfolding require_agreement is_funding set_tenant
accept_as_tenant msg expected s = do
  require_agreement s
  revert_if (not (is_funding s.agreement.status)) invalid_status
  revert_if (ltb s.agreement.funding_deadline msg.timestamp) funding_deadline_passed
  revert_if (not (s.tenants msg.sender).exists) not_tenant
  revert_if (s.tenants msg.sender).accepted already_accepted
  revert_if (not (expected == s.agreement.terms_hash)) terms_mismatch
  let t = record (s.tenants msg.sender) { accepted = true }
  finish (check_and_activate (set_tenant msg.sender t s))

unfoldable pub accept_as_recipient : Msg → (expected_terms_hash : ℕ) → State → Call Done
unfolding require_agreement is_funding
accept_as_recipient msg expected s = do
  require_agreement s
  revert_if (not (is_funding s.agreement.status)) invalid_status
  revert_if (ltb s.agreement.funding_deadline msg.timestamp) funding_deadline_passed
  revert_if (not (msg.sender == s.agreement.recipient)) not_recipient
  revert_if s.agreement.recipient_accepted already_accepted
  revert_if (not (expected == s.agreement.terms_hash)) terms_mismatch
  let a = record (s.agreement) { recipient_accepted = true }
  finish (check_and_activate (record s { agreement = a }))

-- The tenant's funded amount and the total, changed together.
unfoldable pub set_funded : ℕ → (funded total : ℕ) → State → State
unfolding set_tenant
set_funded sender funded total s =
    let t = record (s.tenants sender) { funded_amount = funded } in
    let a = record (s.agreement) { total_funded = total } in
    set_tenant sender t (record s { agreement = a })

unfoldable pub deposit : Msg → State → Call Done
unfolding require_agreement is_funding sub_checked add_u128 set_funded
deposit msg s = do
  require_agreement s
  revert_if (not (is_funding s.agreement.status)) invalid_status
  revert_if (ltb s.agreement.funding_deadline msg.timestamp) funding_deadline_passed
  revert_if (not (s.tenants msg.sender).exists) not_tenant
  revert_if (not (s.tenants msg.sender).accepted) tenant_not_accepted
  revert_if (msg.value == 0) invalid_amount
  remaining ←
      sub_checked (s.tenants msg.sender).required_amount (s.tenants msg.sender).funded_amount
  revert_if (ltb remaining msg.value) overfunding
  let amount = msg.value % u128
  funded ← add_u128 (s.tenants msg.sender).funded_amount amount
  total ← add_u128 s.agreement.total_funded amount
  finish (check_and_activate (set_funded msg.sender funded total s))

unfoldable pub withdraw_funding_before_activation :
    Msg → (accepts : Bool) → (amount : ℕ) → State → Call Done
unfolding require_agreement is_funding sub_checked set_funded send_mon
withdraw_funding_before_activation msg accepts amount s = do
  require_agreement s
  revert_if (not (is_funding s.agreement.status)) invalid_status
  revert_if (not (s.tenants msg.sender).exists) not_tenant
  revert_if (amount == 0 || ltb (s.tenants msg.sender).funded_amount amount) invalid_amount
  funded ← sub_checked (s.tenants msg.sender).funded_amount amount
  total ← sub_checked s.agreement.total_funded amount
  send_mon accepts amount (set_funded msg.sender funded total s)

unfoldable pub cancel_expired_funding : Msg → State → Call Done
unfolding require_agreement is_funding with_status
cancel_expired_funding msg s = do
  require_agreement s
  revert_if (not (is_funding s.agreement.status)) invalid_status
  revert_if (leb msg.timestamp s.agreement.funding_deadline) funding_deadline_not_passed
  revert_if (not (s.tenants msg.sender).exists && not (msg.sender == s.agreement.recipient))
      not_participant
  finish (with_status AgreementStatus.cancelled s)

-- The tenant's withdrawal, recorded without erasing what was funded.
unfoldable pub set_cancelled_withdrawal : ℕ → (amount total : ℕ) → State → State
unfolding set_tenant
set_cancelled_withdrawal sender amount total s =
    let t = record (s.tenants sender) {
      cancelled_funding_withdrawn = true;
      cancelled_funding_withdrawn_amount = amount;
    } in
    let a = record (s.agreement) { total_cancelled_funding_withdrawn = total } in
    set_tenant sender t (record s { agreement = a })

unfoldable pub withdraw_cancelled_funding : Msg → (accepts : Bool) → State → Call Done
unfolding require_agreement is_cancelled add_u128 set_cancelled_withdrawal send_mon
withdraw_cancelled_funding msg accepts s = do
  require_agreement s
  revert_if (not (is_cancelled s.agreement.status)) invalid_status
  revert_if (not (s.tenants msg.sender).exists) not_tenant
  revert_if (s.tenants msg.sender).cancelled_funding_withdrawn already_withdrawn
  let amount = (s.tenants msg.sender).funded_amount
  revert_if (amount == 0) nothing_to_withdraw
  total ← add_u128 s.agreement.total_cancelled_funding_withdrawn amount
  send_mon accepts amount (set_cancelled_withdrawal msg.sender amount total s)
