-- ===== src/Examples/Contract.antt =====
-- The contract, and what the pages promise of it, at concrete inputs.
use shared_deposit_monad.Base.{
  ℕ, zero, suc, ◌≤◌, ◌<◌, ◌≡◌, refl, sym, ◌∙◌, ap, ◌≢◌, ◌↔◌, inl, inr, true, false, some, List, [],
  ◌∷◌, Text, arith, length, lower, norm, exceeds, is_some, text_eq, opt_eq, minus, is_positive,
}
use shared_deposit_monad.Escrow.Types.{AgreementStatus, Tenant}
use shared_deposit_monad.Escrow.Storage.{State, Msg, IsRegistered}
use shared_deposit_monad.Escrow.Creation.{blank_agreement, blank_tenant, blank_state}
use shared_deposit_monad.Escrow.Funding.{
  accept_as_tenant, deposit, withdraw_funding_before_activation,
}
use shared_deposit_monad.Escrow.Settlement.{Share, sum, settle}
use shared_deposit_monad.Escrow.Settlement.Exact.{settle_exact}
use shared_deposit_monad.Escrow.Settlement.Exact.Rounds.{IsSplit}
use shared_deposit_monad.Role.{
  resolve_agreement_role, session_match, has_accepted, remaining_of, find_tenant,
}
use shared_deposit_monad.Role.Permissions.{resolve_agreement_role-IsAllowed}
use shared_deposit_monad.Role.Contract.{
  is_ok, IsPrinting, mine, accept_as_tenant_iff, deposit_iff, withdraw_iff,
}
use shared_deposit_monad.Actions.{Common, tenant_funding_card, is_enabled, is_zero, request_of}
use shared_deposit_monad.Actions.{deposit as deposit_button}
use shared_deposit_monad.Tx.{is_action_locked}
use shared_deposit_monad.Format.{
  mon_to_wei, trim, trim_start, trim_end, is_space, decimal_input, decimal_rest, is_digit,
}
use shared_deposit_monad.Role.Snapshots.{
  page_params, agreement_snapshot, tenant_snapshots, tenant_snapshot, status_code,
}
use shared_deposit_monad.Actions.Gates.{is_pressable, sent_value, deposit-accepted}
use shared_deposit_monad.ContractTx.Send.{Verify}

-- Addresses are printed in unary.
abbrev show : ℕ → Text
show zero = 48 ∷ []
show (suc n) = 48 ∷ show n

length-lower : (s : Text) → length (lower s) ≡ length s
unfolding lower
length-lower [] = refl
length-lower (c ∷ s) = ap suc (length-lower s)

length-show : (n : ℕ) → length (show n) ≡ suc n
length-show zero = refl
length-show (suc n) = ap suc (length-show n)

show_apart : (a b : ℕ) → lower (show a) ≡ lower (show b) → a ≡ b
show_apart a b h =
    let z = sym (length-lower (show a)) ∙ (ap length h ∙ length-lower (show b)) in
    let x = length-show a in let y = length-show b in omega (arith, z, x, y)

show_there : (a : ℕ) → show a ≢ []
show_there zero h = cc
show_there (suc a) h = cc

show-IsPrinting : IsPrinting show
show-IsPrinting = (show_apart, show_there)

abbrev tenant : Tenant
tenant = record (blank_tenant) {
  required_amount = 10;
  exists = true;
  accepted = true;
  funded_amount = 4;
}

abbrev tenants : ℕ → Tenant
tenants zero = blank_tenant
tenants (suc zero) = tenant
tenants (suc (suc n)) = blank_tenant

abbrev state : State
state = record (blank_state) {
  agreement = record (blank_agreement) {
    creator = 1;
    recipient = 7;
    funding_deadline = 100;
    total_required = 10;
    total_funded = 4;
    status = AgreementStatus.funding;
  };
  tenant_list = 1 ∷ [];
  tenants = tenants;
}

state-IsRegistered : IsRegistered state
state-IsRegistered zero = refl
state-IsRegistered (suc zero) = refl
state-IsRegistered (suc (suc n)) = ground arith

abbrev msg : Msg
msg = record { sender = 1; value = 3; timestamp = 50 }

enough : 5 ≤ sum (4 ∷ 3 ∷ [])
unfolding sum
enough = omega arith

settle_exact_example :
    (ss : List Share) × ((settle 5 (4 ∷ 3 ∷ []) ≡ some ss) × IsSplit 5 (4 ∷ 3 ∷ []) ss)
settle_exact_example = settle_exact 5 (4 ∷ 3 ∷ []) enough

accept_as_tenant_iff_example :
    ((resolve_agreement_role (mine show show-IsPrinting state msg)).can_accept_as_tenant ≡ true)
    ↔ (is_ok (accept_as_tenant msg 0 state) ≡ true)
accept_as_tenant_iff_example =
    accept_as_tenant_iff show show-IsPrinting state msg state-IsRegistered

deposit_iff_example :
    ((((resolve_agreement_role (mine show show-IsPrinting state msg)).can_deposit ≡ true) × (0 < 3))
      × (exceeds 3 (resolve_agreement_role (mine show show-IsPrinting state msg)).remaining
          ≡ false))
    ↔ (is_ok (deposit msg state) ≡ true)
deposit_iff_example =
    deposit_iff show show-IsPrinting state msg state-IsRegistered (omega arith) (omega arith)

withdraw_iff_example :
    ((((resolve_agreement_role (mine show show-IsPrinting state msg)).can_withdraw_funding ≡ true)
        × (0 < 2))
      × (2 ≤ 4))
    ↔ (is_ok (withdraw_funding_before_activation msg true 2 state) ≡ true)
withdraw_iff_example =
    withdraw_iff show show-IsPrinting state msg 2 state-IsRegistered (omega arith)

abbrev props : Common
props = record {
  role = resolve_agreement_role (mine show show-IsPrinting state msg);
  recipient_accepted = false;
  contract_address = 48 ∷ [];
  agreement_id = 1;
  terms_hash = 48 ∷ [];
  network_healthy = true;
}

may_deposit : props.role.can_deposit ≡ true
unfolding resolve_agreement_role page_params agreement_snapshot tenant_snapshots tenant_snapshot
    status_code session_match has_accepted remaining_of minus is_positive find_tenant norm opt_eq
    text_eq lower
may_deposit = refl

resolve_agreement_role-IsAllowed_example :
    (is_some (norm (some (show 1))) ≡ true) × (norm (some (show 1)) ≡ norm (some (show 1)))
unfolding page_params
resolve_agreement_role-IsAllowed_example =
    resolve_agreement_role-IsAllowed (mine show show-IsPrinting state msg)
      (inr (inr (inr (inl may_deposit))))

pressable : is_pressable (tenant_funding_card props []) ≡ true
unfolding tenant_funding_card is_enabled is_action_locked is_zero resolve_agreement_role page_params
    agreement_snapshot tenant_snapshots tenant_snapshot status_code session_match has_accepted
    remaining_of minus is_positive find_tenant norm opt_eq text_eq lower
pressable = refl

sends :
    sent_value (deposit_button (λ t. 3) (λ z. []) props (51 ∷ []) (Verify.resolved true)) ≡ some 3
unfolding deposit_button request_of mon_to_wei trim trim_start trim_end is_space decimal_input
    decimal_rest is_digit exceeds resolve_agreement_role page_params agreement_snapshot
    tenant_snapshots tenant_snapshot status_code session_match has_accepted remaining_of minus
    is_positive find_tenant norm opt_eq text_eq lower
sends = refl

deposit-accepted_example : is_ok (deposit msg state) ≡ true
deposit-accepted_example =
    deposit-accepted show show-IsPrinting state msg state-IsRegistered (omega arith) (omega arith)
      (λ t. 3) (λ z. []) props [] (51 ∷ []) (Verify.resolved true) refl pressable sends
