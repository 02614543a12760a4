-- ===== src/Escrow/Solvency/Calls.antt =====
-- What a call of contracts/contracts/SharedDepositEscrow.sol that does not revert has checked and done.
use shared_deposit_monad.Base.{
  ℕ, ◌+◌, ◌-◌, ◌%◌, ◌≤◌, ◌<◌, ◌≡◌, refl, inl, inr, Bool, true, false, ◌&&◌, arith, Bool-cases,
}
use shared_deposit_monad.Escrow.Types.{AgreementStatus, is_funding, is_cancelled, is_none}
use shared_deposit_monad.Escrow.Storage.{
  State, Msg, ok, Done, u128, set_tenant, add_u128, sub_checked, send_mon, require_agreement,
}
use shared_deposit_monad.Escrow.Funding.{
  check_and_activate, with_status, all_tenants_accepted_and_funded, set_funded,
  set_cancelled_withdrawal, accept_as_tenant, accept_as_recipient, deposit,
  withdraw_funding_before_activation, cancel_expired_funding, withdraw_cancelled_funding,
}

pub check_and_activate_keeps :
    (s : State)
    → is_cancelled s.agreement.status ≡ false
    → ((check_and_activate s).tenants ≡ s.tenants)
      × ((check_and_activate s).tenant_list ≡ s.tenant_list)
      × ((check_and_activate s).agreement.total_funded ≡ s.agreement.total_funded)
      × ((check_and_activate s).agreement.total_cancelled_funding_withdrawn
          ≡ s.agreement.total_cancelled_funding_withdrawn)
      × (is_cancelled (check_and_activate s).agreement.status ≡ false)
unfolding check_and_activate with_status is_cancelled
check_and_activate_keeps s h =
    elim (Bool-cases (s.agreement.recipient_accepted && all_tenants_accepted_and_funded s)) [
      | inl k ↦ rw k (refl, refl, refl, refl, refl)
      | inr k ↦ rw k (refl, refl, refl, refl, h)
    ]

pub deposit_ok :
    (msg : Msg) (s : State) (d : Done)
    → deposit msg s ≡ ok d
    → (d ≡ record {
      state = check_and_activate (
          set_funded msg.sender
            ((s.tenants msg.sender).funded_amount + msg.value % u128)
            (s.agreement.total_funded + msg.value % u128)
            s);
      sent = 0;
    })
      × (is_funding s.agreement.status ≡ true)
      × ((s.tenants msg.sender).exists ≡ true)
      × ((s.tenants msg.sender).funded_amount + msg.value ≤ (s.tenants msg.sender).required_amount)
      × (s.agreement.total_funded + msg.value % u128 < u128)
unfolding deposit require_agreement sub_checked add_u128 is_none
deposit_ok msg s d h = ground arith

pub accept_as_tenant_ok :
    (msg : Msg) (hash : ℕ) (s : State) (d : Done)
    → accept_as_tenant msg hash s ≡ ok d
    → (d ≡ record {
      state =
          check_and_activate
            (set_tenant msg.sender (record (s.tenants msg.sender) { accepted = true }) s);
      sent = 0;
    })
      × (is_funding s.agreement.status ≡ true)
      × ((s.tenants msg.sender).exists ≡ true)
unfolding accept_as_tenant require_agreement is_none
accept_as_tenant_ok msg hash s d h = ground arith

pub accept_as_recipient_ok :
    (msg : Msg) (hash : ℕ) (s : State) (d : Done)
    → accept_as_recipient msg hash s ≡ ok d
    → (d ≡ record {
      state =
          check_and_activate
            (record s { agreement = record (s.agreement) { recipient_accepted = true } });
      sent = 0;
    })
      × (is_funding s.agreement.status ≡ true)
unfolding accept_as_recipient require_agreement is_none
accept_as_recipient_ok msg hash s d h = ground arith

pub withdraw_funding_ok :
    (msg : Msg) (accepts : Bool) (amount : ℕ) (s : State) (d : Done)
    → withdraw_funding_before_activation msg accepts amount s ≡ ok d
    → (d ≡ record {
      state =
          set_funded msg.sender
            ((s.tenants msg.sender).funded_amount - amount)
            (s.agreement.total_funded - amount)
            s;
      sent = amount;
    })
      × (is_funding s.agreement.status ≡ true)
      × ((s.tenants msg.sender).exists ≡ true)
      × (amount ≤ (s.tenants msg.sender).funded_amount)
      × (amount ≤ s.agreement.total_funded)
unfolding withdraw_funding_before_activation require_agreement sub_checked is_none send_mon
withdraw_funding_ok msg true amount s d h = ground arith
withdraw_funding_ok msg false amount s d h = absurd (ground arith)

pub cancel_expired_ok :
    (msg : Msg) (s : State) (d : Done)
    → cancel_expired_funding msg s ≡ ok d
    → (d ≡ record { state = with_status AgreementStatus.cancelled s; sent = 0 })
      × (is_funding s.agreement.status ≡ true)
unfolding cancel_expired_funding require_agreement is_none
cancel_expired_ok msg s d h = ground arith

pub withdraw_cancelled_ok :
    (msg : Msg) (accepts : Bool) (s : State) (d : Done)
    → withdraw_cancelled_funding msg accepts s ≡ ok d
    → (d ≡ record {
      state =
          set_cancelled_withdrawal msg.sender
            (s.tenants msg.sender).funded_amount
            (s.agreement.total_cancelled_funding_withdrawn + (s.tenants msg.sender).funded_amount)
            s;
      sent = (s.tenants msg.sender).funded_amount;
    })
      × (is_cancelled s.agreement.status ≡ true)
      × ((s.tenants msg.sender).exists ≡ true)
      × ((s.tenants msg.sender).cancelled_funding_withdrawn ≡ false)
unfolding withdraw_cancelled_funding require_agreement add_u128 is_none send_mon
withdraw_cancelled_ok msg true s d h = ground arith
withdraw_cancelled_ok msg false s d h = absurd (ground arith)
