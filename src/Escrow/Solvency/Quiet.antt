-- ===== src/Escrow/Solvency/Quiet.antt =====
-- Nothing is claimed or paid out by the calls of contracts/contracts/SharedDepositEscrow.sol that come
-- before an agreement is active.
use shared_deposit_monad.Base.{ℕ, ◌+◌, ◌-◌, ◌%◌, ◌<◌, ◌≡◌, refl, Bool, false, true, arith}
use shared_deposit_monad.Escrow.Types.{AgreementStatus, is_funding, is_cancelled, is_finalized}
use shared_deposit_monad.Escrow.Storage.{State, Msg, ok, Done, u128, set_tenant}
use shared_deposit_monad.Escrow.Funding.{
  with_status, set_funded, set_cancelled_withdrawal, accept_as_tenant, accept_as_recipient, deposit,
  withdraw_funding_before_activation, cancel_expired_funding, withdraw_cancelled_funding,
}
use shared_deposit_monad.Escrow.Solvency.{held, owed, IsAccounted, is_opened, Conserves}
use shared_deposit_monad.Escrow.Solvency.Calls.{
  accept_as_tenant_ok, accept_as_recipient_ok, deposit_ok, withdraw_funding_ok, cancel_expired_ok,
  withdraw_cancelled_ok,
}
use shared_deposit_monad.Escrow.Solvency.Funding.{
  KeepsFunds, accepting_tenant-KeepsFunds, accepting_recipient-KeepsFunds, depositing-KeepsFunds,
  withdrawing-KeepsFunds, cancelling-KeepsFunds, refunding-KeepsFunds, deposit_no_wrap,
}
use shared_deposit_monad.Escrow.Solvency.Reserves.{
  IsQuiet, closed-IsClaimless, IsClaimless-IsReserved, set_tenant-IsQuiet,
  check_and_activate-IsQuiet,
}

funding_closed :
    (x : AgreementStatus)
    → is_funding x ≡ true
    → (is_opened x ≡ false) × (is_finalized x ≡ false) × (is_cancelled x ≡ false)
unfolding is_funding is_opened is_cancelled
funding_closed x h = ground arith

cancelled_closed :
    (x : AgreementStatus) → is_cancelled x ≡ true → (is_opened x ≡ false) × (is_finalized x ≡ false)
unfolding is_cancelled is_opened
cancelled_closed x h = ground arith

accounted-IsQuiet :
    (s : State)
    → (is_opened s.agreement.status ≡ false) × (is_finalized s.agreement.status ≡ false)
    → IsAccounted s
    → IsQuiet s
accounted-IsQuiet s (closed, running) (sound, reserved, bound, unpaid) =
    (closed-IsClaimless s closed reserved, bound, unpaid, running)

pub not_finalized-held :
    (s : State) → is_finalized s.agreement.status ≡ false → held s ≡ owed s.tenants s.tenant_list
unfolding held
not_finalized-held s h = rw h refl

quiet-Conserves :
    (s : State) (value : ℕ) (d : Done)
    → is_finalized s.agreement.status ≡ false
    → KeepsFunds s value d
    → IsQuiet d.state
    → Conserves s value d
quiet-Conserves s value d running (sound, moved) (claimless, bound, unpaid, running2) = (
  (sound, IsClaimless-IsReserved d.state claimless, bound, unpaid),
  omega (arith, not_finalized-held s running, not_finalized-held d.state running2),
)

pub accepting_tenant-Conserves :
    (msg : Msg) (hash : ℕ) (s : State) (d : Done)
    → IsAccounted s
    → accept_as_tenant msg hash s ≡ ok d
    → Conserves s 0 d
unfolding set_tenant
accepting_tenant-Conserves msg hash s d kept h =
    let (e, funding, there) = accept_as_tenant_ok msg hash s d h in
    let closed = funding_closed s.agreement.status funding in
    let t = record (s.tenants msg.sender) { accepted = true } in
    let (claimless, bound, unpaid, running) = accounted-IsQuiet s (closed.0, closed.1) kept in
    let quiet : IsQuiet d.state = rw e (
      check_and_activate-IsQuiet (set_tenant msg.sender t s) closed.2 (
        set_tenant-IsQuiet s msg.sender t refl refl refl (bound.0 msg.sender)
          (claimless, bound, unpaid, running))) in
    quiet-Conserves s 0 d closed.1 (accepting_tenant-KeepsFunds msg hash s d kept.0 h) quiet

pub accepting_recipient-Conserves :
    (msg : Msg) (hash : ℕ) (s : State) (d : Done)
    → IsAccounted s
    → accept_as_recipient msg hash s ≡ ok d
    → Conserves s 0 d
accepting_recipient-Conserves msg hash s d kept h =
    let (e, funding) = accept_as_recipient_ok msg hash s d h in
    let closed = funding_closed s.agreement.status funding in
    let s2 = record s { agreement = record (s.agreement) { recipient_accepted = true } } in
    let quiet : IsQuiet d.state =
      rw e
        (check_and_activate-IsQuiet s2 closed.2 (accounted-IsQuiet s (closed.0, closed.1) kept)) in
    quiet-Conserves s 0 d closed.1 (accepting_recipient-KeepsFunds msg hash s d kept.0 h) quiet

-- A changed deposit that fits keeps the agreement quiet.
set_funded-IsQuiet :
    (s : State) (a funded total : ℕ)
    → funded < u128
    → total < u128
    → IsQuiet s
    → IsQuiet (set_funded a funded total s)
unfolding set_funded
set_funded-IsQuiet s a funded total small small2 (claimless, (each, old), unpaid, running) =
    set_tenant-IsQuiet (record s { agreement = record (s.agreement) { total_funded = total } }) a
      (record (s.tenants a) { funded_amount = funded }) refl refl refl small
      (claimless, (each, small2), unpaid, running)

pub depositing-Conserves :
    (msg : Msg) (s : State) (d : Done)
    → IsAccounted s
    → deposit msg s ≡ ok d
    → Conserves s msg.value d
unfolding set_funded
depositing-Conserves msg s d kept h =
    let (e, funding, there, le, small) = deposit_ok msg s d h in
    let closed = funding_closed s.agreement.status funding in
    let exact = deposit_no_wrap msg s _ kept.0 le in
    let required = kept.0.2 msg.sender in
    let funded = (s.tenants msg.sender).funded_amount + msg.value % u128 in
    let total = s.agreement.total_funded + msg.value % u128 in
    let quiet : IsQuiet d.state = rw e (
      check_and_activate-IsQuiet (set_funded msg.sender funded total s) closed.2 (
        set_funded-IsQuiet s msg.sender funded total (omega arith) small
          (accounted-IsQuiet s (closed.0, closed.1) kept))) in
    quiet-Conserves s msg.value d closed.1 (depositing-KeepsFunds msg s d kept.0 h) quiet

pub withdrawing-Conserves :
    (msg : Msg) (accepts : Bool) (amount : ℕ) (s : State) (d : Done)
    → IsAccounted s
    → withdraw_funding_before_activation msg accepts amount s ≡ ok d
    → Conserves s 0 d
withdrawing-Conserves msg accepts amount s d kept h =
    let (e, funding, there, le, le2) = withdraw_funding_ok msg accepts amount s d h in
    let closed = funding_closed s.agreement.status funding in
    let small = kept.2.0 msg.sender in
    let small2 = kept.2.1 in
    let quiet : IsQuiet d.state = rw e (
      set_funded-IsQuiet s msg.sender ((s.tenants msg.sender).funded_amount - amount)
        (s.agreement.total_funded - amount) (omega arith) (omega arith)
        (accounted-IsQuiet s (closed.0, closed.1) kept)) in
    quiet-Conserves s 0 d closed.1 (withdrawing-KeepsFunds msg accepts amount s d kept.0 h) quiet

pub cancelling-Conserves :
    (msg : Msg) (s : State) (d : Done)
    → IsAccounted s
    → cancel_expired_funding msg s ≡ ok d
    → Conserves s 0 d
unfolding with_status is_finalized is_cancelled
cancelling-Conserves msg s d kept h =
    let (e, funding) = cancel_expired_ok msg s d h in
    let closed = funding_closed s.agreement.status funding in
    let (claimless, bound, (each, payout, back), running) =
      accounted-IsQuiet s (closed.0, closed.1) kept in
    let quiet : IsQuiet d.state =
      rw e (claimless, bound, ((λ a. rw running at (each a)), rw running at payout, refl), refl) in
    quiet-Conserves s 0 d closed.1 (cancelling-KeepsFunds msg s d kept.0 h) quiet

pub refunding-Conserves :
    (msg : Msg) (accepts : Bool) (s : State) (d : Done)
    → IsAccounted s
    → withdraw_cancelled_funding msg accepts s ≡ ok d
    → Conserves s 0 d
unfolding set_cancelled_withdrawal
refunding-Conserves msg accepts s d kept h =
    let (e, cancelled, there, out) = withdraw_cancelled_ok msg accepts s d h in
    let closed = cancelled_closed s.agreement.status cancelled in
    let amount = (s.tenants msg.sender).funded_amount in
    let t = record (s.tenants msg.sender) {
      cancelled_funding_withdrawn = true;
      cancelled_funding_withdrawn_amount = amount;
    } in
    let (claimless, bound, unpaid, running) = accounted-IsQuiet s (closed.0, closed.1) kept in
    let s2 = record s {
      agreement = record (s.agreement) {
        total_cancelled_funding_withdrawn = s.agreement.total_cancelled_funding_withdrawn + amount;
      };
    } in
    let quiet : IsQuiet d.state = rw e (
      set_tenant-IsQuiet s2 msg.sender t refl refl refl (bound.0 msg.sender)
        (claimless, bound, (unpaid.0, unpaid.1, rw cancelled refl), running)) in
    quiet-Conserves s 0 d closed.1 (refunding-KeepsFunds msg accepts s d kept.0 h) quiet
