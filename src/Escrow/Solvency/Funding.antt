-- ===== src/Escrow/Solvency/Funding.antt =====
-- The deposits of contracts/contracts/SharedDepositEscrow.sol over the calls before an agreement is active.
use shared_deposit_monad.Base.{ℕ, ◌+◌, ◌-◌, ◌%◌, ◌≤◌, ◌≡◌, refl, Bool, true, arith}
use shared_deposit_monad.Escrow.Types.{is_cancelled}
use shared_deposit_monad.Escrow.Storage.{State, Msg, ok, Done, u128, set_tenant}
use shared_deposit_monad.Escrow.Funding.{
  with_status, set_funded, set_cancelled_withdrawal, accept_as_tenant, accept_as_recipient, deposit,
  withdraw_funding_before_activation, cancel_expired_funding, withdraw_cancelled_funding,
}
use shared_deposit_monad.Escrow.Solvency.{owed_of, owed, IsSound}
use shared_deposit_monad.Escrow.Solvency.Calls.{
  accept_as_tenant_ok, accept_as_recipient_ok, deposit_ok, withdraw_funding_ok, cancel_expired_ok,
  withdraw_cancelled_ok,
}
use shared_deposit_monad.Escrow.Solvency.Changes.{
  changed-IsSound, activated-IsSound, funding_no_cancel, not_withdrawn,
}

-- What a call keeps of the deposits, and what it moves.
abbrev pub KeepsFunds : State → ℕ → Done → Type 0
KeepsFunds s value d =
    IsSound d.state
    × (owed d.state.tenants d.state.tenant_list + d.sent ≡ owed s.tenants s.tenant_list + value)

pub accepting_tenant-KeepsFunds :
    (msg : Msg) (hash : ℕ) (s : State) (d : Done)
    → IsSound s
    → accept_as_tenant msg hash s ≡ ok d
    → KeepsFunds s 0 d
unfolding set_tenant owed_of
accepting_tenant-KeepsFunds msg hash s d sound h =
    let (e, funding, there) = accept_as_tenant_ok msg hash s d h in
    let t = record (s.tenants msg.sender) { accepted = true } in
    let live = funding_no_cancel s.agreement.status funding in
    let (sound2, same) =
      changed-IsSound s (set_tenant msg.sender t s) msg.sender t sound there refl refl refl refl
        (λ k. (live, refl)) refl in
    let (sound3, same2) = activated-IsSound (set_tenant msg.sender t s) sound2 live in
    rw e (sound3, omega arith)

pub accepting_recipient-KeepsFunds :
    (msg : Msg) (hash : ℕ) (s : State) (d : Done)
    → IsSound s
    → accept_as_recipient msg hash s ≡ ok d
    → KeepsFunds s 0 d
accepting_recipient-KeepsFunds msg hash s d sound h =
    let (e, funding) = accept_as_recipient_ok msg hash s d h in
    let s2 = record s { agreement = record (s.agreement) { recipient_accepted = true } } in
    let (sound2, same) =
      activated-IsSound s2 sound (funding_no_cancel s.agreement.status funding) in
    rw e (sound2, omega arith)

-- A deposit fits a uint128 where what the tenant owes does.
pub deposit_no_wrap :
    (msg : Msg) (s : State) (funded : ℕ)
    → IsSound s
    → funded + msg.value ≤ (s.tenants msg.sender).required_amount
    → msg.value % u128 ≡ msg.value
deposit_no_wrap msg s funded (reg, distinct, fits, before, total) le =
    let small = fits msg.sender in omega arith

pub depositing-KeepsFunds :
    (msg : Msg) (s : State) (d : Done) → IsSound s → deposit msg s ≡ ok d → KeepsFunds s msg.value d
unfolding set_funded set_tenant owed_of
depositing-KeepsFunds msg s d sound h =
    let (e, funding, there, le, small) = deposit_ok msg s d h in
    let funded = (s.tenants msg.sender).funded_amount + msg.value % u128 in
    let t = record (s.tenants msg.sender) { funded_amount = funded } in
    let s2 = set_funded msg.sender funded (s.agreement.total_funded + msg.value % u128) s in
    let live = funding_no_cancel s.agreement.status funding in
    let kept = not_withdrawn _ _ (sound.3 msg.sender) live in
    let exact = deposit_no_wrap msg s _ sound le in
    let (sound2, same) =
      changed-IsSound s s2 msg.sender t sound there refl refl refl refl (λ k. (live, refl))
        (rw kept (omega arith)) in
    let (sound3, same2) = activated-IsSound s2 sound2 live in
    let moved = rw kept at same in rw e (sound3, omega arith)

pub withdrawing-KeepsFunds :
    (msg : Msg) (accepts : Bool) (amount : ℕ) (s : State) (d : Done)
    → IsSound s
    → withdraw_funding_before_activation msg accepts amount s ≡ ok d
    → KeepsFunds s 0 d
unfolding set_funded set_tenant owed_of
withdrawing-KeepsFunds msg accepts amount s d sound h =
    let (e, funding, there, le, le2) = withdraw_funding_ok msg accepts amount s d h in
    let funded = (s.tenants msg.sender).funded_amount - amount in
    let t = record (s.tenants msg.sender) { funded_amount = funded } in
    let s2 = set_funded msg.sender funded (s.agreement.total_funded - amount) s in
    let live = funding_no_cancel s.agreement.status funding in
    let kept = not_withdrawn _ _ (sound.3 msg.sender) live in
    let (sound2, same) =
      changed-IsSound s s2 msg.sender t sound there refl refl refl refl (λ k. (live, refl))
        (rw kept (omega arith)) in
    let moved = rw kept at same in rw e (sound2, omega arith)

pub cancelling-KeepsFunds :
    (msg : Msg) (s : State) (d : Done)
    → IsSound s
    → cancel_expired_funding msg s ≡ ok d
    → KeepsFunds s 0 d
unfolding with_status is_cancelled
cancelling-KeepsFunds msg s d (reg, distinct, fits, before, total) h =
    rw (cancel_expired_ok msg s d h).0
      ((reg, distinct, fits, (λ x. ground arith), total), omega arith)

pub refunding-KeepsFunds :
    (msg : Msg) (accepts : Bool) (s : State) (d : Done)
    → IsSound s
    → withdraw_cancelled_funding msg accepts s ≡ ok d
    → KeepsFunds s 0 d
unfolding set_cancelled_withdrawal set_tenant owed_of
refunding-KeepsFunds msg accepts s d sound h =
    let (e, cancelled, there, kept) = withdraw_cancelled_ok msg accepts s d h in
    let amount = (s.tenants msg.sender).funded_amount in
    let t = record (s.tenants msg.sender) {
      cancelled_funding_withdrawn = true;
      cancelled_funding_withdrawn_amount = amount;
    } in
    let s2 =
      set_cancelled_withdrawal msg.sender amount
        (s.agreement.total_cancelled_funding_withdrawn + amount) s in
    let (sound2, same) =
      changed-IsSound s s2 msg.sender t sound there refl refl refl refl (λ k. absurd (cc))
        (rw kept (omega arith)) in
    let moved = rw kept at same in rw e (sound2, omega arith)
