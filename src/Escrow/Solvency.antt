-- ===== src/Escrow/Solvency.antt =====
-- What the contract of contracts/contracts/SharedDepositEscrow.sol holds for one agreement: its calls
-- together, the balance that they change, and the invariant of the accounting.
pub mod Changes
pub mod Calls
pub mod Funding
pub mod Reserves
pub mod Quiet
pub mod Claims
pub mod Payouts
pub mod Conservation
pub mod Fresh
pub mod Start
use shared_deposit_monad.Base.{
  ℕ, ◌+◌, ◌-◌, ◌%◌, ◌≤◌, ◌<◌, ◌≡◌, refl, sym, ◌∙◌, subst, inl, inr, Bool, true, false, ◌&&◌, List,
  [], ◌∷◌, ◌++◌, if◌then◌else◌, ◌==◌, any, arith, Bool-cases, ==_iff, any-append, not, ◌||◌,
}
use shared_deposit_monad.Escrow.Types.{
  AgreementStatus, Agreement, Tenant, Claim, ClaimType, is_active, is_finalized, is_pending,
  is_individual, is_funding, is_cancelled, is_none,
}
use shared_deposit_monad.Escrow.Storage.{
  State, Msg, Call, ok, reverted, Done, u128, put, set_tenant, add_u128, sub_checked, send_mon,
  require_agreement, IsRegistered,
}
use shared_deposit_monad.Escrow.Claims.{
  submit_claim, withdraw_pending_claim, vote_claim, finalize_pending_claim,
}
use shared_deposit_monad.Escrow.Finalization.{
  finalize_agreement, withdraw_tenant_refund, withdraw_recipient_payout,
}
use shared_deposit_monad.Escrow.Sums.{tenant_sum, IsDistinct}
use shared_deposit_monad.Escrow.Funding.{
  check_and_activate, with_status, all_tenants_accepted_and_funded, set_funded,
  set_cancelled_withdrawal, accept_as_tenant, accept_as_recipient, deposit,
  withdraw_funding_before_activation, cancel_expired_funding, withdraw_cancelled_funding,
}

-- What the contract holds for one tenant, and for all of a list.
unfoldable pub owed_of : Tenant → ℕ
owed_of t = if t.cancelled_funding_withdrawn then 0 else t.funded_amount

abbrev pub owed : (ℕ → Tenant) → List ℕ → ℕ
owed = tenant_sum owed_of

-- What a tenant, and the recipient, can still take from a finalized agreement.
unfoldable pub unpaid_of : Tenant → ℕ
unpaid_of t = if t.refund_withdrawn then 0 else t.refund_amount

unfoldable pub unpaid_payout : Agreement → ℕ
unpaid_payout a = if a.recipient_payout_withdrawn then 0 else a.total_approved_claims

-- What the contract has to hold for the agreement.
unfoldable pub held : State → ℕ
unfolding is_finalized unpaid_payout
held s =
    if is_finalized s.agreement.status
    then tenant_sum unpaid_of s.tenants s.tenant_list + unpaid_payout s.agreement
    else owed s.tenants s.tenant_list

-- The calls of the contract that change an agreement after its creation. Only `deposit` is payable.
pub data EscrowCall : Type 0 where
  accepting_tenant accepting_recipient : (hash : ℕ) → EscrowCall
  depositing cancelling finalizing : EscrowCall
  withdrawing : (accepts : Bool) → (amount : ℕ) → EscrowCall
  refunding paying_refund paying_recipient : (accepts : Bool) → EscrowCall
  submitting : ClaimType → (liable amount reason evidence : ℕ) → EscrowCall
  withdrawing_claim finalizing_claim : (id : ℕ) → EscrowCall
  voting : (id : ℕ) → (support : Bool) → EscrowCall

unfoldable pub perform : EscrowCall → Msg → State → Call Done
perform (accepting_tenant hash) msg s = accept_as_tenant msg hash s
perform (accepting_recipient hash) msg s = accept_as_recipient msg hash s
perform depositing msg s = deposit msg s
perform cancelling msg s = cancel_expired_funding msg s
perform finalizing msg s = finalize_agreement msg s
perform (withdrawing accepts amount) msg s = withdraw_funding_before_activation msg accepts amount s
perform (refunding accepts) msg s = withdraw_cancelled_funding msg accepts s
perform (paying_refund accepts) msg s = withdraw_tenant_refund msg accepts s
perform (paying_recipient accepts) msg s = withdraw_recipient_payout msg accepts s
perform (submitting kind liable amount reason evidence) msg s =
    submit_claim msg kind liable amount reason evidence s
perform (withdrawing_claim id) msg s = withdraw_pending_claim msg id s
perform (finalizing_claim id) msg s = finalize_pending_claim msg id s
perform (voting id support) msg s = vote_claim msg id support s

unfoldable pub paid : EscrowCall → Msg → ℕ
paid depositing msg = msg.value
paid _ msg = 0

-- The tenants are those of the list, each once; nothing is withdrawn from a cancelled agreement before
-- it is one; and the totals of the agreement are those of its tenants.
abbrev pub IsSound : State → Type 0
IsSound s =
    IsRegistered s
    × IsDistinct s.tenant_list
    × ((a : ℕ) → (s.tenants a).required_amount < u128)
    × ((a : ℕ)
        → ((s.tenants a).cancelled_funding_withdrawn && not (is_cancelled s.agreement.status))
          ≡ false)
    × (s.agreement.total_funded
        ≡ owed s.tenants s.tenant_list + s.agreement.total_cancelled_funding_withdrawn)

-- Claims are made on an agreement that is active, and stay with it.
unfoldable pub is_opened : AgreementStatus → Bool
unfolding is_active is_finalized
is_opened status = is_active status || is_finalized status

abbrev pub claimed_of : Tenant → ℕ
claimed_of t = t.open_individual_claim_amount + t.approved_individual_claims

abbrev pub claimed : Agreement → ℕ
claimed a = a.total_open_claim_amount + a.total_approved_claims

-- A pending claim on one tenant names a tenant.
unfoldable pub is_stray : (ℕ → Tenant) → Claim → Bool
unfolding is_pending is_individual
is_stray tenants c =
    is_pending c.status && (is_individual c.claim_type && not (tenants c.liable_tenant).exists)

-- Claims are within the deposits, in total and for each tenant; the approved ones are in the buckets;
-- and there are none before the agreement is active.
abbrev pub IsReserved : State → Type 0
IsReserved s =
    ((a : ℕ) → claimed_of (s.tenants a) ≤ (s.tenants a).funded_amount)
    × (claimed s.agreement ≤ s.agreement.total_funded)
    × (s.agreement.shared_approved_claims
          + tenant_sum (λ t. t.approved_individual_claims) s.tenants s.tenant_list
        ≡ s.agreement.total_approved_claims)
    × ((id : ℕ) → is_stray s.tenants (s.claims id) ≡ false)
    × ((a : ℕ) → (if is_opened s.agreement.status then 0 else claimed_of (s.tenants a)) ≡ 0)
    × ((if is_opened s.agreement.status then 0 else claimed s.agreement) ≡ 0)

-- The amounts fit a uint128.
abbrev pub IsBounded : State → Type 0
IsBounded s = ((a : ℕ) → (s.tenants a).funded_amount < u128) × (s.agreement.total_funded < u128)

-- Nothing is paid out before the finalization, or paid back before a cancellation.
abbrev pub IsUnpaid : State → Type 0
IsUnpaid s =
    ((a : ℕ) → ((s.tenants a).refund_withdrawn && not (is_finalized s.agreement.status)) ≡ false)
    × ((s.agreement.recipient_payout_withdrawn && not (is_finalized s.agreement.status)) ≡ false)
    × ((if is_cancelled s.agreement.status
          then 0
          else s.agreement.total_cancelled_funding_withdrawn)
        ≡ 0)

-- The invariant of an agreement over its whole life.
abbrev pub IsAccounted : State → Type 0
IsAccounted s = IsSound s × IsReserved s × IsBounded s × IsUnpaid s

-- What a call keeps of the invariant and of the balance.
abbrev pub Conserves : State → ℕ → Done → Type 0
Conserves s value d = IsAccounted d.state × (held d.state + d.sent ≡ held s + value)

-- A call on the storage and on what the contract holds for the agreement; a revert changes neither.
unfoldable pub ledger : EscrowCall × Msg → State × ℕ → State × ℕ
unfolding perform paid
ledger (call, msg) (s, balance) = elim (perform call msg s) [
  | ok d ↦ (d.state, balance + paid call msg - d.sent)
  | reverted e ↦ (s, balance)
]

unfoldable pub run_ledger : List (EscrowCall × Msg) → State × ℕ → State × ℕ
unfolding ledger
run_ledger [] s = s
run_ledger (c ∷ cs) s = run_ledger cs (ledger c s)
