-- ===== src/Escrow/Votes/Reached.antt =====
-- The votes of contracts/contracts/SharedDepositEscrow.sol over all calls, from the creation on.
use shared_deposit_monad.Base.{
  ℕ, ◌+◌, ◌*◌, ◌≤◌, ◌<◌, ◌≡◌, refl, inl, inr, Bool-cases, true, false, ◌&&◌, List, arith, All,
}
use shared_deposit_monad.Escrow.Types.{Claim, ClaimStatus, is_pending}
use shared_deposit_monad.Escrow.Storage.{State, Msg, ok, Done, u128, set_tenant}
use shared_deposit_monad.Escrow.Creation.{Terms, create_agreement}
use shared_deposit_monad.Escrow.Funding.{
  with_status, check_and_activate, set_funded, set_cancelled_withdrawal,
  all_tenants_accepted_and_funded,
}
use shared_deposit_monad.Escrow.Solvency.{
  EscrowCall, accepting_tenant, accepting_recipient, depositing, cancelling, finalizing,
  withdrawing, refunding, paying_refund, paying_recipient, submitting, withdrawing_claim,
  finalizing_claim, voting, perform, IsAccounted, run_ledger,
}
use shared_deposit_monad.Escrow.Solvency.Calls.{
  deposit_ok, accept_as_tenant_ok, accept_as_recipient_ok, withdraw_funding_ok, cancel_expired_ok,
  withdraw_cancelled_ok,
}
use shared_deposit_monad.Escrow.Solvency.Claims.Calls.{
  withdraw_pending_claim_ok, finalize_pending_claim_ok,
}
use shared_deposit_monad.Escrow.Solvency.Payouts.Conservation.{
  finalize_agreement_ok, tenant_refund_ok, recipient_payout_ok,
}
use shared_deposit_monad.Escrow.Solvency.Conservation.{perform-Conserves, run_ledger_keeps}
use shared_deposit_monad.Escrow.Solvency.Fresh.{IsFresh-IsAccounted}
use shared_deposit_monad.Escrow.Solvency.Start.{create_agreement-IsFresh}
use shared_deposit_monad.Escrow.Closing.{IsTallied}
use shared_deposit_monad.Escrow.Closing.Calls.{perform-IsTallied, IsFresh-IsTallied}
use shared_deposit_monad.Escrow.Votes.Start.{create_agreement-IsPolled}
use shared_deposit_monad.Escrow.Votes.{cast, is_overdue, IsPolled}
use shared_deposit_monad.Escrow.Votes.Counts.{cast_bound}
use shared_deposit_monad.Escrow.Votes.Kept.{
  close_claim-IsPolled, approve_claim-IsPolled, submit_claim-IsPolled,
}
use shared_deposit_monad.Escrow.Votes.Polls.{voting-IsPolled}

activated-IsPolled : (s : State) → IsPolled s → IsPolled (check_and_activate s)
unfolding check_and_activate with_status
activated-IsPolled s h =
    elim (Bool-cases (s.agreement.recipient_accepted && all_tenants_accepted_and_funded s)) [
      | inl k ↦ rw k h
      | inr k ↦ rw k h
    ]

-- Every call that does not revert keeps the counts.
pub perform-IsPolled :
    (call : EscrowCall) (msg : Msg) (s : State) (d : Done)
    → IsAccounted s
    → IsTallied s
    → IsPolled s
    → perform call msg s ≡ ok d
    → IsPolled d.state
unfolding perform with_status is_pending set_tenant set_funded set_cancelled_withdrawal
perform-IsPolled (accepting_tenant hash) msg s d kept tally polled h =
    rw ((accept_as_tenant_ok msg hash s d h).0)
      (activated-IsPolled (set_tenant msg.sender _ s) polled)
perform-IsPolled (accepting_recipient hash) msg s d kept tally polled h =
    rw ((accept_as_recipient_ok msg hash s d h).0) (
      activated-IsPolled
        (record s { agreement = record (s.agreement) { recipient_accepted = true } }) polled)
perform-IsPolled depositing msg s d kept tally polled h =
    rw ((deposit_ok msg s d h).0) (activated-IsPolled (set_funded msg.sender _ _ s) polled)
perform-IsPolled cancelling msg s d kept tally polled h =
    rw ((cancel_expired_ok msg s d h).0) polled
perform-IsPolled finalizing msg s d kept tally polled h =
    let (active, (tenants, shares, e, shape, sums)) = finalize_agreement_ok msg s d kept h in
    rw e polled
perform-IsPolled (withdrawing accepts amount) msg s d kept tally polled h =
    rw ((withdraw_funding_ok msg accepts amount s d h).0) polled
perform-IsPolled (refunding accepts) msg s d kept tally polled h =
    rw ((withdraw_cancelled_ok msg accepts s d h).0) polled
perform-IsPolled (paying_refund accepts) msg s d kept tally polled h =
    rw ((tenant_refund_ok msg accepts s d h).0) polled
perform-IsPolled (paying_recipient accepts) msg s d kept tally polled h =
    rw ((recipient_payout_ok msg accepts s d h).0) polled
perform-IsPolled (submitting kind liable amount reason evidence) msg s d kept tally polled h =
    submit_claim-IsPolled msg kind liable amount reason evidence s d polled h
perform-IsPolled (withdrawing_claim id) msg s d kept tally polled h =
    let (active, pending, sent, e) = withdraw_pending_claim_ok msg id s d h in
    close_claim-IsPolled ClaimStatus.withdrawn id s d.state refl polled.0 (λ x k. polled.1 x) e
perform-IsPolled (finalizing_claim id) msg s d kept tally polled h =
    let (active, pending, sent, e) = finalize_pending_claim_ok msg id s d h in
    elim e [
      | inl q ↦ approve_claim-IsPolled id s d.state polled.0 (λ x k. polled.1 x) q
      | inr q ↦
          close_claim-IsPolled ClaimStatus.rejected id s d.state refl polled.0 (λ x k. polled.1 x) q
    ]
perform-IsPolled (voting id support) msg s d kept tally polled h =
    voting-IsPolled msg id support s d kept tally polled h

-- An agreement from its creation on, through any calls.
pub created-IsPolled :
    (msg : Msg) (t : Terms) (s : State) (cs : List (EscrowCall × Msg))
    → All (λ n. n < u128) t.required_amounts
    → create_agreement msg t ≡ ok s
    → IsAccounted (run_ledger cs (s, 0)).0
      × IsTallied (run_ledger cs (s, 0)).0
      × IsPolled (run_ledger cs (s, 0)).0
created-IsPolled msg t s cs small h =
    let fresh = create_agreement-IsFresh msg t s small h in
    run_ledger_keeps (λ x. IsAccounted x × IsTallied x × IsPolled x)
      (λ call msg2 x d (kept, tally, polled) e. (
        (perform-Conserves call msg2 x d kept e).0,
        perform-IsTallied call msg2 x d kept tally e,
        perform-IsPolled call msg2 x d kept tally polled e,
      ))
      cs s 0
      (
        (IsFresh-IsAccounted s fresh).0,
        IsFresh-IsTallied s fresh,
        create_agreement-IsPolled msg t s h,
      )

pub undecided_bounds :
    (n : ℕ) (c : Claim)
    → is_overdue n c ≡ false
    → is_pending c.status ≡ true
    → (2 * c.yes_votes ≤ n) × (2 * c.no_votes < n)
undecided_bounds n c h k = ground arith

-- From its creation on, with amounts that fit a uint128, and after any calls whatsoever, the counts of
-- each claim are the numbers of the tenants whose recorded vote is YES or NO, together at most the number
-- of tenants; and a pending claim has neither more than half of the tenants for it nor half of them
-- against it.
pub created-counts :
    (msg : Msg) (t : Terms) (s : State) (cs : List (EscrowCall × Msg))
    → All (λ n. n < u128) t.required_amounts
    → create_agreement msg t ≡ ok s
    → (id : ℕ)
    → (((run_ledger cs (s, 0)).0.claims id).yes_votes
        ≡ cast 1 ((run_ledger cs (s, 0)).0.votes id) (run_ledger cs (s, 0)).0.tenant_list)
      × (((run_ledger cs (s, 0)).0.claims id).no_votes
          ≡ cast 2 ((run_ledger cs (s, 0)).0.votes id) (run_ledger cs (s, 0)).0.tenant_list)
      × (((run_ledger cs (s, 0)).0.claims id).yes_votes
            + ((run_ledger cs (s, 0)).0.claims id).no_votes
          ≤ (run_ledger cs (s, 0)).0.agreement.tenant_count)
      × (is_pending ((run_ledger cs (s, 0)).0.claims id).status ≡ true
          → (2 * ((run_ledger cs (s, 0)).0.claims id).yes_votes
              ≤ (run_ledger cs (s, 0)).0.agreement.tenant_count)
            × (2 * ((run_ledger cs (s, 0)).0.claims id).no_votes
                < (run_ledger cs (s, 0)).0.agreement.tenant_count))
created-counts msg t s cs small h id =
    let (
      kept,
      tally,
      ((yes_counts, no_counts, unused, majority, size, some_tenant, few), undecided),
    ) =
      created-IsPolled msg t s cs small h in
    let reached = (run_ledger cs (s, 0)).0 in
    (
      yes_counts id,
      no_counts id,
      omega (arith, yes_counts id, no_counts id, cast_bound (reached.votes id) reached.tenant_list),
      undecided_bounds _ (reached.claims id) (undecided id),
    )
