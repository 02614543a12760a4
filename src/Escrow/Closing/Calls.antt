-- ===== src/Escrow/Closing/Calls.antt =====
-- The counters of contracts/contracts/SharedDepositEscrow.sol over all calls, from the creation on.
use shared_deposit_monad.Base.{ℕ, ◌≡◌, refl, ◌∙◌, inl, inr, Bool, true, List, arith}
use shared_deposit_monad.Escrow.Types.{ClaimStatus, is_pending}
use shared_deposit_monad.Escrow.Storage.{State, Msg, ok, Done}
use shared_deposit_monad.Escrow.Funding.{with_status, set_funded, set_cancelled_withdrawal}
use shared_deposit_monad.Escrow.Solvency.{
  EscrowCall, accepting_tenant, accepting_recipient, depositing, cancelling, finalizing,
  withdrawing, refunding, paying_refund, paying_recipient, submitting, withdrawing_claim,
  finalizing_claim, voting, perform, IsAccounted, run_ledger,
}
use shared_deposit_monad.Escrow.Solvency.Calls.{
  deposit_ok, accept_as_tenant_ok, accept_as_recipient_ok, withdraw_funding_ok, cancel_expired_ok,
  withdraw_cancelled_ok,
}
use shared_deposit_monad.Escrow.Solvency.Claims.Calls.{
  vote_claim_ok, withdraw_pending_claim_ok, finalize_pending_claim_ok, count_vote_ok,
  resolve_vote_ok,
}
use shared_deposit_monad.Escrow.Solvency.Claims.Conservation.{counted_pending}
use shared_deposit_monad.Escrow.Solvency.Payouts.Refunds.{refunded_keeps}
use shared_deposit_monad.Escrow.Solvency.Payouts.Conservation.{
  finalize_agreement_ok, tenant_refund_ok, recipient_payout_ok,
}
use shared_deposit_monad.Escrow.Solvency.Conservation.{perform-Conserves, run_ledger_keeps}
use shared_deposit_monad.Escrow.Solvency.Fresh.{IsFresh}
use shared_deposit_monad.Escrow.Closing.{claim_sum, IsTallied}
use shared_deposit_monad.Escrow.Closing.Pending.{set_tenant-IsTallied, check_and_activate-IsTallied}
use shared_deposit_monad.Escrow.Closing.Kept.{
  close_claim-IsTallied, approve_claim-IsTallied, counted-IsTallied,
}
use shared_deposit_monad.Escrow.Closing.Opened.{submit_claim-IsTallied}

voting-IsTallied :
    (msg : Msg) (id : ℕ) (support : Bool) (s : State) (d : Done)
    → IsTallied s
    → perform (voting id support) msg s ≡ ok d
    → IsTallied d.state
unfolding perform is_pending
voting-IsTallied msg id support s d tally h =
    let (active, pending, sent, (s2, e, e2)) = vote_claim_ok msg id support s d h in
    let (value, yes_votes, no_votes, shape) = count_vote_ok msg id support s s2 e in
    let tally2 : IsTallied s2 =
      rw shape (counted-IsTallied id msg.sender value yes_votes no_votes s tally pending) in
    let pending2 : is_pending (s2.claims id).status ≡ true =
      rw shape (counted_pending id msg.sender value yes_votes no_votes s pending) in
    elim (resolve_vote_ok id s2 d.state e2) [
      | inl q ↦ rw q tally2
      | inr (inl q) ↦ approve_claim-IsTallied id s2 d.state tally2 pending2 q
      | inr (inr q) ↦
          close_claim-IsTallied ClaimStatus.rejected id s2 d.state refl tally2 pending2 q
    ]

finalizing-IsTallied :
    (msg : Msg) (s : State) (d : Done)
    → IsAccounted s
    → IsTallied s
    → perform finalizing msg s ≡ ok d
    → IsTallied d.state
unfolding perform with_status
finalizing-IsTallied msg s d kept (total, unresolved, each, used, count) h =
    let (active, (tenants, shares, e, shape, sums)) = finalize_agreement_ok msg s d kept h in
    let same =
      refunded_keeps (λ u. u.open_individual_claim_amount) (λ t n. refl) s.tenant_list shares
        s.tenants in
    rw (e, shape) (total, unresolved, (λ a. same a ∙ each a), used, count)

set_funded-IsTallied :
    (sender n total : ℕ) (s : State) → IsTallied s → IsTallied (set_funded sender n total s)
unfolding set_funded
set_funded-IsTallied sender n total s tally =
    set_tenant-IsTallied (record s { agreement = record (s.agreement) { total_funded = total } })
      sender (record (s.tenants sender) { funded_amount = n }) refl tally

set_cancelled_withdrawal-IsTallied :
    (sender n total : ℕ) (s : State)
    → IsTallied s
    → IsTallied (set_cancelled_withdrawal sender n total s)
unfolding set_cancelled_withdrawal
set_cancelled_withdrawal-IsTallied sender n total s tally =
    set_tenant-IsTallied
      (record s { agreement = record (s.agreement) { total_cancelled_funding_withdrawn = total } })
      sender
      (record (s.tenants sender) {
        cancelled_funding_withdrawn = true;
        cancelled_funding_withdrawn_amount = n;
      })
      refl tally

-- Every call that does not revert keeps the counters.
pub perform-IsTallied :
    (call : EscrowCall) (msg : Msg) (s : State) (d : Done)
    → IsAccounted s
    → IsTallied s
    → perform call msg s ≡ ok d
    → IsTallied d.state
unfolding perform with_status is_pending
perform-IsTallied (accepting_tenant hash) msg s d kept tally h =
    let t = record (s.tenants msg.sender) { accepted = true } in
    rw ((accept_as_tenant_ok msg hash s d h).0)
      (check_and_activate-IsTallied _ (set_tenant-IsTallied s msg.sender t refl tally))
perform-IsTallied (accepting_recipient hash) msg s d kept tally h =
    rw ((accept_as_recipient_ok msg hash s d h).0) (check_and_activate-IsTallied _ tally)
perform-IsTallied depositing msg s d kept tally h =
    rw ((deposit_ok msg s d h).0)
      (check_and_activate-IsTallied _ (set_funded-IsTallied msg.sender _ _ s tally))
perform-IsTallied cancelling msg s d kept tally h = rw ((cancel_expired_ok msg s d h).0) tally
perform-IsTallied finalizing msg s d kept tally h = finalizing-IsTallied msg s d kept tally h
perform-IsTallied (withdrawing accepts amount) msg s d kept tally h =
    rw ((withdraw_funding_ok msg accepts amount s d h).0)
      (set_funded-IsTallied msg.sender _ _ s tally)
perform-IsTallied (refunding accepts) msg s d kept tally h =
    rw ((withdraw_cancelled_ok msg accepts s d h).0)
      (set_cancelled_withdrawal-IsTallied msg.sender _ _ s tally)
perform-IsTallied (paying_refund accepts) msg s d kept tally h =
    rw ((tenant_refund_ok msg accepts s d h).0) (set_tenant-IsTallied s msg.sender _ refl tally)
perform-IsTallied (paying_recipient accepts) msg s d kept tally h =
    rw ((recipient_payout_ok msg accepts s d h).0) tally
perform-IsTallied (submitting kind liable amount reason evidence) msg s d kept tally h =
    submit_claim-IsTallied msg kind liable amount reason evidence s d tally h
perform-IsTallied (withdrawing_claim id) msg s d kept tally h =
    let (active, pending, sent, e) = withdraw_pending_claim_ok msg id s d h in
    close_claim-IsTallied ClaimStatus.withdrawn id s d.state refl tally pending e
perform-IsTallied (finalizing_claim id) msg s d kept tally h =
    let (active, pending, sent, e) = finalize_pending_claim_ok msg id s d h in
    elim e [
      | inl q ↦ approve_claim-IsTallied id s d.state tally pending q
      | inr q ↦ close_claim-IsTallied ClaimStatus.rejected id s d.state refl tally pending q
    ]
perform-IsTallied (voting id support) msg s d kept tally h =
    voting-IsTallied msg id support s d tally h

pub run_ledger-IsTallied :
    (cs : List (EscrowCall × Msg)) (s : State) (balance : ℕ)
    → IsAccounted s
    → IsTallied s
    → IsAccounted (run_ledger cs (s, balance)).0 × IsTallied (run_ledger cs (s, balance)).0
run_ledger-IsTallied cs s balance kept tally =
    run_ledger_keeps (λ x. IsAccounted x × IsTallied x)
      (λ call msg x d (kept, tally) h.
        ((perform-Conserves call msg x d kept h).0, perform-IsTallied call msg x d kept tally h))
      cs s balance (kept, tally)

-- Nothing is claimed at the creation.
pub IsFresh-IsTallied : (s : State) → IsFresh s → IsTallied s
unfolding claim_sum
IsFresh-IsTallied s
      (
        reg,
        distinct,
        fits,
        blank,
        (total, back, none_claimed, none_shared, payout, running, count, unresolved),
        pending,
      ) =
    rw count (
      omega (arith, none_claimed),
      unresolved,
      (λ a. omega (arith, (blank a).2)),
      (λ id. rw (pending id) refl),
      omega arith,
    )
