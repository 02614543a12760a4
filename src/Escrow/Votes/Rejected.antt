-- ===== src/Escrow/Votes/Rejected.antt =====
-- A claim of contracts/contracts/SharedDepositEscrow.sol that is pending after the settlement deadline.
use shared_deposit_monad.Base.{
  ℕ, ◌+◌, ◌*◌, ◌/◌, ◌≤◌, ◌<◌, ◌≡◌, refl, inl, inr, false, leb, List, arith, All,
}
use shared_deposit_monad.Escrow.Types.{ClaimStatus}
use shared_deposit_monad.Escrow.Storage.{State, Msg, ok, Done, u128, set_claim, set_tenant}
use shared_deposit_monad.Escrow.Creation.{Terms, create_agreement}
use shared_deposit_monad.Escrow.Claims.{close_claim, finalize_pending_claim}
use shared_deposit_monad.Escrow.Solvency.{EscrowCall, run_ledger}
use shared_deposit_monad.Escrow.Solvency.Claims.Ends.{
  type_cases, close_claim-shared, close_claim-individual,
}
use shared_deposit_monad.Escrow.Solvency.Claims.Calls.{finalize_pending_claim_ok}
use shared_deposit_monad.Escrow.Closing.Tally.{put_self}
use shared_deposit_monad.Escrow.Closing.Resolved.{close_claim-Ends}
use shared_deposit_monad.Escrow.Votes.Reached.{created-IsPolled, undecided_bounds}

too_few : (n r yes_votes : ℕ) → r ≡ n / 2 + 1 → 2 * yes_votes ≤ n → leb r yes_votes ≡ false
too_few n r yes_votes h k = ground arith

finalize_rejects :
    (msg : Msg) (id : ℕ) (s : State) (d : Done)
    → finalize_pending_claim msg id s ≡ ok d
    → leb s.agreement.required_approvals (s.claims id).yes_votes ≡ false
    → close_claim ClaimStatus.rejected id s ≡ ok d.state
unfolding finalize_pending_claim
finalize_rejects msg id s d h k = ground arith

close_claim_approved :
    (status : ClaimStatus) (id : ℕ) (s s2 : State)
    → close_claim status id s ≡ ok s2
    → s2.agreement.total_approved_claims ≡ s.agreement.total_approved_claims
unfolding set_claim set_tenant
close_claim_approved status id s s2 h = elim (type_cases (s.claims id).claim_type) [
  | inl k ↦ rw ((close_claim-shared status id s s2 k h).0) refl
  | inr k ↦ rw ((close_claim-individual status id s s2 k h).0) refl
]

-- A claim that is still pending after the settlement deadline is rejected: from the creation on, with
-- amounts that fit a uint128, and after any calls, `finalizePendingClaim` never approves a claim.
pub created-rejects :
    (msg : Msg) (t : Terms) (s : State) (cs : List (EscrowCall × Msg)) (last : Msg) (id : ℕ)
    (d : Done)
    → All (λ n. n < u128) t.required_amounts
    → create_agreement msg t ≡ ok s
    → finalize_pending_claim last id (run_ledger cs (s, 0)).0 ≡ ok d
    → ((d.state.claims id).status ≡ ClaimStatus.rejected)
      × (d.state.agreement.total_approved_claims
          ≡ (run_ledger cs (s, 0)).0.agreement.total_approved_claims)
created-rejects msg t s cs last id d small h e =
    let (
      kept,
      tally,
      ((yes_counts, no_counts, unused, majority, size, some_tenant, few), undecided),
    ) =
      created-IsPolled msg t s cs small h in
    let reached = (run_ledger cs (s, 0)).0 in
    let (active, pending, sent, rest) = finalize_pending_claim_ok last id reached d e in
    let bounds = undecided_bounds _ (reached.claims id) (undecided id) pending in
    let lost = too_few _ _ _ majority bounds.0 in
    let closed = finalize_rejects last id reached d e lost in
    let ends = close_claim-Ends ClaimStatus.rejected id reached d.state closed in
    let c = record (reached.claims id) { status = ClaimStatus.rejected } in
    (
      rw (ends.3, put_self reached.claims id c) refl,
      close_claim_approved ClaimStatus.rejected id reached d.state closed,
    )
