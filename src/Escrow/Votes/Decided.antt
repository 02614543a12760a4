-- ===== src/Escrow/Votes/Decided.antt =====
-- Votes on an agreement of contracts/contracts/SharedDepositEscrow.sol that was created and called in any
-- way.
use shared_deposit_monad.Escrow.Checked.{sub_checked_lem, add_u16_lem}
use shared_deposit_monad.Base.{
  ℕ, ◌+◌, ◌-◌, ◌/◌, ◌≤◌, ◌<◌, ◌≡◌, ◌↔◌, refl, ◌∙◌, inl, inr, Bool, true, false, not, ltb, leb, ◌==◌,
  List, Bool-cases, ==_iff, arith, All,
}
use shared_deposit_monad.Escrow.Types.{
  ClaimStatus, is_active, is_pending, invalid_status, voting_closed, not_tenant, invalid_claim,
  already_voted,
}
use shared_deposit_monad.Escrow.Storage.{
  State, Msg, Call, ok, ◌>>◌, Done, u128, revert_if, require_agreement, set_claim,
}
use shared_deposit_monad.Escrow.Creation.{Terms, create_agreement}
use shared_deposit_monad.Escrow.Claims.{count_vote, resolve_vote, reject_if_lost, vote_claim}
use shared_deposit_monad.Escrow.Solvency.{EscrowCall, IsAccounted, run_ledger}
use shared_deposit_monad.Escrow.Solvency.Claims.Calls.{vote_guards}
use shared_deposit_monad.Escrow.Solvency.Claims.Conservation.{
  counted-KeepsOwed, counted_pending, active_opened,
}
use shared_deposit_monad.Escrow.Solvency.Payouts.{active_status}
use shared_deposit_monad.Escrow.Closing.{IsTallied}
use shared_deposit_monad.Escrow.Closing.Kept.{counted-IsTallied}
use shared_deposit_monad.Escrow.Closing.Totals.{close_claim_total, approve_claim_total}
use shared_deposit_monad.Escrow.Votes.Counts.{cast_bound}
use shared_deposit_monad.Escrow.Votes.Outcome.{ballot, after_vote}
use shared_deposit_monad.Escrow.Votes.Reached.{created-IsPolled}

count_vote_total :
    (msg : Msg) (id : ℕ) (support : Bool) (s : State)
    → (s.claims id).yes_votes + (s.claims id).no_votes ≤ 8
    → count_vote msg id support s ≡ ok (after_vote id msg.sender support s)
unfolding count_vote
count_vote_total msg id true s few =
    let same : (s.claims id).no_votes + 0 ≡ (s.claims id).no_votes = omega arith in
    rw (add_u16_lem (s.claims id).yes_votes 1 (omega arith), same) refl
count_vote_total msg id false s few =
    let same : (s.claims id).yes_votes + 0 ≡ (s.claims id).yes_votes = omega arith in
    rw (add_u16_lem (s.claims id).no_votes 1 (omega arith), same) refl

resolve_vote_total :
    (id : ℕ) (s : State)
    → IsAccounted s
    → IsTallied s
    → is_pending (s.claims id).status ≡ true
    → s.agreement.required_approvals ≤ s.agreement.tenant_count
    → s.agreement.tenant_count ≤ 8
    → (s2 : State) × (resolve_vote id s ≡ ok s2)
unfolding resolve_vote reject_if_lost
resolve_vote_total id s kept tally pending room few =
    let n = s.agreement.tenant_count in
    let r = s.agreement.required_approvals in
    let others = sub_checked_lem n r room in
    let bound = add_u16_lem (n - r) 1 (omega arith) in
    elim (Bool-cases (leb r (s.claims id).yes_votes)) [
      | inl k ↦ let (s2, e) = approve_claim_total id s kept tally pending in (s2, rw (k, e) refl)
      | inr k ↦ elim (Bool-cases (leb (n - r + 1) (s.claims id).no_votes)) [
        | inl q ↦
            let (s2, e) = close_claim_total ClaimStatus.rejected id s tally pending in
            (s2, rw (k, others, bound, q, e) refl)
        | inr q ↦ (s, rw (k, others, bound, q) refl)
      ]
    ]

vote_passes :
    (msg : Msg) (id : ℕ) (s : State) (next : Call Done)
    → is_active s.agreement.status ≡ true
    → msg.timestamp ≤ s.agreement.settlement_deadline
    → (s.tenants msg.sender).exists ≡ true
    → is_pending (s.claims id).status ≡ true
    → s.votes id msg.sender ≡ 0
    → (require_agreement s
        >> (revert_if (not (is_active s.agreement.status)) invalid_status
            >> (revert_if (ltb s.agreement.settlement_deadline msg.timestamp) voting_closed
                >> (revert_if (not (s.tenants msg.sender).exists) not_tenant
                    >> (revert_if (not (is_pending (s.claims id).status)) invalid_claim
                        >> (revert_if (not (s.votes id msg.sender == 0)) already_voted >> next))))))
      ≡ next
unfolding require_agreement
vote_passes msg id s next active early there pending none =
    let living = (active_status s.agreement.status active).2 in
    ground (arith, ==_iff (s.votes id msg.sender) 0)

half_fits : (n r : ℕ) → r ≡ n / 2 + 1 → 1 ≤ n → r ≤ n
half_fits n r h k = omega arith

-- From its creation on, with amounts that fit a uint128, and after any calls, a vote succeeds exactly
-- when the agreement is active, its settlement deadline has not passed, and a tenant who has not voted
-- on it votes on a pending claim: no checked arithmetic of the counts or of the resolution ever reverts.
pub created-vote_claim_iff :
    (msg : Msg) (t : Terms) (s : State) (cs : List (EscrowCall × Msg)) (vote : Msg) (id : ℕ)
    (support : Bool)
    → All (λ n. n < u128) t.required_amounts
    → create_agreement msg t ≡ ok s
    → ((d : Done) × (vote_claim vote id support (run_ledger cs (s, 0)).0 ≡ ok d)) ↔ (
        (is_active (run_ledger cs (s, 0)).0.agreement.status ≡ true)
        × (vote.timestamp ≤ (run_ledger cs (s, 0)).0.agreement.settlement_deadline)
        × (((run_ledger cs (s, 0)).0.tenants vote.sender).exists ≡ true)
        × (is_pending ((run_ledger cs (s, 0)).0.claims id).status ≡ true)
        × ((run_ledger cs (s, 0)).0.votes id vote.sender ≡ 0))
unfolding vote_claim set_claim
created-vote_claim_iff msg t s cs vote id support small h =
    let (
      kept,
      tally,
      ((yes_counts, no_counts, unused, majority, size, some_tenant, few), undecided),
    ) =
      created-IsPolled msg t s cs small h in
    let x = (run_ledger cs (s, 0)).0 in
    (
      (λ (d, e).
          let (active, early, there, pending, none, next) = vote_guards vote id x _ d e in
          (active, early, there, pending, none)),
      (λ (active, early, there, pending, none).
          let x2 = after_vote id vote.sender support x in
          let opened = (active_opened x.agreement.status active).0 in
          let kept2 = (counted-KeepsOwed id vote.sender (ballot support) _ _ x kept opened).0 in
          let tally2 = counted-IsTallied id vote.sender (ballot support) _ _ x tally pending in
          let pending2 = counted_pending id vote.sender (ballot support) _ _ x pending in
          let counts =
            count_vote_total vote id support x
              (omega (arith, yes_counts id, no_counts id, cast_bound (x.votes id) x.tenant_list)) in
          let (x3, e) =
            resolve_vote_total id x2 kept2 tally2 pending2 (half_fits _ _ majority some_tenant)
              few in
          (
            record { state = x3; sent = 0 },
            vote_passes vote id x _ active early there pending none ∙ rw (counts, e) refl,
          )),
    )
