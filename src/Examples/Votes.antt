-- ===== src/Examples/Votes.antt =====
-- The claims, votes and the end of an agreement of the escrow contract at concrete inputs.
use shared_deposit_monad.Base.{
  some, Text, length, zero, suc, ℕ, ◌+◌, ◌*◌, ◌≤◌, ◌<◌, ◌≡◌, ◌↔◌, refl, true, false, List, [], ◌∷◌,
  ◌++◌, arith,
}
use shared_deposit_monad.Escrow.Types.{
  shared, AgreementStatus, ClaimStatus, max_claims, is_active, is_pending, is_finalized,
}
use shared_deposit_monad.Escrow.Storage.{State, Msg, ok, Done, put, set_claim}
use shared_deposit_monad.Escrow.Claims.{
  reserve, open_claim, submit_claim, close_claim, count_vote, reject_if_lost, resolve_vote,
  vote_claim, finalize_pending_claim,
}
use shared_deposit_monad.Escrow.Creation.{
  register_one, new_agreement, blank_agreement, blank_tenant, blank_claim, blank_state,
}
use shared_deposit_monad.Escrow.Funding.{
  deposit, accept_as_recipient, accept_as_tenant, check_and_activate,
  all_tenants_accepted_and_funded,
}
use shared_deposit_monad.Escrow.Closing.Resolved.{IsParticipant, finalize_pending_claim_total}
use shared_deposit_monad.Escrow.Solvency.{EscrowCall, submitting, voting, IsAccounted, run_ledger}
use shared_deposit_monad.Escrow.Solvency.Claims.Ends.{closed}
use shared_deposit_monad.Escrow.Closing.{closing, IsTallied}
use shared_deposit_monad.Escrow.Closing.Finalized.{created-closing}
use shared_deposit_monad.Escrow.Votes.{cast, IsPolled}
use shared_deposit_monad.Escrow.Votes.Outcome.{after_vote}
use shared_deposit_monad.Escrow.Votes.Voted.{HasOutcome, vote_claim-HasOutcome}
use shared_deposit_monad.Escrow.Votes.Reached.{created-IsPolled, created-counts}
use shared_deposit_monad.Escrow.Votes.Rejected.{created-rejects}
use shared_deposit_monad.Escrow.Votes.Decided.{created-vote_claim_iff}
use shared_deposit_monad.Detail.{accepted_count, funded_count, claim_reads, claim_rows}
use shared_deposit_monad.Detail.Shown.{entries_of, open_rows, complete_iff, created-open_rows}
use shared_deposit_monad.Examples.Escrow.{terms, created, call, funding, msg, is_created, small}

-- A claim on the deposits, and one vote for it.
abbrev claiming : List (EscrowCall × Msg)
claiming = funding ++ (call 7 0 250 (submitting shared 0 7 1 1) ∷ call 1 0 260 (voting 1 true) ∷ [])

abbrev claimed : State
claimed = (run_ledger claiming (created, 0)).0

abbrev late : Msg
late = record { sender = 7; value = 0; timestamp = 500 }

abbrev vote : Msg
vote = record { sender = 2; value = 0; timestamp = 270 }

created-counts_example :
    ((claimed.claims 1).yes_votes ≡ cast 1 (claimed.votes 1) claimed.tenant_list)
    × ((claimed.claims 1).no_votes ≡ cast 2 (claimed.votes 1) claimed.tenant_list)
    × ((claimed.claims 1).yes_votes + (claimed.claims 1).no_votes ≤ claimed.agreement.tenant_count)
    × (is_pending (claimed.claims 1).status ≡ true
        → (2 * (claimed.claims 1).yes_votes ≤ claimed.agreement.tenant_count)
          × (2 * (claimed.claims 1).no_votes < claimed.agreement.tenant_count))
created-counts_example = created-counts msg terms created claiming small is_created 1

created-vote_claim_iff_example : ((d : Done) × (vote_claim vote 1 false claimed ≡ ok d)) ↔ (
    (is_active claimed.agreement.status ≡ true)
    × (270 ≤ claimed.agreement.settlement_deadline)
    × ((claimed.tenants 2).exists ≡ true)
    × (is_pending (claimed.claims 1).status ≡ true)
    × (claimed.votes 1 2 ≡ 0))
created-vote_claim_iff_example =
    created-vote_claim_iff msg terms created claiming vote 1 false small is_created

-- The claim is pending, and all the guards hold.
claimed_open :
    (is_active claimed.agreement.status ≡ true)
    × (claimed.agreement.settlement_deadline < 500)
    × IsParticipant 7 claimed
    × (is_pending (claimed.claims 1).status ≡ true)
unfolding run_ledger is_active is_pending vote_claim submit_claim deposit accept_as_recipient
    accept_as_tenant register_one new_agreement put check_and_activate
    all_tenants_accepted_and_funded reserve open_claim count_vote resolve_vote reject_if_lost
claimed_open = (refl, omega arith, refl, refl)

created-closing_example :
    (claimed.agreement.claim_count ≤ max_claims)
    × (is_finalized
          (run_ledger
            (closing late claimed.agreement.claim_count)
            (run_ledger claiming (created, 0))).0.agreement.status
        ≡ true)
created-closing_example =
    created-closing msg terms created claiming late small is_created claimed_open.0 claimed_open.1
      claimed_open.2

claimed-IsPolled : IsAccounted claimed × IsTallied claimed × IsPolled claimed
claimed-IsPolled = created-IsPolled msg terms created claiming small is_created

ending : (d : Done) × (finalize_pending_claim late 1 claimed ≡ ok d)
ending =
    let (d, e, status, rest, ends) =
      finalize_pending_claim_total late 1 claimed claimed-IsPolled.0 claimed-IsPolled.1
        claimed_open.0 claimed_open.1 claimed_open.2 claimed_open.3 in
    (d, e)

created-rejects_example :
    ((ending.0.state.claims 1).status ≡ ClaimStatus.rejected)
    × (ending.0.state.agreement.total_approved_claims ≡ claimed.agreement.total_approved_claims)
created-rejects_example =
    created-rejects msg terms created claiming late 1 ending.0 small is_created ending.1

-- Two tenants, one of whom has voted for a claim of 7.
abbrev polling : State
polling = record (blank_state) {
  agreement = record (blank_agreement) {
    settlement_deadline = 400;
    tenant_count = 2;
    required_approvals = 2;
    claim_count = 1;
    unresolved_claim_count = 1;
    total_funded = 30;
    total_open_claim_amount = 7;
    status = AgreementStatus.active;
  };
  tenants = λ a. record (blank_tenant) { funded_amount = 15; exists = true };
  claims = λ id. record (blank_claim) { amount = 7; yes_votes = 1; status = ClaimStatus.pending };
}

abbrev voted : Done
voted = record { state = closed ClaimStatus.rejected 1 (after_vote 1 2 false polling); sent = 0 }

is_voted : vote_claim vote 1 false polling ≡ ok voted
unfolding vote_claim resolve_vote reject_if_lost close_claim set_claim put count_vote
is_voted = refl

vote_claim-HasOutcome_example :
    ((polling.tenants 2).exists ≡ true)
    × (is_pending (polling.claims 1).status ≡ true)
    × (polling.votes 1 2 ≡ 0)
    × HasOutcome 1 2 false polling voted.state
vote_claim-HasOutcome_example = vote_claim-HasOutcome vote 1 false polling voted refl is_voted

-- The page of that agreement, whose addresses are printed in unary.
abbrev show : ℕ → Text
show zero = 48 ∷ []
show (suc n) = 48 ∷ show n

complete_iff_example : (all_tenants_accepted_and_funded claimed ≡ true) ↔ (
    (claimed.agreement.recipient_accepted ≡ true)
    × (accepted_count (entries_of show claimed.tenants claimed.tenant_list)
        ≡ length claimed.tenant_list)
    × (funded_count (entries_of show claimed.tenants claimed.tenant_list)
        ≡ length claimed.tenant_list))
complete_iff_example = complete_iff show claimed

created-open_rows_example :
    open_rows
      (claim_rows 1 (claim_reads (λ id. some (claimed.claims id)) 1 claimed.agreement.claim_count))
    ≡ claimed.agreement.unresolved_claim_count
created-open_rows_example = created-open_rows msg terms created claiming small is_created
