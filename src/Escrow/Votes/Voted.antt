-- ===== src/Escrow/Votes/Voted.antt =====
-- A vote of contracts/contracts/SharedDepositEscrow.sol and what it does.
use shared_deposit_monad.Base.{ℕ, ◌+◌, ◌/◌, ◌≡◌, refl, ◌∙◌, sym, inl, inr, Bool, true, arith}
use shared_deposit_monad.Escrow.Types.{ClaimStatus, is_pending}
use shared_deposit_monad.Escrow.Storage.{State, Msg, ok, Done, put, set_claim}
use shared_deposit_monad.Escrow.Claims.{vote_claim}
use shared_deposit_monad.Escrow.Closing.Tally.{put_self}
use shared_deposit_monad.Escrow.Closing.Resolved.{close_claim-Ends, approve_claim-Ends}
use shared_deposit_monad.Escrow.Votes.{outcome}
use shared_deposit_monad.Escrow.Votes.Kept.{close_claim-KeepsVotes, approve_claim-KeepsVotes}
use shared_deposit_monad.Escrow.Votes.Outcome.{ballot, yes_of, no_of, after_vote, resolve_vote_lem}
use shared_deposit_monad.Escrow.Votes.Polls.{vote_claim_lem}

-- What a vote leaves of its claim.
abbrev pub HasOutcome : ℕ → ℕ → Bool → State → State → Type 0
HasOutcome id sender support s s2 =
    ((s2.claims id).yes_votes ≡ (s.claims id).yes_votes + yes_of support)
    × ((s2.claims id).no_votes ≡ (s.claims id).no_votes + no_of support)
    × ((s2.claims id).status
        ≡ outcome s.agreement.tenant_count ((s.claims id).yes_votes + yes_of support)
            ((s.claims id).no_votes + no_of support))
    × (s2.votes id sender ≡ ballot support)

ended_outcome :
    (id sender : ℕ) (support : Bool) (status : ClaimStatus) (s s2 : State)
    → s2.votes ≡ (after_vote id sender support s).votes
    → s2.claims
      ≡ put
          (after_vote id sender support s).claims
          id
          (record ((after_vote id sender support s).claims id) { status = status })
    → outcome s.agreement.tenant_count
        ((s.claims id).yes_votes + yes_of support)
        ((s.claims id).no_votes + no_of support)
      ≡ status
    → HasOutcome id sender support s s2
unfolding set_claim
ended_outcome id sender support status s s2 votes claims e =
    let c = record (s.claims id) {
      yes_votes = (s.claims id).yes_votes + yes_of support;
      no_votes = (s.claims id).no_votes + no_of support;
    } in
    let c2 = record (put s.claims id c id) { status = status } in
    let v = put (s.votes id) sender (ballot support) in
    rw
      (
        votes,
        claims,
        put_self (put s.claims id c) id c2,
        put_self s.claims id c,
        put_self s.votes id v,
        put_self (s.votes id) sender (ballot support),
      )
      (refl, refl, sym e, refl)

pending_lem : (x : ClaimStatus) → is_pending x ≡ true → x ≡ ClaimStatus.pending
unfolding is_pending
pending_lem x h = ground arith

-- A vote that does not revert is the tenant's first on a pending claim and adds one to one of its counts.
-- The claim is then approved where more than half of all tenants have voted YES, else rejected where half
-- of them or more have voted NO, and else pending, given the required approvals that creation sets.
pub vote_claim-HasOutcome :
    (msg : Msg) (id : ℕ) (support : Bool) (s : State) (d : Done)
    → s.agreement.required_approvals ≡ s.agreement.tenant_count / 2 + 1
    → vote_claim msg id support s ≡ ok d
    → ((s.tenants msg.sender).exists ≡ true)
      × (is_pending (s.claims id).status ≡ true)
      × (s.votes id msg.sender ≡ 0)
      × HasOutcome id msg.sender support s d.state
unfolding set_claim is_pending
vote_claim-HasOutcome msg id support s d majority h =
    let (there, pending, none, e) = vote_claim_lem msg id support s d h in
    let s2 = after_vote id msg.sender support s in
    let c = record (s.claims id) {
      yes_votes = (s.claims id).yes_votes + yes_of support;
      no_votes = (s.claims id).no_votes + no_of support;
    } in
    let v = put (s.votes id) msg.sender (ballot support) in
    (
      there,
      pending,
      none,
      elim (resolve_vote_lem id s2 d.state majority e) [
        | inl (same, left) ↦
            let left2 = rw (put_self s.claims id c) at left in
            rw
              (
                same,
                put_self s.claims id c,
                put_self s.votes id v,
                put_self (s.votes id) msg.sender (ballot support),
              )
              (refl, refl, pending_lem _ pending ∙ sym left2, refl)
        | inr (inl (q, left)) ↦
            ended_outcome id msg.sender support ClaimStatus.approved s d.state
              (approve_claim-KeepsVotes id s2 d.state q).0 (approve_claim-Ends id s2 d.state q).3
              (rw (put_self s.claims id c) at left)
        | inr (inr (q, left)) ↦
            ended_outcome id msg.sender support ClaimStatus.rejected s d.state
              (close_claim-KeepsVotes ClaimStatus.rejected id s2 d.state q).0
              (close_claim-Ends ClaimStatus.rejected id s2 d.state q).3
              (rw (put_self s.claims id c) at left)
      ],
    )
