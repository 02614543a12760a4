-- ===== src/Escrow/Votes/Outcome.antt =====
-- `voteClaim` of contracts/contracts/SharedDepositEscrow.sol: the vote that it counts, and the outcome.
use shared_deposit_monad.Escrow.Checked.{sub_checked_ok, add_u16_ok}
use shared_deposit_monad.Base.{
  ℕ, ◌+◌, ◌-◌, ◌/◌, ◌≤◌, ◌≡◌, sym, ◌⊎◌, inl, inr, Bool, true, false, if◌then◌else◌, leb, arith,
  Bool-cases,
}
use shared_deposit_monad.Escrow.Types.{ClaimStatus}
use shared_deposit_monad.Escrow.Storage.{State, Msg, ok, add_u16, sub_checked, bind_ok, ok_inj}
use shared_deposit_monad.Escrow.Claims.{
  close_claim, approve_claim, count_vote, reject_if_lost, resolve_vote,
}
use shared_deposit_monad.Escrow.Solvency.Claims.Calls.{counted}
use shared_deposit_monad.Escrow.Votes.{outcome}

-- The recorded vote, and what it adds to the two counts.
abbrev pub ballot : Bool → ℕ
ballot support = if support then 1 else 2

abbrev pub yes_of : Bool → ℕ
yes_of support = if support then 1 else 0

abbrev pub no_of : Bool → ℕ
no_of support = if support then 0 else 1

abbrev pub after_vote : ℕ → ℕ → Bool → State → State
after_vote id sender support s =
    counted id sender (ballot support) ((s.claims id).yes_votes + yes_of support)
      ((s.claims id).no_votes + no_of support) s

pub count_vote_lem :
    (msg : Msg) (id : ℕ) (support : Bool) (s s2 : State)
    → count_vote msg id support s ≡ ok s2
    → s2 ≡ after_vote id msg.sender support s
unfolding count_vote
count_vote_lem msg id true s s2 h =
    let same : (s.claims id).no_votes + 0 ≡ (s.claims id).no_votes = omega arith in
    rw same (ground arith)
count_vote_lem msg id false s s2 h =
    let same : (s.claims id).yes_votes + 0 ≡ (s.claims id).yes_votes = omega arith in
    rw same (ground arith)

-- The three ways out of the counted votes.
abbrev pub Resolves : ℕ → State → State → Type 0
Resolves id s s2 =
    ((s2 ≡ s)
      × (outcome s.agreement.tenant_count (s.claims id).yes_votes (s.claims id).no_votes
          ≡ ClaimStatus.pending))
    ⊎ (((approve_claim id s ≡ ok s2)
          × (outcome s.agreement.tenant_count (s.claims id).yes_votes (s.claims id).no_votes
              ≡ ClaimStatus.approved))
        ⊎ ((close_claim ClaimStatus.rejected id s ≡ ok s2)
            × (outcome s.agreement.tenant_count (s.claims id).yes_votes (s.claims id).no_votes
                ≡ ClaimStatus.rejected)))

outcome-approved :
    (n r yes_votes no_votes : ℕ)
    → r ≡ n / 2 + 1
    → leb r yes_votes ≡ true
    → outcome n yes_votes no_votes ≡ ClaimStatus.approved
unfolding outcome
outcome-approved n r yes_votes no_votes h k = ground arith

outcome-rejected :
    (n r yes_votes no_votes : ℕ)
    → r ≡ n / 2 + 1
    → r ≤ n
    → leb r yes_votes ≡ false
    → leb (n - r + 1) no_votes ≡ true
    → outcome n yes_votes no_votes ≡ ClaimStatus.rejected
unfolding outcome
outcome-rejected n r yes_votes no_votes h room k q = ground arith

outcome-pending :
    (n r yes_votes no_votes : ℕ)
    → r ≡ n / 2 + 1
    → r ≤ n
    → leb r yes_votes ≡ false
    → leb (n - r + 1) no_votes ≡ false
    → outcome n yes_votes no_votes ≡ ClaimStatus.pending
unfolding outcome
outcome-pending n r yes_votes no_votes h room k q = ground arith

pub resolve_vote_lem :
    (id : ℕ) (s s2 : State)
    → s.agreement.required_approvals ≡ s.agreement.tenant_count / 2 + 1
    → resolve_vote id s ≡ ok s2
    → Resolves id s s2
unfolding resolve_vote reject_if_lost
resolve_vote_lem id s s2 majority h =
    let n = s.agreement.tenant_count in
    let r = s.agreement.required_approvals in
    let c = s.claims id in
    elim (Bool-cases (leb r c.yes_votes)) [
      | inl k ↦ inr (inl (rw k at h, outcome-approved n r c.yes_votes c.no_votes majority k))
      | inr k ↦
          let (others, e1, h1) = bind_ok (sub_checked n r) _ s2 (rw k at h) in
          let (bound, e2, h2) = bind_ok (add_u16 others 1) _ s2 h1 in
          let (few, room) = sub_checked_ok n r others e1 in
          let bound_lem : bound ≡ n - r + 1 = rw (← few) (add_u16_ok others 1 bound e2) in
          elim (Bool-cases (leb bound c.no_votes)) [
            | inl q ↦
                let q2 = rw bound_lem at q in
                inr
                  (inr (rw q at h2, outcome-rejected n r c.yes_votes c.no_votes majority room k q2))
            | inr q ↦
                let q2 = rw bound_lem at q in
                inl (
                  sym (ok_inj (rw q at h2)),
                  outcome-pending n r c.yes_votes c.no_votes majority room k q2,
                )
          ]
    ]
