-- ===== src/Escrow/Solvency/Claims/Calls.antt =====
-- What the claim operations of contracts/contracts/SharedDepositEscrow.sol have checked and done where
-- they do not revert.
use shared_deposit_monad.Escrow.Checked.{add_u32_ok, add_u128_ok}
use shared_deposit_monad.Base.{
  ==_iff, Bool-cases, sym, ap, ◌∙◌, ℕ, ◌+◌, ◌≤◌, ◌<◌, ◌≡◌, ◌⊎◌, inl, inr, Bool, true, false, ◌||◌,
  not, ◌==◌, arith, leb, ltb,
}
use shared_deposit_monad.Escrow.Types.{
  ClaimType, shared, individual, ClaimStatus, max_claims, not_recipient, claim_window_not_open,
  claim_window_closed, too_many_claims, invalid_amount, missing_evidence,
  claim_exceeds_available_deposit, invalid_status, voting_closed, not_tenant, invalid_claim,
  already_voted, is_active, is_pending,
}
use shared_deposit_monad.Escrow.Storage.{
  State, Msg, Call, ok, Done, put, set_tenant, set_claim, add_u16, add_u32, add_u128, sub_checked,
  require_agreement, revert_if, bind_ok, ok_inj, ◌>>◌,
}
use shared_deposit_monad.Escrow.Claims.{
  reserve, open_claim, submit_claim, close_claim, approve_claim, withdraw_pending_claim, count_vote,
  reject_if_lost, resolve_vote, vote_claim, finalize_pending_claim,
}

-- A counted vote changes the votes and the counts of its claim.
abbrev pub counted : ℕ → ℕ → (value yes_votes no_votes : ℕ) → State → State
counted id sender value yes_votes no_votes s =
    set_claim id (record (s.claims id) { yes_votes = yes_votes; no_votes = no_votes })
      (record s { votes = put s.votes id (put (s.votes id) sender value) })

pub count_vote_ok :
    (msg : Msg) (id : ℕ) (support : Bool) (s s2 : State)
    → count_vote msg id support s ≡ ok s2
    → (value : ℕ) × (yes_votes : ℕ) × (no_votes : ℕ) × (s2
        ≡ counted id msg.sender value yes_votes no_votes s)
unfolding count_vote
count_vote_ok msg id true s s2 h =
    (1, (s.claims id).yes_votes + 1, (s.claims id).no_votes, ground arith)
count_vote_ok msg id false s s2 h =
    (2, (s.claims id).yes_votes, (s.claims id).no_votes + 1, ground arith)

-- The votes either leave the claim, or approve or reject it.
pub resolve_vote_ok :
    (id : ℕ) (s s2 : State)
    → resolve_vote id s ≡ ok s2
    → (s2 ≡ s) ⊎ ((approve_claim id s ≡ ok s2) ⊎ (close_claim ClaimStatus.rejected id s ≡ ok s2))
unfolding resolve_vote reject_if_lost
resolve_vote_ok id s s2 h =
    elim (Bool-cases (leb s.agreement.required_approvals (s.claims id).yes_votes)) [
      | inl k ↦ inr (inl (rw k at h))
      | inr k ↦
          let (others, e1, h1) =
            bind_ok (sub_checked s.agreement.tenant_count s.agreement.required_approvals) _ s2
              (rw k at h) in
          let (bound, e2, h2) = bind_ok (add_u16 others 1) _ s2 h1 in
          elim (Bool-cases (leb bound (s.claims id).no_votes)) [
            | inl q ↦ inr (inr (rw q at h2))
            | inr q ↦ inl (sym (ok_inj (rw q at h2)))
          ]
    ]

-- The guards of a vote, with what follows them shut.
pub vote_guards :
    (msg : Msg) (id : ℕ) (s : State) (next : Call Done) (d : Done)
    → (require_agreement s
        >> (revert_if (not (is_active s.agreement.status)) invalid_status
            >> (revert_if (ltb s.agreement.settlement_deadline msg.timestamp) voting_closed
                >> (revert_if (not (s.tenants msg.sender).exists) not_tenant
                    >> (revert_if (not (is_pending (s.claims id).status)) invalid_claim
                        >> (revert_if (not (s.votes id msg.sender == 0)) already_voted >> next))))))
      ≡ ok d
    → (is_active s.agreement.status ≡ true)
      × (msg.timestamp ≤ s.agreement.settlement_deadline)
      × ((s.tenants msg.sender).exists ≡ true)
      × (is_pending (s.claims id).status ≡ true)
      × (s.votes id msg.sender ≡ 0)
      × (next ≡ ok d)
vote_guards msg id s next d h = ground (arith, ==_iff (s.votes id msg.sender) 0)

pub vote_claim_ok :
    (msg : Msg) (id : ℕ) (support : Bool) (s : State) (d : Done)
    → vote_claim msg id support s ≡ ok d
    → (is_active s.agreement.status ≡ true)
      × (is_pending (s.claims id).status ≡ true)
      × (d.sent ≡ 0)
      × ((s2 : State) × (count_vote msg id support s ≡ ok s2) × (resolve_vote id s2 ≡ ok d.state))
unfolding vote_claim
vote_claim_ok msg id support s d h =
    let (active, early, there, pending, none, h1) = vote_guards msg id s _ d h in
    let (s2, e2, h2) = bind_ok (count_vote msg id support s) _ d h1 in
    let (s3, e3, h3) = bind_ok (resolve_vote id s2) _ d h2 in
    let e = ok_inj h3 in
    (active, pending, ap (λ x. x.sent) (sym e), (s2, e2, e3 ∙ ap (λ x. ok x.state) e))

pub withdraw_pending_claim_ok :
    (msg : Msg) (id : ℕ) (s : State) (d : Done)
    → withdraw_pending_claim msg id s ≡ ok d
    → (is_active s.agreement.status ≡ true)
      × (is_pending (s.claims id).status ≡ true)
      × (d.sent ≡ 0)
      × (close_claim ClaimStatus.withdrawn id s ≡ ok d.state)
unfolding withdraw_pending_claim
withdraw_pending_claim_ok msg id s d h = ground arith

pub finalize_pending_claim_ok :
    (msg : Msg) (id : ℕ) (s : State) (d : Done)
    → finalize_pending_claim msg id s ≡ ok d
    → (is_active s.agreement.status ≡ true)
      × (is_pending (s.claims id).status ≡ true)
      × (d.sent ≡ 0)
      × ((approve_claim id s ≡ ok d.state) ⊎ (close_claim ClaimStatus.rejected id s ≡ ok d.state))
unfolding finalize_pending_claim
finalize_pending_claim_ok msg id s d h = ground arith

submit_guards :
    (msg : Msg) (amount reason evidence : ℕ) (s : State) (next : Call Done) (d : Done)
    → (require_agreement s
        >> (revert_if (not (is_active s.agreement.status)) invalid_status
            >> (revert_if (not (msg.sender == s.agreement.recipient)) not_recipient
                >> (revert_if (ltb msg.timestamp s.agreement.lease_end) claim_window_not_open
                    >> (revert_if (ltb s.agreement.claim_deadline msg.timestamp) claim_window_closed
                        >> (revert_if (leb max_claims s.agreement.claim_count) too_many_claims
                            >> (revert_if (amount == 0) invalid_amount
                                >> (revert_if (reason == 0 || evidence == 0) missing_evidence
                                    >> (revert_if
                                          (ltb s.agreement.total_funded (
                                            s.agreement.total_open_claim_amount
                                            + s.agreement.total_approved_claims + amount))
                                          claim_exceeds_available_deposit
                                        >> next)))))))))
      ≡ ok d
    → (is_active s.agreement.status ≡ true)
      × (s.agreement.total_open_claim_amount + s.agreement.total_approved_claims + amount
          ≤ s.agreement.total_funded)
      × (s.agreement.claim_count < max_claims)
      × (next ≡ ok d)
submit_guards msg amount reason evidence s next d h = ground arith

pub submit_claim_ok :
    (msg : Msg) (kind : ClaimType) (liable amount reason evidence : ℕ) (s : State) (d : Done)
    → submit_claim msg kind liable amount reason evidence s ≡ ok d
    → (is_active s.agreement.status ≡ true)
      × (s.agreement.total_open_claim_amount + s.agreement.total_approved_claims + amount
          ≤ s.agreement.total_funded)
      × (s.agreement.claim_count < max_claims)
      × (d.sent ≡ 0)
      × ((s2 : State) × (reserve kind liable amount s ≡ ok s2)
          × (d.state
              ≡ open_claim kind liable amount reason evidence
                  (s2.agreement.unresolved_claim_count + 1)
                  (s2.agreement.total_open_claim_amount + amount)
                  s2))
unfolding submit_claim
submit_claim_ok msg kind liable amount reason evidence s d h =
    let (active, room, count, h1) = submit_guards msg amount reason evidence s _ d h in
    let (s2, e2, h2) = bind_ok (reserve kind liable amount s) _ d h1 in
    let (unresolved, e3, h3) = bind_ok (add_u32 s2.agreement.unresolved_claim_count 1) _ d h2 in
    let (opened, e4, h4) = bind_ok (add_u128 s2.agreement.total_open_claim_amount amount) _ d h3 in
    let e = ok_inj h4 in
    let q = add_u32_ok s2.agreement.unresolved_claim_count 1 unresolved e3 in
    let q2 = add_u128_ok s2.agreement.total_open_claim_amount amount opened e4 in
    (
      active,
      room,
      count,
      ap (λ x. x.sent) (sym e),
      (s2, e2, rw (← q, ← q2) (ap (λ x. x.state) (sym e))),
    )

pub reserve-shared :
    (liable amount : ℕ) (s s2 : State) → reserve shared liable amount s ≡ ok s2 → s2 ≡ s
unfolding reserve
reserve-shared liable amount s s2 h = ground arith

pub reserve-individual :
    (liable amount : ℕ) (s s2 : State)
    → reserve individual liable amount s ≡ ok s2
    → (s2
        ≡ set_tenant liable
            (record (s.tenants liable) {
              open_individual_claim_amount =
                  (s.tenants liable).open_individual_claim_amount + amount;
            })
            s)
      × ((s.tenants liable).exists ≡ true)
      × ((s.tenants liable).open_individual_claim_amount
            + (s.tenants liable).approved_individual_claims
            + amount
          ≤ (s.tenants liable).funded_amount)
unfolding reserve
reserve-individual liable amount s s2 h = ground arith
