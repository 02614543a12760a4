-- ===== src/Escrow/Closing/Resolved.antt =====
-- The end of a pending claim in `finalizePendingClaim` of contracts/contracts/SharedDepositEscrow.sol.
use shared_deposit_monad.Base.{
  ℕ, ◌<◌, ◌≡◌, refl, ◌∙◌, inl, inr, true, false, ◌||◌, ◌&&◌, not, ◌==◌, leb, arith, Bool-cases,
}
use shared_deposit_monad.Escrow.Types.{
  ClaimStatus, Tenant, is_active, is_pending, invalid_status, voting_still_open, not_participant,
  invalid_claim,
}
use shared_deposit_monad.Escrow.Storage.{
  State, Msg, Call, ok, ◌>>◌, Done, revert_if, require_agreement, put, set_tenant, set_claim,
}
use shared_deposit_monad.Escrow.Sums.{put_keeps}
use shared_deposit_monad.Escrow.Claims.{close_claim, approve_claim, finalize_pending_claim}
use shared_deposit_monad.Escrow.Solvency.{IsAccounted}
use shared_deposit_monad.Escrow.Solvency.Claims.Ends.{
  type_cases, close_claim-shared, close_claim-individual, approve_claim-shared,
  approve_claim-individual,
}
use shared_deposit_monad.Escrow.Solvency.Payouts.{active_status}
use shared_deposit_monad.Escrow.Closing.{IsTallied}
use shared_deposit_monad.Escrow.Closing.Totals.{close_claim_total, approve_claim_total}

-- What the end of a claim leaves as it is.
abbrev pub Ends : ℕ → ClaimStatus → State → State → Type 0
Ends id status s s2 =
    (s2.agreement.status ≡ s.agreement.status)
    × (s2.agreement.settlement_deadline ≡ s.agreement.settlement_deadline)
    × (s2.agreement.recipient ≡ s.agreement.recipient)
    × (s2.claims ≡ put s.claims id (record (s.claims id) { status = status }))
    × ((a : ℕ) → (s2.tenants a).exists ≡ (s.tenants a).exists)

pub close_claim-Ends :
    (status : ClaimStatus) (id : ℕ) (s s2 : State)
    → close_claim status id s ≡ ok s2
    → Ends id status s s2
unfolding set_claim set_tenant
close_claim-Ends status id s s2 h = elim (type_cases (s.claims id).claim_type) [
  | inl k ↦ rw ((close_claim-shared status id s s2 k h).0) (refl, refl, refl, refl, (λ a. refl))
  | inr k ↦
      rw ((close_claim-individual status id s s2 k h).0)
        (refl, refl, refl, refl, put_keeps (λ (u : Tenant). u.exists) s.tenants _ _ refl)
]

pub approve_claim-Ends :
    (id : ℕ) (s s2 : State) → approve_claim id s ≡ ok s2 → Ends id ClaimStatus.approved s s2
unfolding set_claim set_tenant
approve_claim-Ends id s s2 h = elim (type_cases (s.claims id).claim_type) [
  | inl k ↦ rw ((approve_claim-shared id s s2 k h).0) (refl, refl, refl, refl, (λ a. refl))
  | inr k ↦
      rw ((approve_claim-individual id s s2 k h).0)
        (refl, refl, refl, refl, put_keeps (λ (u : Tenant). u.exists) s.tenants _ _ refl)
]

-- A participant.
abbrev pub IsParticipant : ℕ → State → Type 0
IsParticipant a s = ((s.tenants a).exists || a == s.agreement.recipient) ≡ true

finalize_claim_passes :
    (msg : Msg) (id : ℕ) (s : State) (next : Call Done)
    → is_active s.agreement.status ≡ true
    → s.agreement.settlement_deadline < msg.timestamp
    → IsParticipant msg.sender s
    → is_pending (s.claims id).status ≡ true
    → (require_agreement s
        >> (revert_if (not (is_active s.agreement.status)) invalid_status
            >> (revert_if (leb msg.timestamp s.agreement.settlement_deadline) voting_still_open
                >> (revert_if
                      (not (s.tenants msg.sender).exists
                        && not (msg.sender == s.agreement.recipient))
                      not_participant
                    >> (revert_if (not (is_pending (s.claims id).status)) invalid_claim >> next)))))
      ≡ next
unfolding require_agreement
finalize_claim_passes msg id s next active late here pending =
    let there = (active_status s.agreement.status active).2 in ground arith

-- The end of a pending claim after the settlement deadline.
pub finalize_pending_claim_total :
    (msg : Msg) (id : ℕ) (s : State)
    → IsAccounted s
    → IsTallied s
    → is_active s.agreement.status ≡ true
    → s.agreement.settlement_deadline < msg.timestamp
    → IsParticipant msg.sender s
    → is_pending (s.claims id).status ≡ true
    → (d : Done) × (finalize_pending_claim msg id s ≡ ok d)
      × (status : ClaimStatus) × (is_pending status ≡ false)
      × Ends id status s d.state
unfolding finalize_pending_claim is_pending
finalize_pending_claim_total msg id s kept tally active late here pending =
    let passes = finalize_claim_passes msg id s _ active late here pending in
    elim (Bool-cases (leb s.agreement.required_approvals (s.claims id).yes_votes)) [
      | inl k ↦
          let (s2, e) = approve_claim_total id s kept tally pending in
          (
            record { state = s2; sent = 0 },
            passes ∙ rw (k, e) refl,
            ClaimStatus.approved,
            refl,
            approve_claim-Ends id s s2 e,
          )
      | inr k ↦
          let (s2, e) = close_claim_total ClaimStatus.rejected id s tally pending in
          (
            record { state = s2; sent = 0 },
            passes ∙ rw (k, e) refl,
            ClaimStatus.rejected,
            refl,
            close_claim-Ends ClaimStatus.rejected id s s2 e,
          )
    ]
