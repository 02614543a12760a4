-- ===== src/Escrow/Solvency/Claims/Conservation.antt =====
-- The accounting of contracts/contracts/SharedDepositEscrow.sol over the calls on claims.
use shared_deposit_monad.Base.{
  ℕ, ap, ◌+◌, ◌%◌, ◌^◌, ◌≤◌, ◌≡◌, refl, ◌∙◌, inl, inr, Bool, true, false, arith,
}
use shared_deposit_monad.Escrow.Types.{
  AgreementStatus, Claim, ClaimType, shared, individual, ClaimStatus, is_active, is_finalized,
  is_pending,
}
use shared_deposit_monad.Escrow.Storage.{State, Msg, ok, Done, put, set_tenant, set_claim}
use shared_deposit_monad.Escrow.Sums.{put_all, put_keeps}
use shared_deposit_monad.Escrow.Claims.{
  open_claim, reserve, submit_claim, withdraw_pending_claim, vote_claim, finalize_pending_claim,
}
use shared_deposit_monad.Escrow.Solvency.{IsAccounted, Conserves, is_opened, is_stray}
use shared_deposit_monad.Escrow.Solvency.Quiet.{not_finalized-held}
use shared_deposit_monad.Escrow.Solvency.Claims.{KeepsOwed, moved-KeepsOwed, moved_tenant-KeepsOwed}
use shared_deposit_monad.Escrow.Solvency.Claims.Calls.{
  counted, count_vote_ok, resolve_vote_ok, vote_claim_ok, withdraw_pending_claim_ok,
  finalize_pending_claim_ok, submit_claim_ok, reserve-shared, reserve-individual,
}
use shared_deposit_monad.Escrow.Solvency.Claims.Resolutions.{
  shared_stray, named_stray, close_claim-KeepsOwed, approve_claim-KeepsOwed,
}

pub active_opened :
    (x : AgreementStatus) → is_active x ≡ true → (is_opened x ≡ true) × (is_finalized x ≡ false)
unfolding is_opened
active_opened x h = ground arith

-- A counted vote.
pub counted-KeepsOwed :
    (id sender value yes_votes no_votes : ℕ) (s : State)
    → IsAccounted s
    → is_opened s.agreement.status ≡ true
    → KeepsOwed s (counted id sender value yes_votes no_votes s)
unfolding set_claim is_stray
counted-KeepsOwed id sender value yes_votes no_votes s kept opened =
    let c = record (s.claims id) { yes_votes = yes_votes; no_votes = no_votes } in
    moved-KeepsOwed s.agreement (put s.claims id c) (put s.votes id (put (s.votes id) sender value))
      s kept opened (refl, refl, refl) kept.3.1 kept.1.1 refl
      (put_all (λ (x : Claim). is_stray s.tenants x ≡ false) s.claims id c (kept.1.3 id) kept.1.3)

KeepsOwed-trans : (s s2 s3 : State) → KeepsOwed s s2 → KeepsOwed s2 s3 → KeepsOwed s s3
KeepsOwed-trans s s2 s3 (kept, same, status) (kept2, same2, status2) =
    (kept2, same2 ∙ same, status2 ∙ status)

-- A call on an active agreement that sends nothing.
owed-Conserves :
    (s : State) (d : Done)
    → is_active s.agreement.status ≡ true
    → d.sent ≡ 0
    → KeepsOwed s d.state
    → Conserves s 0 d
owed-Conserves s d active sent (kept, same, status) =
    let running = (active_opened s.agreement.status active).1 in
    let before = not_finalized-held s running in
    let after = not_finalized-held d.state (rw status running) in (kept, omega arith)

pub withdrawing_claim-Conserves :
    (msg : Msg) (id : ℕ) (s : State) (d : Done)
    → IsAccounted s
    → withdraw_pending_claim msg id s ≡ ok d
    → Conserves s 0 d
unfolding is_pending
withdrawing_claim-Conserves msg id s d kept h =
    let (active, pending, sent, e) = withdraw_pending_claim_ok msg id s d h in
    owed-Conserves s d active sent (
      close_claim-KeepsOwed ClaimStatus.withdrawn id s d.state refl kept
        (active_opened s.agreement.status active).0 pending e)

pub finalizing_claim-Conserves :
    (msg : Msg) (id : ℕ) (s : State) (d : Done)
    → IsAccounted s
    → finalize_pending_claim msg id s ≡ ok d
    → Conserves s 0 d
unfolding is_pending
finalizing_claim-Conserves msg id s d kept h =
    let (active, pending, sent, which) = finalize_pending_claim_ok msg id s d h in
    let opened = (active_opened s.agreement.status active).0 in
    owed-Conserves s d active sent (elim which [
      | inl e ↦ approve_claim-KeepsOwed id s d.state kept opened pending e
      | inr e ↦ close_claim-KeepsOwed ClaimStatus.rejected id s d.state refl kept opened pending e
    ])

pub counted_pending :
    (id sender value yes_votes no_votes : ℕ) (s : State)
    → is_pending (s.claims id).status ≡ true
    → is_pending ((counted id sender value yes_votes no_votes s).claims id).status ≡ true
unfolding set_claim
counted_pending id sender value yes_votes no_votes s h =
    let c = record (s.claims id) { yes_votes = yes_votes; no_votes = no_votes } in
    ap is_pending (put_keeps (λ (x : Claim). x.status) s.claims id c refl id) ∙ h

pub voting-Conserves :
    (msg : Msg) (id : ℕ) (support : Bool) (s : State) (d : Done)
    → IsAccounted s
    → vote_claim msg id support s ≡ ok d
    → Conserves s 0 d
unfolding is_pending
voting-Conserves msg id support s d kept h =
    let (active, pending, sent, (s2, e, e2)) = vote_claim_ok msg id support s d h in
    let opened = (active_opened s.agreement.status active).0 in
    let (value, yes_votes, no_votes, shape) = count_vote_ok msg id support s s2 e in
    let first : KeepsOwed s s2 =
      rw shape (counted-KeepsOwed id msg.sender value yes_votes no_votes s kept opened) in
    let pending2 : is_pending (s2.claims id).status ≡ true =
      rw shape (counted_pending id msg.sender value yes_votes no_votes s pending) in
    let opened2 : is_opened s2.agreement.status ≡ true = rw first.2 opened in
    let second : KeepsOwed s2 d.state = elim (resolve_vote_ok id s2 d.state e2) [
      | inl q ↦ rw q (first.0, refl, refl)
      | inr (inl q) ↦ approve_claim-KeepsOwed id s2 d.state first.0 opened2 pending2 q
      | inr (inr q) ↦
          close_claim-KeepsOwed ClaimStatus.rejected id s2 d.state refl first.0 opened2 pending2 q
    ] in
    owed-Conserves s d active sent (KeepsOwed-trans s s2 d.state first second)

opened-KeepsOwed :
    (kind : ClaimType) (liable amount reason evidence : ℕ) (s s2 : State)
    → IsAccounted s
    → is_opened s.agreement.status ≡ true
    → s.agreement.total_open_claim_amount + s.agreement.total_approved_claims + amount
      ≤ s.agreement.total_funded
    → reserve kind liable amount s ≡ ok s2
    → KeepsOwed s (
        open_claim kind liable amount reason evidence
          (s2.agreement.unresolved_claim_count + 1)
          (s2.agreement.total_open_claim_amount + amount)
          s2)
unfolding open_claim set_claim set_tenant
opened-KeepsOwed shared liable amount reason evidence s s2 kept opened room h =
    let id = s.agreement.claim_count + 1 in
    let ag = record (s.agreement) {
      claim_count = id % 2 ^ 32;
      unresolved_claim_count = s.agreement.unresolved_claim_count + 1;
      total_open_claim_amount = s.agreement.total_open_claim_amount + amount;
    } in
    let c = record (s.claims id) {
      liable_tenant = liable;
      reason_hash = reason;
      evidence_hash = evidence;
      amount = amount;
      claim_type = shared;
      status = ClaimStatus.pending;
    } in
    let strays =
      put_all (λ (x : Claim). is_stray s.tenants x ≡ false) s.claims id c
        (shared_stray s.tenants c refl) kept.1.3 in
    rw (reserve-shared liable amount s s2 h) (
      moved-KeepsOwed ag (put s.claims id c) s.votes s kept opened (refl, refl, refl) kept.3.1
        (omega arith) refl strays)
opened-KeepsOwed individual liable amount reason evidence s s2 kept opened room h =
    let id = s.agreement.claim_count + 1 in
    let ag = record (s.agreement) {
      claim_count = id % 2 ^ 32;
      unresolved_claim_count = s.agreement.unresolved_claim_count + 1;
      total_open_claim_amount = s.agreement.total_open_claim_amount + amount;
    } in
    let c = record (s.claims id) {
      liable_tenant = liable;
      reason_hash = reason;
      evidence_hash = evidence;
      amount = amount;
      claim_type = individual;
      status = ClaimStatus.pending;
    } in
    let (e, there, le) = reserve-individual liable amount s s2 h in
    let strays =
      put_all (λ (x : Claim). is_stray s.tenants x ≡ false) s.claims id c
        (named_stray s.tenants c there) kept.1.3 in
    let t = record (s.tenants liable) {
      open_individual_claim_amount = (s.tenants liable).open_individual_claim_amount + amount;
    } in
    rw e (
      moved_tenant-KeepsOwed ag (put s.claims id c) s.votes s liable t kept opened
        (refl, refl, refl) kept.3.1 there (refl, refl, refl, refl) (kept.3.0 liable) (omega arith)
        (omega arith) refl strays)

pub submitting-Conserves :
    (msg : Msg) (kind : ClaimType) (liable amount reason evidence : ℕ) (s : State) (d : Done)
    → IsAccounted s
    → submit_claim msg kind liable amount reason evidence s ≡ ok d
    → Conserves s 0 d
submitting-Conserves msg kind liable amount reason evidence s d kept h =
    let (active, room, count, sent, (s2, e, shape)) =
      submit_claim_ok msg kind liable amount reason evidence s d h in
    owed-Conserves s d active sent (
      rw shape (
        opened-KeepsOwed kind liable amount reason evidence s s2 kept
          (active_opened s.agreement.status active).0 room e))
