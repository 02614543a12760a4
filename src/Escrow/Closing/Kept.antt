-- ===== src/Escrow/Closing/Kept.antt =====
-- The counters of the claims of contracts/contracts/SharedDepositEscrow.sol where a claim is resolved or
-- voted on.
use shared_deposit_monad.Base.{
  ℕ, ◌+◌, ◌-◌, ◌≤◌, ◌≡◌, refl, inl, inr, true, false, ◌==◌, arith, Bool-cases, ==_iff,
}
use shared_deposit_monad.Escrow.Types.{Tenant, ClaimStatus, individual, is_pending}
use shared_deposit_monad.Escrow.Storage.{State, ok, put, set_tenant, set_claim}
use shared_deposit_monad.Escrow.Claims.{close_claim, approve_claim}
use shared_deposit_monad.Escrow.Solvency.Claims.Ends.{
  type_cases, close_claim-shared, close_claim-individual, approve_claim-shared,
  approve_claim-individual,
}
use shared_deposit_monad.Escrow.Solvency.Claims.Calls.{counted}
use shared_deposit_monad.Escrow.Closing.{pending_amount, pending_one, pending_on, IsTallied}
use shared_deposit_monad.Escrow.Closing.Tally.{put_self, put_other, claim_sum_bound}
use shared_deposit_monad.Escrow.Closing.Pending.{
  pending_used, not_pending_values, pending_values, pending_on-shared, pending_on-liable,
  pending_on-other, changed-IsTallied,
}

-- What a resolved claim frees, tenant by tenant.
freed :
    (s : State) (id a : ℕ)
    → is_pending (s.claims id).status ≡ true
    → (s.claims id).claim_type ≡ individual
    → (t : Tenant)
    → t.open_individual_claim_amount
      ≡ (s.tenants (s.claims id).liable_tenant).open_individual_claim_amount - (s.claims id).amount
    → (s.claims id).amount ≤ (s.tenants (s.claims id).liable_tenant).open_individual_claim_amount
    → (put s.tenants (s.claims id).liable_tenant t a).open_individual_claim_amount
        + pending_on a (s.claims id)
      ≡ (s.tenants a).open_individual_claim_amount
freed s id a pending kind t e le =
    let c = s.claims id in
    elim (Bool-cases (a == c.liable_tenant)) [
      | inl k ↦
          let same : a ≡ c.liable_tenant = (==_iff a c.liable_tenant).0 k in
          rw (same, put_self s.tenants c.liable_tenant t, pending_on-liable c pending kind)
            (omega arith)
      | inr k ↦ rw (put_other s.tenants c.liable_tenant t a k, pending_on-other a c k) (omega arith)
    ]

pub close_claim-IsTallied :
    (status : ClaimStatus) (id : ℕ) (s s2 : State)
    → is_pending status ≡ false
    → IsTallied s
    → is_pending (s.claims id).status ≡ true
    → close_claim status id s ≡ ok s2
    → IsTallied s2
unfolding set_claim set_tenant
close_claim-IsTallied status id s s2 left tally pending h =
    let c = record (s.claims id) { status = status } in
    let ag = record (s.agreement) {
      unresolved_claim_count = s.agreement.unresolved_claim_count - 1;
      total_open_claim_amount = s.agreement.total_open_claim_amount - (s.claims id).amount;
    } in
    let (low, high) = pending_used _ _ id (tally.3 id) pending in
    let (old_amount, old_one) = pending_values (s.claims id) pending in
    let (new_amount, new_one, new_on) = not_pending_values c left in
    let some_pending = claim_sum_bound pending_one s.claims id s.agreement.claim_count low high in
    let there = tally.1 in
    elim (type_cases (s.claims id).claim_type) [
      | inl k ↦
          let (e, le) = close_claim-shared status id s s2 k h in
          rw e (
            changed-IsTallied s id c tally low high ag s.tenants s.votes refl (omega arith)
              (omega arith) (λ a. omega (arith, pending_on-shared a (s.claims id) k, new_on a)))
      | inr k ↦
          let (e, le, le2) = close_claim-individual status id s s2 k h in
          let liable = (s.claims id).liable_tenant in
          let t = record (s.tenants liable) {
            open_individual_claim_amount =
                (s.tenants liable).open_individual_claim_amount - (s.claims id).amount;
          } in
          rw e (
            changed-IsTallied s id c tally low high ag (put s.tenants liable t) s.votes refl
              (omega arith) (omega arith)
              (λ a. omega (arith, freed s id a pending k t refl le2, new_on a)))
    ]

pub approve_claim-IsTallied :
    (id : ℕ) (s s2 : State)
    → IsTallied s
    → is_pending (s.claims id).status ≡ true
    → approve_claim id s ≡ ok s2
    → IsTallied s2
unfolding set_claim set_tenant is_pending
approve_claim-IsTallied id s s2 tally pending h =
    let c = record (s.claims id) { status = ClaimStatus.approved } in
    let amount = (s.claims id).amount in
    let (low, high) = pending_used _ _ id (tally.3 id) pending in
    let (old_amount, old_one) = pending_values (s.claims id) pending in
    let (new_amount, new_one, new_on) = not_pending_values c refl in
    let some_pending = claim_sum_bound pending_one s.claims id s.agreement.claim_count low high in
    let there = tally.1 in
    elim (type_cases (s.claims id).claim_type) [
      | inl k ↦
          let (e, le) = approve_claim-shared id s s2 k h in
          let ag = record (s.agreement) {
            unresolved_claim_count = s.agreement.unresolved_claim_count - 1;
            total_open_claim_amount = s.agreement.total_open_claim_amount - amount;
            total_approved_claims = s.agreement.total_approved_claims + amount;
            shared_approved_claims = s.agreement.shared_approved_claims + amount;
          } in
          rw e (
            changed-IsTallied s id c tally low high ag s.tenants s.votes refl (omega arith)
              (omega arith) (λ a. omega (arith, pending_on-shared a (s.claims id) k, new_on a)))
      | inr k ↦
          let (e, le, le2) = approve_claim-individual id s s2 k h in
          let liable = (s.claims id).liable_tenant in
          let ag = record (s.agreement) {
            unresolved_claim_count = s.agreement.unresolved_claim_count - 1;
            total_open_claim_amount = s.agreement.total_open_claim_amount - amount;
            total_approved_claims = s.agreement.total_approved_claims + amount;
          } in
          let t = record (s.tenants liable) {
            open_individual_claim_amount = (s.tenants liable).open_individual_claim_amount - amount;
            approved_individual_claims = (s.tenants liable).approved_individual_claims + amount;
          } in
          rw e (
            changed-IsTallied s id c tally low high ag (put s.tenants liable t) s.votes refl
              (omega arith) (omega arith)
              (λ a. omega (arith, freed s id a pending k t refl le2, new_on a)))
    ]

pub counted-IsTallied :
    (id sender value yes_votes no_votes : ℕ) (s : State)
    → IsTallied s
    → is_pending (s.claims id).status ≡ true
    → IsTallied (counted id sender value yes_votes no_votes s)
unfolding set_claim pending_amount pending_one pending_on
counted-IsTallied id sender value yes_votes no_votes s tally pending =
    let c = record (s.claims id) { yes_votes = yes_votes; no_votes = no_votes } in
    let (low, high) = pending_used _ _ id (tally.3 id) pending in
    changed-IsTallied s id c tally low high s.agreement s.tenants
      (put s.votes id (put (s.votes id) sender value)) refl refl refl (λ a. refl)
