-- ===== src/Escrow/Solvency/Claims/Resolutions.antt =====
-- The accounting of contracts/contracts/SharedDepositEscrow.sol where a claim is approved or closed.
use shared_deposit_monad.Base.{ℕ, ◌+◌, ◌-◌, ◌≡◌, refl, inl, inr, true, false, arith}
use shared_deposit_monad.Escrow.Types.{Tenant, Claim, shared, individual, ClaimStatus, is_pending}
use shared_deposit_monad.Escrow.Storage.{State, ok, put, set_claim}
use shared_deposit_monad.Escrow.Sums.{put_all}
use shared_deposit_monad.Escrow.Claims.{close_claim, approve_claim}
use shared_deposit_monad.Escrow.Solvency.{IsAccounted, is_opened, is_stray}
use shared_deposit_monad.Escrow.Solvency.Claims.{KeepsOwed, moved-KeepsOwed, moved_tenant-KeepsOwed}
use shared_deposit_monad.Escrow.Solvency.Claims.Ends.{
  type_cases, close_claim-shared, close_claim-individual, approve_claim-shared,
  approve_claim-individual,
}

resolved_stray :
    (tenants : ℕ → Tenant) (c : Claim) → is_pending c.status ≡ false → is_stray tenants c ≡ false
unfolding is_stray
resolved_stray tenants c h = rw h refl

pub shared_stray :
    (tenants : ℕ → Tenant) (c : Claim) → c.claim_type ≡ shared → is_stray tenants c ≡ false
unfolding is_stray
shared_stray tenants c h = rw h (ground arith)

pub named_stray :
    (tenants : ℕ → Tenant) (c : Claim)
    → (tenants c.liable_tenant).exists ≡ true
    → is_stray tenants c ≡ false
unfolding is_stray
named_stray tenants c h = rw h (ground arith)

stray_exists :
    (tenants : ℕ → Tenant) (c : Claim)
    → is_pending c.status ≡ true
    → c.claim_type ≡ individual
    → is_stray tenants c ≡ false
    → (tenants c.liable_tenant).exists ≡ true
unfolding is_stray
stray_exists tenants c h k e = ground arith

pub close_claim-KeepsOwed :
    (status : ClaimStatus) (id : ℕ) (s s2 : State)
    → is_pending status ≡ false
    → IsAccounted s
    → is_opened s.agreement.status ≡ true
    → is_pending (s.claims id).status ≡ true
    → close_claim status id s ≡ ok s2
    → KeepsOwed s s2
unfolding set_claim
close_claim-KeepsOwed status id s s2 left kept opened pending h =
    let c = record (s.claims id) { status = status } in
    let strays =
      put_all (λ (x : Claim). is_stray s.tenants x ≡ false) s.claims id c
        (resolved_stray s.tenants c left) kept.1.3 in
    let ag = record (s.agreement) {
      unresolved_claim_count = s.agreement.unresolved_claim_count - 1;
      total_open_claim_amount = s.agreement.total_open_claim_amount - (s.claims id).amount;
    } in
    let all = kept.1.1 in
    elim (type_cases (s.claims id).claim_type) [
      | inl k ↦
          let (e, le) = close_claim-shared status id s s2 k h in
          rw e (
            moved-KeepsOwed ag (put s.claims id c) s.votes s kept opened (refl, refl, refl) kept.3.1
              (omega arith) refl strays)
      | inr k ↦
          let (e, le, le2) = close_claim-individual status id s s2 k h in
          let liable = (s.claims id).liable_tenant in
          let each = kept.1.0 liable in
          let t = record (s.tenants liable) {
            open_individual_claim_amount =
                (s.tenants liable).open_individual_claim_amount - (s.claims id).amount;
          } in
          rw e (
            moved_tenant-KeepsOwed ag (put s.claims id c) s.votes s liable t kept opened
              (refl, refl, refl) kept.3.1
              (stray_exists s.tenants (s.claims id) pending k (kept.1.3 id))
              (refl, refl, refl, refl) (kept.3.0 liable) (omega arith) (omega arith) refl strays)
    ]

pub approve_claim-KeepsOwed :
    (id : ℕ) (s s2 : State)
    → IsAccounted s
    → is_opened s.agreement.status ≡ true
    → is_pending (s.claims id).status ≡ true
    → approve_claim id s ≡ ok s2
    → KeepsOwed s s2
unfolding set_claim
approve_claim-KeepsOwed id s s2 kept opened pending h =
    let c = record (s.claims id) { status = ClaimStatus.approved } in
    let strays =
      put_all (λ (x : Claim). is_stray s.tenants x ≡ false) s.claims id c
        (resolved_stray s.tenants c (unfold is_pending in refl)) kept.1.3 in
    let all = kept.1.1 in
    let amount = (s.claims id).amount in
    elim (type_cases (s.claims id).claim_type) [
      | inl k ↦
          let (e, le) = approve_claim-shared id s s2 k h in
          let ag = record (s.agreement) {
            unresolved_claim_count = s.agreement.unresolved_claim_count - 1;
            total_open_claim_amount = s.agreement.total_open_claim_amount - amount;
            total_approved_claims = s.agreement.total_approved_claims + amount;
            shared_approved_claims = s.agreement.shared_approved_claims + amount;
          } in
          rw e (
            moved-KeepsOwed ag (put s.claims id c) s.votes s kept opened (refl, refl, refl) kept.3.1
              (omega arith) (omega arith) strays)
      | inr k ↦
          let (e, le, le2) = approve_claim-individual id s s2 k h in
          let liable = (s.claims id).liable_tenant in
          let each = kept.1.0 liable in
          let ag = record (s.agreement) {
            unresolved_claim_count = s.agreement.unresolved_claim_count - 1;
            total_open_claim_amount = s.agreement.total_open_claim_amount - amount;
            total_approved_claims = s.agreement.total_approved_claims + amount;
          } in
          let t = record (s.tenants liable) {
            open_individual_claim_amount = (s.tenants liable).open_individual_claim_amount - amount;
            approved_individual_claims = (s.tenants liable).approved_individual_claims + amount;
          } in
          rw e (
            moved_tenant-KeepsOwed ag (put s.claims id c) s.votes s liable t kept opened
              (refl, refl, refl) kept.3.1
              (stray_exists s.tenants (s.claims id) pending k (kept.1.3 id))
              (refl, refl, refl, refl) (kept.3.0 liable) (omega arith) (omega arith) (omega arith)
              strays)
    ]
