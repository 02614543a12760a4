-- ===== src/Escrow/Solvency/Claims/Ends.antt =====
-- What the resolution of a claim of contracts/contracts/SharedDepositEscrow.sol has checked and done.
use shared_deposit_monad.Base.{ℕ, ◌+◌, ◌-◌, ◌≤◌, ◌≡◌, refl, ◌⊎◌, inl, inr, arith}
use shared_deposit_monad.Escrow.Types.{ClaimType, shared, individual, ClaimStatus}
use shared_deposit_monad.Escrow.Storage.{State, ok, set_tenant, set_claim}
use shared_deposit_monad.Escrow.Claims.{close_claim, approve_claim}

pub type_cases : (k : ClaimType) → (k ≡ shared) ⊎ (k ≡ individual)
type_cases shared = inl refl
type_cases individual = inr refl

-- The agreement and the claim once the claim has left PENDING.
abbrev pub closed : ClaimStatus → ℕ → State → State
closed status id s =
    set_claim id (record (s.claims id) { status = status })
      (record s {
        agreement = record (s.agreement) {
          unresolved_claim_count = s.agreement.unresolved_claim_count - 1;
          total_open_claim_amount = s.agreement.total_open_claim_amount - (s.claims id).amount;
        };
      })

pub close_claim-shared :
    (status : ClaimStatus) (id : ℕ) (s s2 : State)
    → (s.claims id).claim_type ≡ shared
    → close_claim status id s ≡ ok s2
    → (s2 ≡ closed status id s) × ((s.claims id).amount ≤ s.agreement.total_open_claim_amount)
unfolding close_claim
close_claim-shared status id s s2 kind h = ground arith

pub close_claim-individual :
    (status : ClaimStatus) (id : ℕ) (s s2 : State)
    → (s.claims id).claim_type ≡ individual
    → close_claim status id s ≡ ok s2
    → (s2
        ≡ set_tenant
            (s.claims id).liable_tenant
            (record (s.tenants (s.claims id).liable_tenant) {
              open_individual_claim_amount =
                  (s.tenants (s.claims id).liable_tenant).open_individual_claim_amount
                  - (s.claims id).amount;
            })
            (closed status id s))
      × ((s.claims id).amount ≤ s.agreement.total_open_claim_amount)
      × ((s.claims id).amount ≤ (s.tenants (s.claims id).liable_tenant).open_individual_claim_amount
          )
unfolding close_claim set_claim
close_claim-individual status id s s2 kind h = ground arith

-- The agreement and the claim once the claim is approved, the bucket aside.
abbrev pub approved : ℕ → (buckets : ℕ) → State → State
approved id buckets s =
    set_claim id (record (s.claims id) { status = ClaimStatus.approved })
      (record s {
        agreement = record (s.agreement) {
          unresolved_claim_count = s.agreement.unresolved_claim_count - 1;
          total_open_claim_amount = s.agreement.total_open_claim_amount - (s.claims id).amount;
          total_approved_claims = s.agreement.total_approved_claims + (s.claims id).amount;
          shared_approved_claims = buckets;
        };
      })

pub approve_claim-shared :
    (id : ℕ) (s s2 : State)
    → (s.claims id).claim_type ≡ shared
    → approve_claim id s ≡ ok s2
    → (s2 ≡ approved id (s.agreement.shared_approved_claims + (s.claims id).amount) s)
      × ((s.claims id).amount ≤ s.agreement.total_open_claim_amount)
unfolding approve_claim set_claim
approve_claim-shared id s s2 kind h = ground arith

pub approve_claim-individual :
    (id : ℕ) (s s2 : State)
    → (s.claims id).claim_type ≡ individual
    → approve_claim id s ≡ ok s2
    → (s2
        ≡ set_tenant
            (s.claims id).liable_tenant
            (record (s.tenants (s.claims id).liable_tenant) {
              open_individual_claim_amount =
                  (s.tenants (s.claims id).liable_tenant).open_individual_claim_amount
                  - (s.claims id).amount;
              approved_individual_claims =
                  (s.tenants (s.claims id).liable_tenant).approved_individual_claims
                  + (s.claims id).amount;
            })
            (approved id s.agreement.shared_approved_claims s))
      × ((s.claims id).amount ≤ s.agreement.total_open_claim_amount)
      × ((s.claims id).amount ≤ (s.tenants (s.claims id).liable_tenant).open_individual_claim_amount
          )
unfolding approve_claim set_claim
approve_claim-individual id s s2 kind h = ground arith
