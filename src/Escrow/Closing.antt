-- ===== src/Escrow/Closing.antt =====
-- The end of an agreement of contracts/contracts/SharedDepositEscrow.sol: the counters are those of the
-- pending claims, and the calls that finalize the claims and then the agreement.
pub mod Tally
pub mod Pending
pub mod Kept
pub mod Opened
pub mod Calls
pub mod Totals
pub mod Resolved
pub mod Finalized
use shared_deposit_monad.Base.{
  ℕ, zero, suc, ◌+◌, ◌≤◌, ◌≡◌, Bool, false, ◌&&◌, not, List, [], ◌∷◌, if◌then◌else◌, leb, ◌==◌,
}
use shared_deposit_monad.Escrow.Types.{Claim, is_pending, is_individual, max_claims}
use shared_deposit_monad.Escrow.Storage.{State, Msg}
use shared_deposit_monad.Escrow.Solvency.{EscrowCall, finalizing, finalizing_claim}

-- A sum over the claims with IDs from 1 on.
unfoldable pub claim_sum : (Claim → ℕ) → (ℕ → Claim) → ℕ → ℕ
claim_sum f claims zero = 0
claim_sum f claims (suc n) = f (claims (suc n)) + claim_sum f claims n

-- What a claim adds to the open amount, to the unresolved ones, and to the reservation of a tenant.
unfoldable pub pending_amount : Claim → ℕ
pending_amount c = if is_pending c.status then c.amount else 0

unfoldable pub pending_one : Claim → ℕ
pending_one c = if is_pending c.status then 1 else 0

unfoldable pub pending_on : ℕ → Claim → ℕ
pending_on a c =
    if is_pending c.status && (is_individual c.claim_type && c.liable_tenant == a)
    then c.amount
    else 0

-- The ID of a claim that was submitted.
abbrev pub is_used : ℕ → ℕ → Bool
is_used count id = leb 1 id && leb id count

-- The counters of the agreement and of its tenants are those of the pending claims.
abbrev pub IsTallied : State → Type 0
IsTallied s =
    (s.agreement.total_open_claim_amount
      ≡ claim_sum pending_amount s.claims s.agreement.claim_count)
    × (s.agreement.unresolved_claim_count ≡ claim_sum pending_one s.claims s.agreement.claim_count)
    × ((a : ℕ)
        → (s.tenants a).open_individual_claim_amount
          ≡ claim_sum (pending_on a) s.claims s.agreement.claim_count)
    × ((id : ℕ)
        → (is_pending (s.claims id).status && not (is_used s.agreement.claim_count id)) ≡ false)
    × (s.agreement.claim_count ≤ max_claims)

-- The claims up to an ID are finalized, the last one first, and then the agreement.
unfoldable pub closing : Msg → ℕ → List (EscrowCall × Msg)
closing msg zero = (finalizing, msg) ∷ []
closing msg (suc n) = (finalizing_claim (suc n), msg) ∷ closing msg n
