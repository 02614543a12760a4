-- ===== src/Escrow/Votes.antt =====
-- The votes of contracts/contracts/SharedDepositEscrow.sol: the recorded votes, their counts, and the
-- outcome that they have.
pub mod Counts
pub mod Kept
pub mod Outcome
pub mod Polls
pub mod Voted
pub mod Start
pub mod Reached
pub mod Rejected
pub mod Decided
use shared_deposit_monad.Base.{
  ℕ, ◌+◌, ◌*◌, ◌/◌, ◌≤◌, ◌≡◌, Bool, false, ◌&&◌, ◌||◌, List, [], ◌∷◌, if◌then◌else◌, leb, ltb, ◌==◌,
  length,
}
use shared_deposit_monad.Escrow.Types.{Claim, ClaimStatus, is_pending}
use shared_deposit_monad.Escrow.Storage.{State}
use shared_deposit_monad.Escrow.Closing.{is_used}

-- How many tenants have cast a vote of one kind.
unfoldable pub cast : (value : ℕ) → (ℕ → ℕ) → List ℕ → ℕ
cast value votes [] = 0
cast value votes (a ∷ l) = (if votes a == value then 1 else 0) + cast value votes l

-- The votes of more than half of the tenants approve a claim; those of half of them reject it, since an
-- approval is then out of reach.
unfoldable pub outcome : (tenants yes_votes no_votes : ℕ) → ClaimStatus
outcome tenants yes_votes no_votes =
    if ltb tenants (2 * yes_votes)
    then ClaimStatus.approved
    else (if leb tenants (2 * no_votes) then ClaimStatus.rejected else ClaimStatus.pending)

abbrev pub is_decided : ℕ → Claim → Bool
is_decided tenants c = ltb tenants (2 * c.yes_votes) || leb tenants (2 * c.no_votes)

-- The counts are those of the votes, and claims that do not exist have none.
abbrev pub IsCast : State → Type 0
IsCast s =
    ((id : ℕ) → (s.claims id).yes_votes ≡ cast 1 (s.votes id) s.tenant_list)
    × ((id : ℕ) → (s.claims id).no_votes ≡ cast 2 (s.votes id) s.tenant_list)
    × ((id : ℕ)
        → (if is_used s.agreement.claim_count id
            then 0
            else (s.claims id).yes_votes + (s.claims id).no_votes)
          ≡ 0)
    × (s.agreement.required_approvals ≡ s.agreement.tenant_count / 2 + 1)
    × (s.agreement.tenant_count ≡ length s.tenant_list)
    × (1 ≤ s.agreement.tenant_count)
    × (s.agreement.tenant_count ≤ 8)

abbrev pub is_overdue : ℕ → Claim → Bool
is_overdue tenants c = is_pending c.status && is_decided tenants c

-- And no pending claim is decided.
abbrev pub IsPolled : State → Type 0
IsPolled s = IsCast s × ((id : ℕ) → is_overdue s.agreement.tenant_count (s.claims id) ≡ false)
