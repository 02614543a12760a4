-- ===== src/Detail.antt =====
-- The agreement page: frontend/src/pages/AgreementDetail.tsx. Its state is direct contract reads; a read
-- that has not answered is `none`. Layout and prose are left out.
pub mod Shown
use shared_deposit_monad.Base.{
  ℕ, zero, suc, ◌+◌, Bool, true, false, not, ◌&&◌, ◌||◌, Option, none, some, List, [], ◌∷◌, ◌++◌,
  Text, txt, is_some, if◌then◌else◌, ◌==◌,
}
use shared_deposit_monad.Escrow.Types.{AgreementStatus, Tenant, Claim, ClaimType, ClaimStatus}
use shared_deposit_monad.Role.{AgreementRole}

-- `tenantRecords`: the wallets with what was read of each.
abbrev pub TenantEntry : Type 0
TenantEntry = Text × Option Tenant

unfoldable pub has_accepted : Option Tenant → Bool
has_accepted none = false
has_accepted (some t) = t.accepted

unfoldable pub is_funded : Option Tenant → Bool
is_funded none = false
is_funded (some t) = t.funded_amount == t.required_amount

unfoldable pub count_entries : (Option Tenant → Bool) → List TenantEntry → ℕ
count_entries test [] = 0
count_entries test ((wallet, t) ∷ entries) = (if test t then 1 else 0) + count_entries test entries

unfoldable pub accepted_count : List TenantEntry → ℕ
unfolding count_entries has_accepted
accepted_count entries = count_entries has_accepted entries

unfoldable pub funded_count : List TenantEntry → ℕ
unfolding count_entries is_funded
funded_count entries = count_entries is_funded entries

unfoldable pub role_label : AgreementRole → Text
unfolding txt
role_label role =
    if role.is_recipient
    then txt "Deposit recipient"
    else if role.is_tenant && role.is_creator
    then txt "Creator · tenant"
    else if role.is_tenant
    then txt "Tenant"
    else txt "Read-only"

-- The parts of the page where a wallet acts on an agreement that is being funded.
pub data Part : Type 0 where
  wallet_mismatch paused recipient_card creator_notice : Part
  tenant_acceptance tenant_funding tenant_withdraw read_only : Part

abbrev pub part_if : Bool → List Part → List Part
part_if b parts = if b then parts else []

unfoldable pub action_parts : AgreementRole → (network_ready : Bool) → List Part
action_parts role network_ready =
    part_if (not role.wallet_matches_session) (wallet_mismatch ∷ [])
    ++ (part_if (role.is_participant && not network_ready) (paused ∷ [])
        ++ (part_if role.is_recipient (recipient_card ∷ [])
            ++ (part_if role.is_tenant (
                  part_if role.is_creator (creator_notice ∷ [])
                  ++ tenant_acceptance ∷ tenant_funding ∷ tenant_withdraw ∷ [])
                ++ part_if (not role.is_participant) (read_only ∷ []))))

-- What stands under the participants.
pub data Panel : Type 0 where
  account_mismatch sign_in all_complete : Panel
  actions : List Part → Panel
  status_only : AgreementStatus → Panel

unfoldable pub status_panel : AgreementStatus → List Part → Panel
status_panel AgreementStatus.active parts = all_complete
status_panel AgreementStatus.funding parts = actions parts
status_panel status parts = status_only status

unfoldable pub participants_panel :
    (is_mismatch : Bool)
    → (auth_wallet address : Option Text) → (is_authenticated : Bool) → AgreementStatus
    → AgreementRole
    → (network_ready : Bool) → Panel
unfolding status_panel action_parts
participants_panel is_mismatch auth_wallet address is_authenticated status role network_ready =
    if is_mismatch && (is_some auth_wallet && is_some address)
    then account_mismatch
    else if not is_authenticated
    then sign_in
    else status_panel status (action_parts role network_ready)

-- `readAccepted` and `readFunded`: fresh reads for the wallet that is connected.
unfoldable pub read_accepted :
    (is_recipient : Bool)
    → (recipient_accepted : Bool) → (me : Option Text) → (Text → Tenant)
    → Bool
read_accepted true recipient_accepted me read = recipient_accepted
read_accepted false recipient_accepted none read = false
read_accepted false recipient_accepted (some wallet) read = (read wallet).accepted

unfoldable pub read_funded : (me : Option Text) → (Text → Tenant) → ℕ
read_funded none read = 0
read_funded (some wallet) read = (read wallet).funded_amount

-- The reads of the claims from ID `id` on, for `n` of them.
unfoldable pub claim_reads : (ℕ → Option Claim) → (id n : ℕ) → List (Option Claim)
claim_reads read id zero = []
claim_reads read id (suc n) = read id ∷ claim_reads read (suc id) n

-- The claims that were read, with their IDs.
unfoldable pub claim_rows : (id : ℕ) → List (Option Claim) → List (ℕ × Claim)
claim_rows id [] = []
claim_rows id (none ∷ reads) = claim_rows (suc id) reads
claim_rows id (some c ∷ reads) = (id, c) ∷ claim_rows (suc id) reads

unfoldable pub claim_status_label : ClaimStatus → Text
unfolding txt
claim_status_label ClaimStatus.none = txt "-"
claim_status_label ClaimStatus.pending = txt "Voting open"
claim_status_label ClaimStatus.approved = txt "Approved"
claim_status_label ClaimStatus.rejected = txt "Rejected"
claim_status_label ClaimStatus.withdrawn = txt "Withdrawn"

unfoldable pub claim_type_label : ClaimType → Text
unfolding txt
claim_type_label ClaimType.shared = txt "Shared deduction"
claim_type_label ClaimType.individual = txt "Individual deduction"
