-- ===== src/Detail/Shown.antt =====
-- What frontend/src/pages/AgreementDetail.tsx shows of an agreement, against the contract.
use shared_deposit_monad.Base.{
  ℕ, zero, suc, ◌+◌, ◌≤◌, ◌<◌, ◌≡◌, ◌↔◌, refl, sym, ◌∙◌, ap, Bool, true, ◌&&◌, Option, some, List,
  [], ◌∷◌, Text, txt, text_eq, if◌then◌else◌, ◌==◌, length, arith, All,
}
use shared_deposit_monad.Escrow.Types.{Tenant, Claim, ClaimStatus, is_pending}
use shared_deposit_monad.Escrow.Storage.{State, Msg, ok, u128}
use shared_deposit_monad.Escrow.Creation.{Terms, create_agreement}
use shared_deposit_monad.Escrow.Funding.{all_ready, all_tenants_accepted_and_funded}
use shared_deposit_monad.Escrow.Solvency.{EscrowCall, run_ledger}
use shared_deposit_monad.Escrow.Closing.{claim_sum, pending_one}
use shared_deposit_monad.Escrow.Votes.Reached.{created-IsPolled}
use shared_deposit_monad.Detail.{
  TenantEntry, has_accepted, is_funded, count_entries, accepted_count, funded_count, claim_reads,
  claim_rows, claim_status_label,
}

-- The entries once every tenant is read.
abbrev pub entries_of : (ℕ → Text) → (ℕ → Tenant) → List ℕ → List TenantEntry
entries_of show tenants [] = []
entries_of show tenants (a ∷ l) = (show a, some (tenants a)) ∷ entries_of show tenants l

count_bound :
    (test : Option Tenant → Bool) (entries : List TenantEntry)
    → count_entries test entries ≤ length entries
unfolding count_entries
count_bound test [] = omega arith
count_bound test ((wallet, t) ∷ entries) = let rest = count_bound test entries in ground arith

length-entries :
    (show : ℕ → Text) (tenants : ℕ → Tenant) (l : List ℕ)
    → length (entries_of show tenants l) ≡ length l
length-entries show tenants [] = refl
length-entries show tenants (a ∷ l) = omega (arith, length-entries show tenants l)

-- One more entry is full in both counts, or not.
step_iff :
    (accepted funded ready : Bool) (p q n : ℕ)
    → (ready ≡ true) ↔ ((p ≡ n) × (q ≡ n))
    → p ≤ n
    → q ≤ n
    → ((accepted && (funded && ready)) ≡ true)
      ↔ (((if accepted then 1 else 0) + p ≡ suc n) × ((if funded then 1 else 0) + q ≡ suc n))
step_iff accepted funded ready p q n rest bound bound2 = ground (arith, rest)

all_ready_counts :
    (show : ℕ → Text) (tenants : ℕ → Tenant) (l : List ℕ)
    → (all_ready tenants l ≡ true) ↔ (
        (count_entries has_accepted (entries_of show tenants l) ≡ length l)
        × (count_entries is_funded (entries_of show tenants l) ≡ length l))
unfolding all_ready count_entries has_accepted is_funded
all_ready_counts show tenants [] = (λ h. (refl, refl), λ h. refl)
all_ready_counts show tenants (a ∷ l) =
    let rest = all_ready_counts show tenants l in
    let size = length-entries show tenants l in
    let bound = count_bound has_accepted (entries_of show tenants l) in
    let bound2 = count_bound is_funded (entries_of show tenants l) in
    step_iff (tenants a).accepted ((tenants a).funded_amount == (tenants a).required_amount)
      (all_ready tenants l) _ _ (length l) rest (omega (arith, size, bound))
      (omega (arith, size, bound2))

-- With every tenant read, the page shows the recipient's acceptance, as many acceptances as tenants and
-- as many funded tenants as tenants exactly when the contract finds the agreement complete.
pub complete_iff :
    (show : ℕ → Text) (s : State)
    → (all_tenants_accepted_and_funded s ≡ true) ↔ (
        (s.agreement.recipient_accepted ≡ true)
        × (accepted_count (entries_of show s.tenants s.tenant_list) ≡ length s.tenant_list)
        × (funded_count (entries_of show s.tenants s.tenant_list) ≡ length s.tenant_list))
unfolding all_tenants_accepted_and_funded accepted_count funded_count
complete_iff show s =
    let each = all_ready_counts show s.tenants s.tenant_list in ground (arith, each)

-- The rows that are labelled as open for votes.
unfoldable pub open_rows : List (ℕ × Claim) → ℕ
open_rows [] = 0
open_rows ((id, c) ∷ rows) =
    (if text_eq (claim_status_label c.status) (txt "Voting open") then 1 else 0) + open_rows rows

abbrev pub sum_from : (ℕ → Claim) → ℕ → ℕ → ℕ
sum_from claims id zero = 0
sum_from claims id (suc n) = pending_one (claims id) + sum_from claims (suc id) n

label_lem :
    (c : Claim)
    → (if text_eq (claim_status_label c.status) (txt "Voting open") then 1 else 0) ≡ pending_one c
unfolding claim_status_label text_eq pending_one is_pending txt
label_lem c = go c.status
  where
    go :
        (x : ClaimStatus)
        → ◌≡◌ {A = ℕ}
            (if text_eq (claim_status_label x) (txt "Voting open") then 1 else 0)
            (if is_pending x then 1 else 0)
    go ClaimStatus.none = refl
    go ClaimStatus.pending = refl
    go ClaimStatus.approved = refl
    go ClaimStatus.rejected = refl
    go ClaimStatus.withdrawn = refl

open_rows_lem :
    (claims : ℕ → Claim) (id n : ℕ)
    → open_rows (claim_rows id (claim_reads (λ x. some (claims x)) id n)) ≡ sum_from claims id n
unfolding open_rows claim_rows claim_reads
open_rows_lem claims id zero = refl
open_rows_lem claims id (suc n) =
    omega (arith, label_lem (claims id), open_rows_lem claims (suc id) n)

sum_from_last :
    (claims : ℕ → Claim) (id n : ℕ)
    → sum_from claims id (suc n) ≡ sum_from claims id n + pending_one (claims (id + n))
sum_from_last claims id zero = let e : id + 0 ≡ id = omega arith in rw e (omega arith)
sum_from_last claims id (suc n) =
    let e : id + suc n ≡ suc id + n = omega arith in
    rw e (omega (arith, sum_from_last claims (suc id) n))

claim_sum-from : (claims : ℕ → Claim) (n : ℕ) → sum_from claims 1 n ≡ claim_sum pending_one claims n
unfolding claim_sum
claim_sum-from claims zero = refl
claim_sum-from claims (suc n) =
    let e : 1 + n ≡ suc n = omega arith in
    let same = ap (λ x. pending_one (claims x)) e in
    omega (arith, same, sum_from_last claims 1 n, claim_sum-from claims n)

-- From the creation of an agreement on, with amounts that fit a uint128, and after any calls, the page
-- labels as open for votes exactly as many claims as the unresolved claims that it shows, once every
-- claim is read.
pub created-open_rows :
    (msg : Msg) (t : Terms) (s : State) (cs : List (EscrowCall × Msg))
    → All (λ n. n < u128) t.required_amounts
    → create_agreement msg t ≡ ok s
    → open_rows (
        claim_rows 1 (
          claim_reads
            (λ id. some ((run_ledger cs (s, 0)).0.claims id))
            1
            (run_ledger cs (s, 0)).0.agreement.claim_count))
      ≡ (run_ledger cs (s, 0)).0.agreement.unresolved_claim_count
created-open_rows msg t s cs small h =
    let (kept, tally, polled) = created-IsPolled msg t s cs small h in
    let x = (run_ledger cs (s, 0)).0 in
    open_rows_lem x.claims 1 x.agreement.claim_count
    ∙ (claim_sum-from x.claims x.agreement.claim_count ∙ sym tally.1)
