-- ===== src/Escrow/Votes/Kept.antt =====
-- The counts of votes of contracts/contracts/SharedDepositEscrow.sol where claims change otherwise.
use shared_deposit_monad.Escrow.Checked.{small_id}
use shared_deposit_monad.Base.{
  ℕ, suc, ◌+◌, ◌≤◌, ◌<◌, ◌≡◌, refl, inl, inr, false, if◌then◌else◌, ◌==◌, arith, Bool-cases, ==_iff,
}
use shared_deposit_monad.Escrow.Types.{
  Claim, ClaimType, shared, individual, ClaimStatus, is_pending, max_claims,
}
use shared_deposit_monad.Escrow.Storage.{State, Msg, ok, Done, put, set_tenant, set_claim}
use shared_deposit_monad.Escrow.Sums.{put_each}
use shared_deposit_monad.Escrow.Claims.{
  close_claim, approve_claim, reserve, open_claim, submit_claim,
}
use shared_deposit_monad.Escrow.Solvency.Claims.Ends.{
  type_cases, close_claim-shared, close_claim-individual, approve_claim-shared,
  approve_claim-individual,
}
use shared_deposit_monad.Escrow.Solvency.Claims.Calls.{
  submit_claim_ok, reserve-shared, reserve-individual,
}
use shared_deposit_monad.Escrow.Closing.{is_used}
use shared_deposit_monad.Escrow.Closing.Tally.{put_self, put_other}
use shared_deposit_monad.Escrow.Closing.Resolved.{close_claim-Ends, approve_claim-Ends}
use shared_deposit_monad.Escrow.Votes.{cast, is_decided, is_overdue, IsCast, IsPolled}

-- What most calls leave of the votes as it is.
abbrev pub KeepsVotes : State → State → Type 0
KeepsVotes s s2 =
    (s2.votes ≡ s.votes)
    × (s2.tenant_list ≡ s.tenant_list)
    × (s2.agreement.claim_count ≡ s.agreement.claim_count)
    × (s2.agreement.required_approvals ≡ s.agreement.required_approvals)
    × (s2.agreement.tenant_count ≡ s.agreement.tenant_count)

pub same-IsPolled :
    (s s2 : State) → IsPolled s → KeepsVotes s s2 → s2.claims ≡ s.claims → IsPolled s2
same-IsPolled s s2 polled (votes, tenant_list, count, required, number) claims =
    rw (votes, tenant_list, count, required, number, claims) polled

-- A claim that leaves PENDING keeps its votes; the others were not overdue.
pub ended-IsPolled :
    (id : ℕ) (status : ClaimStatus) (s s2 : State)
    → is_pending status ≡ false
    → IsCast s
    → ((x : ℕ) → (x == id) ≡ false → is_overdue s.agreement.tenant_count (s.claims x) ≡ false)
    → KeepsVotes s s2
    → s2.claims ≡ put s.claims id (record (s.claims id) { status = status })
    → IsPolled s2
ended-IsPolled id status s s2 ended
      (yes_counts, no_counts, unused, majority, size, some_tenant, few) undecided
      (votes, tenant_list, count, required, number) claims =
    let n = s.agreement.claim_count in
    let c = record (s.claims id) { status = status } in
    rw (votes, tenant_list, count, required, number, claims)
      (
        (
          put_each (λ x e. e.yes_votes ≡ cast 1 (s.votes x) s.tenant_list) s.claims id c
              (yes_counts id) yes_counts,
          put_each (λ x e. e.no_votes ≡ cast 2 (s.votes x) s.tenant_list) s.claims id c
              (no_counts id) no_counts,
          put_each (λ x e. (if is_used n x then 0 else e.yes_votes + e.no_votes) ≡ 0) s.claims id c
              (unused id) unused,
          majority,
          size,
          some_tenant,
          few,
        ),
        (λ x. elim (Bool-cases (x == id)) [
          | inl k ↦
              let same : x ≡ id = (==_iff x id).0 k in rw (same, put_self s.claims id c, ended) refl
          | inr k ↦ rw (put_other s.claims id c x k) (undecided x k)
        ]),
      )

pub close_claim-KeepsVotes :
    (status : ClaimStatus) (id : ℕ) (s s2 : State)
    → close_claim status id s ≡ ok s2
    → KeepsVotes s s2
unfolding set_claim set_tenant
close_claim-KeepsVotes status id s s2 h = elim (type_cases (s.claims id).claim_type) [
  | inl k ↦ rw ((close_claim-shared status id s s2 k h).0) (refl, refl, refl, refl, refl)
  | inr k ↦ rw ((close_claim-individual status id s s2 k h).0) (refl, refl, refl, refl, refl)
]

pub approve_claim-KeepsVotes :
    (id : ℕ) (s s2 : State) → approve_claim id s ≡ ok s2 → KeepsVotes s s2
unfolding set_claim set_tenant
approve_claim-KeepsVotes id s s2 h = elim (type_cases (s.claims id).claim_type) [
  | inl k ↦ rw ((approve_claim-shared id s s2 k h).0) (refl, refl, refl, refl, refl)
  | inr k ↦ rw ((approve_claim-individual id s s2 k h).0) (refl, refl, refl, refl, refl)
]

pub close_claim-IsPolled :
    (status : ClaimStatus) (id : ℕ) (s s2 : State)
    → is_pending status ≡ false
    → IsCast s
    → ((x : ℕ) → (x == id) ≡ false → is_overdue s.agreement.tenant_count (s.claims x) ≡ false)
    → close_claim status id s ≡ ok s2
    → IsPolled s2
close_claim-IsPolled status id s s2 ended casts undecided h =
    ended-IsPolled id status s s2 ended casts undecided (close_claim-KeepsVotes status id s s2 h)
      (close_claim-Ends status id s s2 h).3

pub approve_claim-IsPolled :
    (id : ℕ) (s s2 : State)
    → IsCast s
    → ((x : ℕ) → (x == id) ≡ false → is_overdue s.agreement.tenant_count (s.claims x) ≡ false)
    → approve_claim id s ≡ ok s2
    → IsPolled s2
unfolding is_pending
approve_claim-IsPolled id s s2 casts undecided h =
    ended-IsPolled id ClaimStatus.approved s s2 refl casts undecided
      (approve_claim-KeepsVotes id s s2 h) (approve_claim-Ends id s s2 h).3

-- A new claim has no votes.
fresh_undecided :
    (tenants : ℕ) (c : Claim)
    → 1 ≤ tenants
    → c.yes_votes + c.no_votes ≡ 0
    → is_decided tenants c ≡ false
fresh_undecided tenants c h k = ground arith

used_next :
    (n x m : ℕ) → (if is_used n x then 0 else m) ≡ 0 → (if is_used (suc n) x then 0 else m) ≡ 0
used_next n x m h = ground arith

next_unused : (n m : ℕ) → (if is_used n (suc n) then 0 else m) ≡ 0 → m ≡ 0
next_unused n m h = ground arith

reserve-KeepsVotes :
    (kind : ClaimType) (liable amount : ℕ) (s s2 : State)
    → reserve kind liable amount s ≡ ok s2
    → KeepsVotes s s2 × (s2.claims ≡ s.claims)
unfolding set_tenant
reserve-KeepsVotes shared liable amount s s2 h =
    rw (reserve-shared liable amount s s2 h) ((refl, refl, refl, refl, refl), refl)
reserve-KeepsVotes individual liable amount s s2 h =
    rw ((reserve-individual liable amount s s2 h).0) ((refl, refl, refl, refl, refl), refl)

open_claim-IsPolled :
    (kind : ClaimType) (liable amount reason evidence unresolved total : ℕ) (s : State)
    → IsPolled s
    → s.agreement.claim_count < max_claims
    → IsPolled (open_claim kind liable amount reason evidence unresolved total s)
unfolding open_claim set_claim is_pending
open_claim-IsPolled kind liable amount reason evidence unresolved total s
      ((yes_counts, no_counts, unused, majority, size, some_tenant, few), undecided) room =
    let n = s.agreement.claim_count in
    let next : n + 1 ≡ suc n = omega arith in
    let wrap = small_id n room in
    let c = record (s.claims (suc n)) {
      liable_tenant = liable;
      reason_hash = reason;
      evidence_hash = evidence;
      amount = amount;
      claim_type = kind;
      status = ClaimStatus.pending;
    } in
    let none_cast = next_unused n _ (unused (suc n)) in
    let blank = fresh_undecided s.agreement.tenant_count c some_tenant none_cast in
    rw (wrap, next)
      (
        (
          put_each (λ x e. e.yes_votes ≡ cast 1 (s.votes x) s.tenant_list) s.claims (suc n) c
              (yes_counts (suc n)) yes_counts,
          put_each (λ x e. e.no_votes ≡ cast 2 (s.votes x) s.tenant_list) s.claims (suc n) c
              (no_counts (suc n)) no_counts,
          put_each (λ x e. (if is_used (suc n) x then 0 else e.yes_votes + e.no_votes) ≡ 0) s.claims
              (suc n) c (used_next n (suc n) _ (unused (suc n))) (λ x. used_next n x _ (unused x)),
          majority,
          size,
          some_tenant,
          few,
        ),
        put_each (λ x e. is_overdue s.agreement.tenant_count e ≡ false) s.claims (suc n) c blank
            undecided,
      )

pub submit_claim-IsPolled :
    (msg : Msg) (kind : ClaimType) (liable amount reason evidence : ℕ) (s : State) (d : Done)
    → IsPolled s
    → submit_claim msg kind liable amount reason evidence s ≡ ok d
    → IsPolled d.state
submit_claim-IsPolled msg kind liable amount reason evidence s d polled h =
    let (active, room, count, sent, (s2, e, e2)) =
      submit_claim_ok msg kind liable amount reason evidence s d h in
    let (keeps, same) = reserve-KeepsVotes kind liable amount s s2 e in
    let count2 : s2.agreement.claim_count < max_claims = rw (keeps.2) count in
    rw e2 (
      open_claim-IsPolled kind liable amount reason evidence _ _ s2
        (same-IsPolled s s2 polled keeps same) count2)
