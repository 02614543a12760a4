-- ===== src/Escrow/Closing/Pending.antt =====
-- What a pending claim of contracts/contracts/SharedDepositEscrow.sol adds to the counters.
use shared_deposit_monad.Base.{
  ℕ, ◌+◌, ◌≤◌, ◌≡◌, refl, ◌∙◌, inl, inr, Bool, true, false, ◌&&◌, not, ◌==◌, arith, Bool-cases,
  ==_iff,
}
use shared_deposit_monad.Escrow.Types.{
  Agreement, Tenant, Claim, shared, individual, is_pending, is_individual,
}
use shared_deposit_monad.Escrow.Storage.{State, put, set_tenant}
use shared_deposit_monad.Escrow.Sums.{put_keeps}
use shared_deposit_monad.Escrow.Funding.{
  check_and_activate, with_status, all_tenants_accepted_and_funded,
}
use shared_deposit_monad.Escrow.Closing.{
  pending_amount, pending_one, pending_on, is_used, IsTallied,
}
use shared_deposit_monad.Escrow.Closing.Tally.{put_self, put_other, claim_sum-put}

-- A tenant whose reservation stays as it is.
pub set_tenant-IsTallied :
    (s : State) (a : ℕ) (t : Tenant)
    → t.open_individual_claim_amount ≡ (s.tenants a).open_individual_claim_amount
    → IsTallied s
    → IsTallied (set_tenant a t s)
unfolding set_tenant
set_tenant-IsTallied s a t same (total, unresolved, each, used, count) = (
  total,
  unresolved,
  (λ x. put_keeps (λ (u : Tenant). u.open_individual_claim_amount) s.tenants a t same x ∙ each x),
  used,
  count,
)

pub check_and_activate-IsTallied : (s : State) → IsTallied s → IsTallied (check_and_activate s)
unfolding check_and_activate with_status
check_and_activate-IsTallied s h =
    elim (Bool-cases (s.agreement.recipient_accepted && all_tenants_accepted_and_funded s)) [
      | inl k ↦ rw k h
      | inr k ↦ rw k h
    ]

pub pending_used :
    (status : Bool) (count id : ℕ)
    → (status && not (is_used count id)) ≡ false
    → status ≡ true
    → (1 ≤ id) × (id ≤ count)
pending_used status count id h k = ground arith

pub not_pending_values :
    (c : Claim)
    → is_pending c.status ≡ false
    → (pending_amount c ≡ 0) × (pending_one c ≡ 0) × ((a : ℕ) → pending_on a c ≡ 0)
unfolding pending_amount pending_one pending_on
not_pending_values c h = (rw h refl, rw h refl, (λ a. rw h refl))

pub pending_values :
    (c : Claim) → is_pending c.status ≡ true → (pending_amount c ≡ c.amount) × (pending_one c ≡ 1)
unfolding pending_amount pending_one
pending_values c h = (rw h refl, rw h refl)

pub pending_on-shared : (a : ℕ) (c : Claim) → c.claim_type ≡ shared → pending_on a c ≡ 0
unfolding pending_on is_individual
pending_on-shared a c h = ground arith

pub pending_on-liable :
    (c : Claim)
    → is_pending c.status ≡ true
    → c.claim_type ≡ individual
    → pending_on c.liable_tenant c ≡ c.amount
unfolding pending_on is_individual
pending_on-liable c h k = ground (arith, ==_iff c.liable_tenant c.liable_tenant)

pub pending_on-other : (a : ℕ) (c : Claim) → (a == c.liable_tenant) ≡ false → pending_on a c ≡ 0
unfolding pending_on
pending_on-other a c h = ground (arith, ==_iff a c.liable_tenant, ==_iff c.liable_tenant a)

-- A used claim changes and so do the counters.
module _ (s : State) (id : ℕ) (c : Claim) (tally : IsTallied s) (low : 1 ≤ id)
    (high : id ≤ s.agreement.claim_count) where
  still_used : (is_pending c.status && not (is_used s.agreement.claim_count id)) ≡ false
  still_used = ground arith

  used_put :
      (x : ℕ)
      → (is_pending (put s.claims id c x).status && not (is_used s.agreement.claim_count x)) ≡ false
  used_put x = elim (Bool-cases (x == id)) [
    | inl e ↦ let same : x ≡ id = (==_iff x id).0 e in rw (same, put_self s.claims id c) still_used
    | inr e ↦ rw (put_other s.claims id c x e) (tally.3 x)
  ]

  pub changed-IsTallied :
      (ag : Agreement) (tenants : ℕ → Tenant) (votes : ℕ → ℕ → ℕ)
      → ag.claim_count ≡ s.agreement.claim_count
      → ag.total_open_claim_amount + pending_amount (s.claims id)
        ≡ s.agreement.total_open_claim_amount + pending_amount c
      → ag.unresolved_claim_count + pending_one (s.claims id)
        ≡ s.agreement.unresolved_claim_count + pending_one c
      → ((a : ℕ)
          → (tenants a).open_individual_claim_amount + pending_on a (s.claims id)
            ≡ (s.tenants a).open_individual_claim_amount + pending_on a c)
      → IsTallied (record s {
        agreement = ag;
        tenants = tenants;
        claims = put s.claims id c;
        votes = votes;
      })
  changed-IsTallied ag tenants votes count total unresolved each =
      let n = s.agreement.claim_count in
      let sum_total = claim_sum-put pending_amount s.claims id c n low high in
      let sum_one = claim_sum-put pending_one s.claims id c n low high in
      rw count (
        omega (arith, tally.0),
        omega (arith, tally.1),
        (λ a.
            omega
              (arith, claim_sum-put (pending_on a) s.claims id c n low high, tally.2 a, each a)),
        used_put,
        tally.4,
      )
