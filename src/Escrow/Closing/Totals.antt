-- ===== src/Escrow/Closing/Totals.antt =====
-- The checked arithmetic that resolves a pending claim of contracts/contracts/SharedDepositEscrow.sol.
use shared_deposit_monad.Escrow.Checked.{sub_checked_lem, add_u128_lem}
use shared_deposit_monad.Base.{ℕ, ◌+◌, ◌-◌, ◌≤◌, ◌≡◌, refl, inl, inr, true, arith}
use shared_deposit_monad.Escrow.Types.{ClaimStatus, individual, is_pending}
use shared_deposit_monad.Escrow.Storage.{State, ok, set_tenant, set_claim}
use shared_deposit_monad.Escrow.Claims.{release_for, close_claim, approve_for, approve_claim}
use shared_deposit_monad.Escrow.Solvency.{IsAccounted}
use shared_deposit_monad.Escrow.Solvency.Claims.Ends.{type_cases, closed, approved}
use shared_deposit_monad.Escrow.Closing.{pending_amount, pending_one, pending_on, IsTallied}
use shared_deposit_monad.Escrow.Closing.Tally.{claim_sum_bound}
use shared_deposit_monad.Escrow.Closing.Pending.{pending_used, pending_values, pending_on-liable}

-- The reservations of a pending claim are there.
pending_room :
    (s : State) (id : ℕ)
    → IsTallied s
    → is_pending (s.claims id).status ≡ true
    → (1 ≤ s.agreement.unresolved_claim_count)
      × ((s.claims id).amount ≤ s.agreement.total_open_claim_amount)
      × ((s.claims id).claim_type ≡ individual
          → (s.claims id).amount
            ≤ (s.tenants (s.claims id).liable_tenant).open_individual_claim_amount)
pending_room s id tally pending =
    let n = s.agreement.claim_count in
    let c = s.claims id in
    let (low, high) = pending_used _ _ id (tally.3 id) pending in
    let (amount, one) = pending_values c pending in
    (
      omega (arith, tally.1, claim_sum_bound pending_one s.claims id n low high),
      omega (arith, tally.0, claim_sum_bound pending_amount s.claims id n low high),
      (λ k. omega (
        arith,
        tally.2 c.liable_tenant,
        pending_on-liable c pending k,
        claim_sum_bound (pending_on c.liable_tenant) s.claims id n low high,
      )),
    )

pub close_claim_total :
    (status : ClaimStatus) (id : ℕ) (s : State)
    → IsTallied s
    → is_pending (s.claims id).status ≡ true
    → (s2 : State) × (close_claim status id s ≡ ok s2)
unfolding close_claim release_for set_claim
close_claim_total status id s tally pending =
    let (some_pending, room, own) = pending_room s id tally pending in
    elim (type_cases (s.claims id).claim_type) [
      | inl k ↦ (
        closed status id s,
        rw (sub_checked_lem _ _ some_pending, sub_checked_lem _ _ room, k) refl,
      )
      | inr k ↦ (
        set_tenant (s.claims id).liable_tenant
            (record (s.tenants (s.claims id).liable_tenant) {
              open_individual_claim_amount =
                  (s.tenants (s.claims id).liable_tenant).open_individual_claim_amount
                  - (s.claims id).amount;
            })
            (closed status id s),
        rw
            (
              sub_checked_lem _ _ some_pending,
              sub_checked_lem _ _ room,
              k,
              sub_checked_lem _ _ (own k),
            )
            refl,
      )
    ]

pub approve_claim_total :
    (id : ℕ) (s : State)
    → IsAccounted s
    → IsTallied s
    → is_pending (s.claims id).status ≡ true
    → (s2 : State) × (approve_claim id s ≡ ok s2)
unfolding approve_claim approve_for set_claim
approve_claim_total id s
      (sound, (each, all, buckets, stray, none_each, none_all), (bound, bound2), unpaid) tally
      pending =
    let (some_pending, room, own) = pending_room s id tally pending in
    let amount = (s.claims id).amount in
    let t = s.tenants (s.claims id).liable_tenant in
    let total =
      add_u128_lem s.agreement.total_approved_claims amount (omega (arith, all, bound2)) in
    elim (type_cases (s.claims id).claim_type) [
      | inl k ↦
          let bucket =
            add_u128_lem s.agreement.shared_approved_claims amount
              (omega (arith, all, bound2, buckets)) in
          (
            approved id (s.agreement.shared_approved_claims + amount) s,
            rw (sub_checked_lem _ _ some_pending, sub_checked_lem _ _ room, total, k, bucket) refl,
          )
      | inr k ↦
          let fits = own k in
          let bucket =
            add_u128_lem t.approved_individual_claims amount (
              omega (arith, each (s.claims id).liable_tenant, bound (s.claims id).liable_tenant)) in
          (
            set_tenant (s.claims id).liable_tenant
                (record t {
                  open_individual_claim_amount = t.open_individual_claim_amount - amount;
                  approved_individual_claims = t.approved_individual_claims + amount;
                })
                (approved id s.agreement.shared_approved_claims s),
            rw
                (
                  sub_checked_lem _ _ some_pending,
                  sub_checked_lem _ _ room,
                  total,
                  k,
                  sub_checked_lem _ _ fits,
                  bucket,
                )
                refl,
          )
    ]
