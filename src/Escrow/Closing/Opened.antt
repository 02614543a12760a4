-- ===== src/Escrow/Closing/Opened.antt =====
-- The counters of the claims of contracts/contracts/SharedDepositEscrow.sol where a claim is submitted.
use shared_deposit_monad.Escrow.Checked.{small_id}
use shared_deposit_monad.Base.{
  ℕ, suc, ◌+◌, ◌%◌, ◌^◌, ◌≤◌, ◌≡◌, refl, ap, inl, inr, true, false, ◌&&◌, not, ◌==◌, arith,
  Bool-cases, ==_iff,
}
use shared_deposit_monad.Escrow.Types.{
  Agreement, Tenant, Claim, ClaimType, ClaimStatus, individual, is_pending, max_claims,
}
use shared_deposit_monad.Escrow.Storage.{State, Msg, ok, Done, put, set_tenant, set_claim}
use shared_deposit_monad.Escrow.Claims.{open_claim, submit_claim}
use shared_deposit_monad.Escrow.Solvency.Claims.Ends.{type_cases}
use shared_deposit_monad.Escrow.Solvency.Claims.Calls.{
  submit_claim_ok, reserve-shared, reserve-individual,
}
use shared_deposit_monad.Escrow.Closing.{
  claim_sum, pending_amount, pending_one, pending_on, is_used, IsTallied,
}
use shared_deposit_monad.Escrow.Closing.Tally.{put_self, put_other, claim_sum-put_beyond}
use shared_deposit_monad.Escrow.Closing.Pending.{
  pending_values, pending_on-shared, pending_on-liable, pending_on-other,
}

claim_sum-put_next :
    (f : Claim → ℕ) (claims : ℕ → Claim) (c : Claim) (n : ℕ)
    → claim_sum f (put claims (suc n) c) (suc n) ≡ f c + claim_sum f claims n
unfolding claim_sum
claim_sum-put_next f claims c n =
    let own = ap f (put_self claims (suc n) c) in
    omega (arith, own, claim_sum-put_beyond f claims (suc n) c n (omega arith))

-- The claim with the next ID joins the counters.
module _ (s : State) (c : Claim) (tally : IsTallied s) where
  used_next :
      (x : ℕ)
      → (is_pending (put s.claims (suc s.agreement.claim_count) c x).status
          && not (is_used (suc s.agreement.claim_count) x))
        ≡ false
  used_next x =
      let n = s.agreement.claim_count in
      elim (Bool-cases (x == suc n)) [
        | inl e ↦
            let same : x ≡ suc n = (==_iff x (suc n)).0 e in
            rw (same, put_self s.claims (suc n) c) (ground arith)
        | inr e ↦ let old = tally.3 x in rw (put_other s.claims (suc n) c x e) (ground arith)
      ]

  opened-IsTallied :
      (id : ℕ) (ag : Agreement) (tenants : ℕ → Tenant)
      → id ≡ suc s.agreement.claim_count
      → ag.claim_count ≡ suc s.agreement.claim_count
      → ag.claim_count ≤ max_claims
      → ag.total_open_claim_amount ≡ s.agreement.total_open_claim_amount + pending_amount c
      → ag.unresolved_claim_count ≡ s.agreement.unresolved_claim_count + pending_one c
      → ((a : ℕ)
          → (tenants a).open_individual_claim_amount
            ≡ (s.tenants a).open_individual_claim_amount + pending_on a c)
      → IsTallied (record s { agreement = ag; tenants = tenants; claims = put s.claims id c })
  opened-IsTallied id ag tenants next count room total unresolved each =
      let n = s.agreement.claim_count in
      rw (next, count)
        (
          omega (arith, tally.0, claim_sum-put_next pending_amount s.claims c n),
          omega (arith, tally.1, claim_sum-put_next pending_one s.claims c n),
          (λ a. omega (arith, claim_sum-put_next (pending_on a) s.claims c n, tally.2 a, each a)),
          used_next,
          omega (arith, room, count),
        )

-- What a new claim reserves, tenant by tenant.
taken :
    (s : State) (a : ℕ) (c : Claim) (t : Tenant)
    → is_pending c.status ≡ true
    → c.claim_type ≡ individual
    → t.open_individual_claim_amount
      ≡ (s.tenants c.liable_tenant).open_individual_claim_amount + c.amount
    → (put s.tenants c.liable_tenant t a).open_individual_claim_amount
      ≡ (s.tenants a).open_individual_claim_amount + pending_on a c
taken s a c t pending kind e = elim (Bool-cases (a == c.liable_tenant)) [
  | inl k ↦
      let same : a ≡ c.liable_tenant = (==_iff a c.liable_tenant).0 k in
      rw (same, put_self s.tenants c.liable_tenant t, pending_on-liable c pending kind) e
  | inr k ↦ rw (put_other s.tenants c.liable_tenant t a k, pending_on-other a c k) (omega arith)
]

pub submit_claim-IsTallied :
    (msg : Msg) (kind : ClaimType) (liable amount reason evidence : ℕ) (s : State) (d : Done)
    → IsTallied s
    → submit_claim msg kind liable amount reason evidence s ≡ ok d
    → IsTallied d.state
unfolding open_claim set_claim set_tenant is_pending
submit_claim-IsTallied msg kind liable amount reason evidence s d tally h =
    let (active, room, count, sent, (s2, e, e2)) =
      submit_claim_ok msg kind liable amount reason evidence s d h in
    let n = s.agreement.claim_count in
    let wrap = small_id n count in
    let next : n + 1 ≡ suc n = omega arith in
    let ag = record (s.agreement) {
      claim_count = (n + 1) % 2 ^ 32;
      unresolved_claim_count = s.agreement.unresolved_claim_count + 1;
      total_open_claim_amount = s.agreement.total_open_claim_amount + amount;
    } in
    let c = record (s.claims (n + 1)) {
      liable_tenant = liable;
      reason_hash = reason;
      evidence_hash = evidence;
      amount = amount;
      claim_type = kind;
      status = ClaimStatus.pending;
    } in
    let (new_amount, new_one) = pending_values c refl in
    elim (type_cases kind) [
      | inl k ↦
          let same = reserve-shared liable amount s s2 (rw k at e) in
          let tallied =
            opened-IsTallied s c tally (n + 1) ag s.tenants next wrap (omega arith) (omega arith)
              (omega arith) (λ a. omega (arith, pending_on-shared a c k)) in
          rw (e2, same) tallied
      | inr k ↦
          let (same, there, fits) = reserve-individual liable amount s s2 (rw k at e) in
          let t = record (s.tenants liable) {
            open_individual_claim_amount = (s.tenants liable).open_individual_claim_amount + amount;
          } in
          let tallied =
            opened-IsTallied s c tally (n + 1) ag (put s.tenants liable t) next wrap (omega arith)
              (omega arith) (omega arith) (λ a. taken s a c t refl k refl) in
          rw (e2, same) tallied
    ]
