-- ===== src/Escrow/Solvency/Payouts/Refunds.antt =====
-- `_computeSettlement` of contracts/contracts/SharedDepositEscrow.sol on the storage.
use shared_deposit_monad.Escrow.Checked.{sub_checked_lem, add_u128_lem}
use shared_deposit_monad.Base.{
  ℕ, ◌+◌, ◌-◌, ◌%◌, ◌≤◌, ◌<◌, ◌≡◌, refl, ap, ◌∙◌, false, List, [], ◌∷◌, ◌==◌, any, length, arith,
  ==_iff, All, if_true, if_false,
}
use shared_deposit_monad.Escrow.Types.{Tenant}
use shared_deposit_monad.Escrow.Storage.{State, ok, put, u128}
use shared_deposit_monad.Escrow.Settlement.{sum, Share, refunds}
use shared_deposit_monad.Escrow.Settlement.Exact.{settle_exact, refunds-IsSplit}
use shared_deposit_monad.Escrow.Settlement.Exact.Rounds.{remainings, IsCapped, IsSplit}
use shared_deposit_monad.Escrow.Finalization.{remaining_deposits, store_refunds, compute_settlement}
use shared_deposit_monad.Escrow.Sums.{tenant_sum, IsDistinct, put_keeps}

-- What remains of each deposit.
unfoldable pub rests : (ℕ → Tenant) → List ℕ → List ℕ
rests tenants [] = []
rests tenants (a ∷ l) =
    ((tenants a).funded_amount - (tenants a).approved_individual_claims) ∷ rests tenants l

remaining_deposits_lem :
    (tenants : ℕ → Tenant) (l : List ℕ)
    → ((a : ℕ) → (tenants a).approved_individual_claims ≤ (tenants a).funded_amount)
    → remaining_deposits tenants l ≡ ok (rests tenants l)
unfolding remaining_deposits rests
remaining_deposits_lem tenants [] h = refl
remaining_deposits_lem tenants (a ∷ l) h =
    rw (sub_checked_lem _ _ (h a), remaining_deposits_lem tenants l h) refl

rests-sum :
    (tenants : ℕ → Tenant) (l : List ℕ)
    → ((a : ℕ) → (tenants a).approved_individual_claims ≤ (tenants a).funded_amount)
    → sum (rests tenants l) + tenant_sum (λ t. t.approved_individual_claims) tenants l
      ≡ tenant_sum (λ t. t.funded_amount) tenants l
unfolding rests sum tenant_sum
rests-sum tenants [] h = refl
rests-sum tenants (a ∷ l) h = omega (arith, h a, rests-sum tenants l h)

rests_small :
    (tenants : ℕ → Tenant) (l : List ℕ)
    → ((a : ℕ) → (tenants a).funded_amount < u128)
    → All (λ n. n < u128) (rests tenants l)
unfolding rests
rests_small tenants [] h = tt
rests_small tenants (a ∷ l) h = (omega (arith, h a), rests_small tenants l h)

-- The tenants with their refunds.
unfoldable pub refunded : List ℕ → List Share → (ℕ → Tenant) → ℕ → Tenant
refunded [] shares tenants = tenants
refunded (a ∷ l) [] tenants = tenants
refunded (a ∷ l) (share ∷ shares) tenants =
    refunded l shares
      (put tenants a (record (tenants a) { refund_amount = share.remaining - share.alloc }))

fits_u128 : (n m : ℕ) → m < u128 → n ≤ m → n % u128 ≡ n
fits_u128 n m h k = omega arith

store_refunds_lem :
    (l : List ℕ) (shares : List Share) (tenants : ℕ → Tenant) (total : ℕ)
    → length l ≡ length shares
    → IsCapped shares
    → All (λ n. n < u128) (remainings shares)
    → total + sum (refunds shares) < u128
    → store_refunds l shares tenants total
      ≡ ok (refunded l shares tenants, total + sum (refunds shares))
unfolding store_refunds refunded refunds sum remainings
store_refunds_lem [] [] tenants total same capped small fits =
    let e : total ≡ total + 0 = omega arith in ap (λ n. ok (tenants, n)) e
store_refunds_lem [] (share ∷ shares) tenants total same capped small fits = absurd (omega arith)
store_refunds_lem (a ∷ l) [] tenants total same capped small fits = absurd (omega arith)
store_refunds_lem (a ∷ l) (share ∷ shares) tenants total same capped small fits =
    let refund = share.remaining - share.alloc in
    let wrap = fits_u128 refund share.remaining small.0 (omega arith) in
    let next = put tenants a (record (tenants a) { refund_amount = refund }) in
    let rest =
      store_refunds_lem l shares next (total + refund) (omega arith) capped.1 small.1
        (omega arith) in
    let sums : total + refund + sum (refunds shares) ≡ total + (refund + sum (refunds shares)) =
      omega arith in
    rw
      (
        sub_checked_lem share.remaining share.alloc capped.0,
        wrap,
        add_u128_lem total refund (omega arith),
      )
      (rest ∙ ap (λ n. ok (refunded l shares next, n)) sums)

-- A refund changes nothing else of a tenant, and only tenants of the list get one.
pub refunded_keeps {κ} :
    {A : Type κ} (g : Tenant → A)
    → ((t : Tenant) (n : ℕ) → g (record t { refund_amount = n }) ≡ g t)
    → (l : List ℕ) (shares : List Share) (tenants : ℕ → Tenant) (x : ℕ)
    → g (refunded l shares tenants x) ≡ g (tenants x)
unfolding refunded
refunded_keeps g h [] shares tenants x = refl
refunded_keeps g h (a ∷ l) [] tenants x = refl
refunded_keeps g h (a ∷ l) (share ∷ shares) tenants x =
    let t = record (tenants a) { refund_amount = share.remaining - share.alloc } in
    refunded_keeps g h l shares (put tenants a t) x
    ∙ put_keeps g tenants a t (h (tenants a) (share.remaining - share.alloc)) x

refunded_absent :
    (l : List ℕ) (shares : List Share) (tenants : ℕ → Tenant) (x : ℕ)
    → any (λ b. b == x) l ≡ false
    → refunded l shares tenants x ≡ tenants x
unfolding refunded put
refunded_absent [] shares tenants x h = refl
refunded_absent (a ∷ l) [] tenants x h = refl
refunded_absent (a ∷ l) (share ∷ shares) tenants x h =
    let t = record (tenants a) { refund_amount = share.remaining - share.alloc } in
    let apart : (x == a) ≡ false = ground (arith, ==_iff x a, ==_iff a x) in
    refunded_absent l shares (put tenants a t) x (ground arith) ∙ if_false t (tenants x) apart

refunded-sum :
    (l : List ℕ) (shares : List Share) (tenants : ℕ → Tenant)
    → length l ≡ length shares
    → IsDistinct l
    → tenant_sum (λ t. t.refund_amount) (refunded l shares tenants) l ≡ sum (refunds shares)
unfolding refunded tenant_sum sum refunds put
refunded-sum [] [] tenants same d = refl
refunded-sum [] (share ∷ shares) tenants same d = absurd (omega arith)
refunded-sum (a ∷ l) [] tenants same d = absurd (omega arith)
refunded-sum (a ∷ l) (share ∷ shares) tenants same d =
    let t = record (tenants a) { refund_amount = share.remaining - share.alloc } in
    let own : refunded l shares (put tenants a t) a ≡ t =
      refunded_absent l shares (put tenants a t) a d.0
      ∙ if_true t (tenants a) ((==_iff a a).1 refl) in
    let own2 = ap (λ u. u.refund_amount) own in
    omega (arith, own2, refunded-sum l shares (put tenants a t) (omega arith) d.1)

length-rests : (tenants : ℕ → Tenant) (l : List ℕ) → length (rests tenants l) ≡ length l
unfolding rests
length-rests tenants [] = refl
length-rests tenants (a ∷ l) = omega (arith, length-rests tenants l)

length-remainings : (shares : List Share) → length (remainings shares) ≡ length shares
unfolding remainings
length-remainings [] = refl
length-remainings (s ∷ ss) = omega (arith, length-remainings ss)

-- Where the approved claims are within the deposits, the settlement succeeds, and its refunds with the
-- shared claims make up what remains of the deposits.
pub compute_settlement_total :
    (s : State)
    → ((a : ℕ) → (s.tenants a).approved_individual_claims ≤ (s.tenants a).funded_amount)
    → ((a : ℕ) → (s.tenants a).funded_amount < u128)
    → IsDistinct s.tenant_list
    → s.agreement.shared_approved_claims
        + tenant_sum (λ t. t.approved_individual_claims) s.tenants s.tenant_list
      ≤ tenant_sum (λ t. t.funded_amount) s.tenants s.tenant_list
    → tenant_sum (λ t. t.funded_amount) s.tenants s.tenant_list < u128
    → (shares : List Share) × (total : ℕ) × (compute_settlement s
        ≡ ok (record s { tenants = refunded s.tenant_list shares s.tenants }, total))
      × (tenant_sum (λ t. t.refund_amount) (refunded s.tenant_list shares s.tenants) s.tenant_list
            + s.agreement.shared_approved_claims
            + tenant_sum (λ t. t.approved_individual_claims) s.tenants s.tenant_list
          ≡ tenant_sum (λ t. t.funded_amount) s.tenants s.tenant_list)
unfolding compute_settlement IsSplit
compute_settlement_total s within bound distinct room small =
    let l = s.tenant_list in
    let rs = rests s.tenants l in
    let whole = rests-sum s.tenants l within in
    let (shares, (e, split)) = settle_exact s.agreement.shared_approved_claims rs (omega arith) in
    let (shape, (allocated, capped)) = split in
    let left = refunds-IsSplit s.agreement.shared_approved_claims rs shares split in
    let same : length l ≡ length shares =
      omega (arith, length-rests s.tenants l, length-remainings shares, ap (λ x. length x) shape) in
    let rest_small : All (λ n. n < u128) (remainings shares) =
      rw shape (rests_small s.tenants l bound) in
    let stored = store_refunds_lem l shares s.tenants 0 same capped rest_small (omega arith) in
    let got = refunded-sum l shares s.tenants same distinct in
    (
      shares,
      0 + sum (refunds shares),
      rw (remaining_deposits_lem s.tenants l within, e, stored) refl,
      omega arith,
    )
