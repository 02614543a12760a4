-- ===== src/Escrow/Solvency/Payouts/Conservation.antt =====
-- The accounting of contracts/contracts/SharedDepositEscrow.sol over the finalization and the payouts.
use shared_deposit_monad.Base.{
  ℕ, ◌+◌, ◌≡◌, refl, sym, ◌∙◌, Bool, true, false, ◌&&◌, not, arith, List,
}
use shared_deposit_monad.Escrow.Types.{
  AgreementStatus, Tenant, is_none, is_active, is_finalized, is_cancelled,
}
use shared_deposit_monad.Escrow.Storage.{State, Msg, ok, Done, set_tenant, ok_inj}
use shared_deposit_monad.Escrow.Funding.{with_status}
use shared_deposit_monad.Escrow.Finalization.{
  finalize_agreement, withdraw_tenant_refund, withdraw_recipient_payout,
}
use shared_deposit_monad.Escrow.Settlement.{Share}
use shared_deposit_monad.Escrow.Sums.{tenant_sum, tenant_sum-put, tenant_sum_ext}
use shared_deposit_monad.Escrow.Solvency.{
  owed_of, owed, unpaid_of, unpaid_payout, held, is_opened, claimed_of, IsAccounted, Conserves,
}
use shared_deposit_monad.Escrow.Solvency.Changes.{not_withdrawn}
use shared_deposit_monad.Escrow.Solvency.Reserves.{stray_keeps, nothing_back}
use shared_deposit_monad.Escrow.Solvency.Quiet.{not_finalized-held}
use shared_deposit_monad.Escrow.Solvency.Claims.{moved-KeepsOwed, moved_tenant-KeepsOwed}
use shared_deposit_monad.Escrow.Solvency.Payouts.Refunds.{refunded, refunded_keeps}
use shared_deposit_monad.Escrow.Solvency.Payouts.{
  active_status, unpaid_of_whole, active_settlement, finalize_guards,
}

pub finalize_agreement_ok :
    (msg : Msg) (s : State) (d : Done)
    → IsAccounted s
    → finalize_agreement msg s ≡ ok d
    → (is_active s.agreement.status ≡ true)
      × ((tenants : ℕ → Tenant) × (shares : List Share) × (d ≡ record {
        state = with_status AgreementStatus.finalized (record s { tenants = tenants });
        sent = 0;
      })
          × (tenants ≡ refunded s.tenant_list shares s.tenants)
          × (tenant_sum (λ t. t.refund_amount) tenants s.tenant_list
                + s.agreement.total_approved_claims
              ≡ owed s.tenants s.tenant_list))
unfolding finalize_agreement
finalize_agreement_ok msg s d kept h =
    let (active, late, resolved, next) = finalize_guards msg s _ d h in
    let (tenants, total, e, sums, shares, shape) = active_settlement s kept active in
    (active, (tenants, shares, sym (ok_inj (rw e at next)), shape, sums))

unpaid_final : (b : Bool) → (b && not true) ≡ false
unpaid_final b = ground arith

-- The storage with its refunds is accounted for.
finalized-IsAccounted :
    (s : State) (shares : List Share)
    → IsAccounted s
    → is_active s.agreement.status ≡ true
    → IsAccounted (
        with_status AgreementStatus.finalized
          (record s { tenants = refunded s.tenant_list shares s.tenants }))
unfolding with_status is_finalized is_cancelled is_opened
finalized-IsAccounted s shares
      (
        (reg, distinct, fits, before, total),
        (each, all, buckets, stray, none_each, none_all),
        (bound, bound2),
        (unpaid, payout, back),
      )
      active =
    let l = s.tenant_list in
    let (live, running, there) = active_status s.agreement.status active in
    let tenants = refunded l shares s.tenants in
    let keeps_exists = refunded_keeps (λ u. u.exists) (λ t n. refl) l shares s.tenants in
    let keeps_required = refunded_keeps (λ u. u.required_amount) (λ t n. refl) l shares s.tenants in
    let keeps_funded = refunded_keeps (λ u. u.funded_amount) (λ t n. refl) l shares s.tenants in
    let keeps_claimed = refunded_keeps claimed_of (λ t n. refl) l shares s.tenants in
    let keeps_approved =
      refunded_keeps (λ u. u.approved_individual_claims) (λ t n. refl) l shares s.tenants in
    let keeps_flag =
      refunded_keeps (λ u. u.cancelled_funding_withdrawn) (λ t n. refl) l shares s.tenants in
    let keeps_owed = refunded_keeps owed_of (λ t n. unfold owed_of in refl) l shares s.tenants in
    let same_owed = tenant_sum_ext owed_of owed_of tenants s.tenants l keeps_owed in
    let same_approved =
      tenant_sum_ext (λ u. u.approved_individual_claims) (λ u. u.approved_individual_claims) tenants
        s.tenants l keeps_approved in
    (
      (
        (λ x. keeps_exists x ∙ reg x),
        distinct,
        (λ x. rw (keeps_required x) (fits x)),
        (λ x. rw (keeps_flag x, not_withdrawn _ _ (before x) live) refl),
        omega arith,
      ),
      (
        (λ x. omega (arith, keeps_claimed x, keeps_funded x, each x)),
        all,
        omega arith,
        (λ id. stray_keeps s.tenants tenants (s.claims id) keeps_exists ∙ stray id),
        (λ x. refl),
        refl,
      ),
      ((λ x. rw (keeps_funded x) (bound x)), bound2),
      ((λ x. unpaid_final _), unpaid_final _, nothing_back _ _ back live),
    )

finalized-held :
    (s : State) (shares : List Share)
    → IsAccounted s
    → is_active s.agreement.status ≡ true
    → held (
        with_status AgreementStatus.finalized
          (record s { tenants = refunded s.tenant_list shares s.tenants }))
      ≡ tenant_sum (λ t. t.refund_amount) (refunded s.tenant_list shares s.tenants) s.tenant_list
        + s.agreement.total_approved_claims
unfolding held with_status is_finalized unpaid_payout
finalized-held s shares (sound, reserved, bound, (unpaid, payout, back)) active =
    let l = s.tenant_list in
    let (live, running, there) = active_status s.agreement.status active in
    let keeps_paid = refunded_keeps (λ u. u.refund_withdrawn) (λ t n. refl) l shares s.tenants in
    let whole =
      tenant_sum_ext unpaid_of (λ u. u.refund_amount) (refunded l shares s.tenants)
        (refunded l shares s.tenants) l
        (λ x.
          unpaid_of_whole (refunded l shares s.tenants x)
            (keeps_paid x ∙ not_withdrawn _ _ (unpaid x) running)) in
    rw (not_withdrawn _ _ payout running) (omega arith)

pub finalizing-Conserves :
    (msg : Msg) (s : State) (d : Done)
    → IsAccounted s
    → finalize_agreement msg s ≡ ok d
    → Conserves s 0 d
finalizing-Conserves msg s d kept h =
    let (active, (tenants, shares, e, shape, sums)) = finalize_agreement_ok msg s d kept h in
    let before = not_finalized-held s (active_status s.agreement.status active).1 in
    let after = finalized-held s shares kept active in
    let sums2 = rw shape at sums in
    rw (e, shape) (finalized-IsAccounted s shares kept active, omega arith)

final_status : (x : AgreementStatus) → is_finalized x ≡ true → is_opened x ≡ true
unfolding is_opened
final_status x h = ground arith

pub tenant_refund_ok :
    (msg : Msg) (accepts : Bool) (s : State) (d : Done)
    → withdraw_tenant_refund msg accepts s ≡ ok d
    → (d ≡ record {
      state = set_tenant msg.sender (record (s.tenants msg.sender) { refund_withdrawn = true }) s;
      sent = (s.tenants msg.sender).refund_amount;
    })
      × (is_finalized s.agreement.status ≡ true)
      × ((s.tenants msg.sender).exists ≡ true)
      × ((s.tenants msg.sender).refund_withdrawn ≡ false)
unfolding withdraw_tenant_refund is_none
tenant_refund_ok msg true s d h = ground arith
tenant_refund_ok msg false s d h = absurd (ground arith)

pub recipient_payout_ok :
    (msg : Msg) (accepts : Bool) (s : State) (d : Done)
    → withdraw_recipient_payout msg accepts s ≡ ok d
    → (d ≡ record {
      state = record s { agreement = record (s.agreement) { recipient_payout_withdrawn = true } };
      sent = s.agreement.total_approved_claims;
    })
      × (is_finalized s.agreement.status ≡ true)
      × (s.agreement.recipient_payout_withdrawn ≡ false)
unfolding withdraw_recipient_payout is_none
recipient_payout_ok msg true s d h = ground arith
recipient_payout_ok msg false s d h = absurd (ground arith)

final_paid : (b c : Bool) → c ≡ true → (b && not c) ≡ false
final_paid b c h = ground arith

pub paying_refund-Conserves :
    (msg : Msg) (accepts : Bool) (s : State) (d : Done)
    → IsAccounted s
    → withdraw_tenant_refund msg accepts s ≡ ok d
    → Conserves s 0 d
unfolding held set_tenant unpaid_of
paying_refund-Conserves msg accepts s d kept h =
    let (e, final, there, unpaid) = tenant_refund_ok msg accepts s d h in
    let t = record (s.tenants msg.sender) { refund_withdrawn = true } in
    let (kept2, same, status) =
      moved_tenant-KeepsOwed s.agreement s.claims s.votes s msg.sender t kept
        (final_status s.agreement.status final) (refl, refl, refl) kept.3.1 there
        (refl, refl, refl, refl) (final_paid true _ final) (kept.1.0 msg.sender) kept.1.1 refl
        kept.1.3 in
    let sums =
      tenant_sum-put unpaid_of s.tenants msg.sender t s.tenant_list kept.0.1
        (sym (kept.0.0 msg.sender) ∙ there) in
    let sums2 = rw unpaid at sums in rw e (kept2, rw final (omega arith))

pub paying_recipient-Conserves :
    (msg : Msg) (accepts : Bool) (s : State) (d : Done)
    → IsAccounted s
    → withdraw_recipient_payout msg accepts s ≡ ok d
    → Conserves s 0 d
unfolding held unpaid_payout
paying_recipient-Conserves msg accepts s d kept h =
    let (e, final, unpaid) = recipient_payout_ok msg accepts s d h in
    let ag = record (s.agreement) { recipient_payout_withdrawn = true } in
    let (kept2, same, status) =
      moved-KeepsOwed ag s.claims s.votes s kept (final_status s.agreement.status final)
        (refl, refl, refl) (final_paid true _ final) kept.1.1 refl kept.1.3 in
    rw e (kept2, rw (final, unpaid) (omega arith))
