-- ===== src/Escrow/Solvency/Changes.antt =====
-- Changes of the storage of contracts/contracts/SharedDepositEscrow.sol that keep its totals.
use shared_deposit_monad.Base.{
  ℕ, ◌+◌, ◌≡◌, refl, sym, ◌∙◌, inl, inr, Bool, true, false, ◌&&◌, arith, Bool-cases, not,
}
use shared_deposit_monad.Escrow.Types.{AgreementStatus, Tenant, is_funding, is_cancelled}
use shared_deposit_monad.Escrow.Storage.{State, put}
use shared_deposit_monad.Escrow.Sums.{put_keeps, tenant_sum-put}
use shared_deposit_monad.Escrow.Funding.{check_and_activate}
use shared_deposit_monad.Escrow.Solvency.{owed_of, owed, IsSound}
use shared_deposit_monad.Escrow.Solvency.Calls.{check_and_activate_keeps}

pub not_withdrawn : (b c : Bool) → (b && not c) ≡ false → c ≡ false → b ≡ false
not_withdrawn b c h k = ground arith

changed_flag :
    (s s2 : State) (a : ℕ) (t : Tenant)
    → ((x : ℕ)
        → ((s.tenants x).cancelled_funding_withdrawn && not (is_cancelled s.agreement.status))
          ≡ false)
    → s2.tenants ≡ put s.tenants a t
    → (is_cancelled s2.agreement.status ≡ false
        → (is_cancelled s.agreement.status ≡ false)
          × (t.cancelled_funding_withdrawn ≡ (s.tenants a).cancelled_funding_withdrawn))
    → (x : ℕ)
    → ((s2.tenants x).cancelled_funding_withdrawn && not (is_cancelled s2.agreement.status)) ≡ false
changed_flag s s2 a t before same c x = elim (Bool-cases (is_cancelled s2.agreement.status)) [
  | inl k ↦ rw k (ground arith)
  | inr k ↦
      let was : (s.tenants x).cancelled_funding_withdrawn ≡ false =
        not_withdrawn _ _ (before x) (c k).0 in
      rw
        (
          same,
          put_keeps (λ (u : Tenant). u.cancelled_funding_withdrawn) s.tenants a t (c k).1 x,
          was,
        )
        refl
]

-- Storage that differs at one tenant and in its totals.
pub changed-IsSound :
    (s s2 : State) (a : ℕ) (t : Tenant)
    → IsSound s
    → (s.tenants a).exists ≡ true
    → s2.tenants ≡ put s.tenants a t
    → s2.tenant_list ≡ s.tenant_list
    → t.exists ≡ (s.tenants a).exists
    → t.required_amount ≡ (s.tenants a).required_amount
    → (is_cancelled s2.agreement.status ≡ false
        → (is_cancelled s.agreement.status ≡ false)
          × (t.cancelled_funding_withdrawn ≡ (s.tenants a).cancelled_funding_withdrawn))
    → s2.agreement.total_funded
        + s.agreement.total_cancelled_funding_withdrawn
        + owed_of (s.tenants a)
      ≡ s.agreement.total_funded + s2.agreement.total_cancelled_funding_withdrawn + owed_of t
    → IsSound s2
      × (owed s2.tenants s2.tenant_list + owed_of (s.tenants a)
          ≡ owed s.tenants s.tenant_list + owed_of t)
changed-IsSound s s2 a t (reg, distinct, fits, before, total) there same list e r c balance =
    let moved = tenant_sum-put owed_of s.tenants a t s.tenant_list distinct (sym (reg a) ∙ there) in
    let owes : owed s2.tenants s2.tenant_list ≡ owed (put s.tenants a t) s.tenant_list =
      rw (same, list) refl in
    (
      (
        (λ x. rw (same, list) (put_keeps (λ (u : Tenant). u.exists) s.tenants a t e x ∙ reg x)),
        rw list distinct,
        (λ x.
            rw same
              (rw (put_keeps (λ (u : Tenant). u.required_amount) s.tenants a t r x) (fits x))),
        (λ x. changed_flag s s2 a t before same c x),
        omega arith,
      ),
      omega arith,
    )

pub activated-IsSound :
    (s : State)
    → IsSound s
    → is_cancelled s.agreement.status ≡ false
    → IsSound (check_and_activate s)
      × (owed (check_and_activate s).tenants (check_and_activate s).tenant_list
          ≡ owed s.tenants s.tenant_list)
activated-IsSound s (reg, distinct, fits, before, total) h =
    let (tenants, list, funded, withdrawn, status) = check_and_activate_keeps s h in
    (
      (
        (λ x. rw (tenants, list) (reg x)),
        rw list distinct,
        (λ x. rw tenants (fits x)),
        (λ x. rw (tenants, not_withdrawn _ _ (before x) h) refl),
        rw (tenants, list, funded, withdrawn) total,
      ),
      rw (tenants, list) refl,
    )

pub funding_no_cancel : (x : AgreementStatus) → is_funding x ≡ true → is_cancelled x ≡ false
unfolding is_funding is_cancelled
funding_no_cancel x h = ground arith
