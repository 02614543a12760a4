-- ===== src/Escrow/Votes/Start.antt =====
-- `createAgreement` of contracts/contracts/SharedDepositEscrow.sol leaves no votes, and the numbers of the
-- tenants and of the required approvals.
use shared_deposit_monad.Base.{
  ℕ, suc, ◌+◌, ◌%◌, ◌≤◌, ◌≡◌, refl, sym, subst, Bool, if◌then◌else◌, not, leb, List, [], ◌∷◌,
  length, arith, length-append,
}
use shared_deposit_monad.Escrow.Types.{is_pending, creator_must_be_tenant, invalid_amount}
use shared_deposit_monad.Escrow.Storage.{
  State, Msg, Call, ok, reverted, ◌>>◌, u128, set_tenant, revert_if, ok_inj, bind_ok, then_ok,
}
use shared_deposit_monad.Escrow.Creation.{
  Terms, Registered, register_one, register_tenants, new_agreement, check_terms, create_agreement,
}
use shared_deposit_monad.Escrow.Solvency.Start.{round_checked}
use shared_deposit_monad.Escrow.Votes.{IsPolled}
use shared_deposit_monad.Escrow.Votes.Counts.{cast_zero}

first_ok {ℓ κ} :
    {A : Type ℓ} {B : Type κ} (m : Call A) (n : Call B) (r : B)
    → (m >> n) ≡ ok r
    → (a : A) × (m ≡ ok a)
first_ok (ok a) n r h = (a, refl)
first_ok (reverted e) n r h = absurd (cc)

terms_checked :
    (msg : Msg) (t : Terms) (u : Unit {0})
    → check_terms msg t ≡ ok u
    → (length t.tenant_addresses ≡ length t.required_amounts)
      × (2 ≤ length t.tenant_addresses)
      × (length t.tenant_addresses ≤ 8)
unfolding check_terms
terms_checked msg t u h = ground arith

-- The loop of `_registerTenants` appends its tenants, and leaves claims and votes alone.
register_tenants_keeps :
    (sender recipient i : ℕ) (addresses amounts : List ℕ) (r out : Registered)
    → length addresses ≡ length amounts
    → register_tenants sender recipient i addresses amounts r ≡ ok out
    → (out.state.claims ≡ r.state.claims)
      × (out.state.votes ≡ r.state.votes)
      × (out.state.agreement ≡ r.state.agreement)
      × (length out.state.tenant_list ≡ length r.state.tenant_list + length addresses)
unfolding register_tenants register_one set_tenant
register_tenants_keeps sender recipient i [] amounts r out same h =
    let e = ok_inj h in rw (← e) (refl, refl, refl, omega arith)
register_tenants_keeps sender recipient i (a ∷ addresses) [] r out same h = absurd (omega arith)
register_tenants_keeps sender recipient i (a ∷ addresses) (n ∷ amounts) r out same h =
    let (new, next) = round_checked sender recipient i a n addresses amounts r out h in
    let (claims, votes, agreement, size) =
      register_tenants_keeps sender recipient (suc i) addresses amounts _ out (omega arith) next in
    (claims, votes, agreement, omega (arith, length-append r.state.tenant_list (a ∷ [])))

zero_either : (b : Bool) (n : ℕ) → n ≡ 0 → (if b then 0 else n) ≡ 0
zero_either b n h = ground arith

pub create_agreement-IsPolled :
    (msg : Msg) (t : Terms) (s : State) → create_agreement msg t ≡ ok s → IsPolled s
unfolding create_agreement new_agreement is_pending
create_agreement-IsPolled msg t s h =
    let (u, passed) = first_ok (check_terms msg t) _ s h in
    let (same, some_tenant, few) = terms_checked msg t u passed in
    let (r, registered, rest) =
      bind_ok (register_tenants msg.sender t.recipient 0 t.tenant_addresses t.required_amounts _) _
        s (then_ok (check_terms msg t) _ s h) in
    let (claims, votes, agreement, size) =
      register_tenants_keeps msg.sender t.recipient 0 t.tenant_addresses t.required_amounts _ r same
        registered in
    let s2 : State = record (r.state) {
      agreement = record (r.state.agreement) { total_required = r.total % u128 };
    } in
    let e : ok s2 ≡ ok s =
      then_ok (revert_if (leb u128 r.total) invalid_amount) (ok s2) s
        (then_ok (revert_if (not r.creator_listed) creator_must_be_tenant) _ s rest) in
    let l = r.state.tenant_list in
    subst IsPolled (ok_inj e) (
      rw (claims, votes, agreement)
        (
          (
            (λ id. sym (cast_zero 1 l refl)),
            (λ id. sym (cast_zero 2 l refl)),
            (λ id. zero_either _ _ refl),
            omega arith,
            omega (arith, size),
            omega arith,
            omega arith,
          ),
          (λ id. refl),
        ))
