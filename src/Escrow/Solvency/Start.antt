-- ===== src/Escrow/Solvency/Start.antt =====
-- The storage that `createAgreement` of contracts/contracts/SharedDepositEscrow.sol leaves.
use shared_deposit_monad.Base.{
  ℕ, suc, true, ◌^◌, ◌+◌, ◌≤◌, ◌<◌, ◌≡◌, refl, sym, ◌∙◌, subst, inl, inr, false, ◌||◌, List, [],
  ◌∷◌, ◌++◌, ◌==◌, any, arith, Bool-cases, ==_iff, any-append, All, ◌%◌, leb, not,
}
use shared_deposit_monad.Escrow.Types.{
  Tenant, creator_must_be_tenant, invalid_amount, is_pending, is_finalized,
}
use shared_deposit_monad.Escrow.Storage.{
  State, Msg, ok, u128, put, set_tenant, revert_if, ok_inj, bind_ok, then_ok,
}
use shared_deposit_monad.Escrow.Sums.{IsDistinct, put_all}
use shared_deposit_monad.Escrow.Creation.{
  Terms, Registered, register_one, register_tenants, new_agreement, check_terms, create_agreement,
}
use shared_deposit_monad.Escrow.Solvency.{held, claimed, EscrowCall, run_ledger}
use shared_deposit_monad.Escrow.Solvency.Conservation.{run_ledger-balance}
use shared_deposit_monad.Escrow.Solvency.Fresh.{IsBlank, IsFresh, IsFresh-IsAccounted}

IsDistinct-append :
    (l : List ℕ) (a : ℕ) → IsDistinct l → any (λ b. b == a) l ≡ false → IsDistinct (l ++ a ∷ [])
IsDistinct-append [] a d h = (refl, tt)
IsDistinct-append (b ∷ l) a (d, ds) h = (
  rw (any-append (λ c. c == b) l (a ∷ []), d) (ground (arith, ==_iff a b, ==_iff b a)),
  IsDistinct-append l a ds (ground arith),
)

register_one-IsFresh :
    (a n i : ℕ) (s : State)
    → IsFresh s
    → (s.tenants a).exists ≡ false
    → n < u128
    → IsFresh (register_one a n i s)
unfolding register_one set_tenant put
register_one-IsFresh a n i s (reg, distinct, fits, blank, idle, pending) new small = (
  (λ x. elim (Bool-cases (x == a)) [
    | inl k ↦
        rw (k, any-append (λ b. b == x) s.tenant_list (a ∷ []))
          (ground (arith, ==_iff a x, ==_iff x a))
    | inr k ↦
        rw (k, any-append (λ b. b == x) s.tenant_list (a ∷ []))
          (ground (arith, ==_iff a x, ==_iff x a, reg x))
  ]),
  IsDistinct-append s.tenant_list a distinct (sym (reg a) ∙ new),
  put_all (λ (u : Tenant). u.required_amount < u128) s.tenants a
      (record (s.tenants a) { required_amount = n; index = i % 2 ^ 16; exists = true }) small fits,
  put_all IsBlank s.tenants a
      (record (s.tenants a) { required_amount = n; index = i % 2 ^ 16; exists = true }) (blank a)
      blank,
  idle,
  pending,
)

-- One round of the loop passes its guards.
pub round_checked :
    (sender recipient i a n : ℕ) (addresses amounts : List ℕ) (r out : Registered)
    → register_tenants sender recipient i (a ∷ addresses) (n ∷ amounts) r ≡ ok out
    → ((r.state.tenants a).exists ≡ false)
      × (register_tenants sender recipient (suc i) addresses amounts (record {
        state = register_one a n i r.state;
        creator_listed = a == sender || r.creator_listed;
        total = r.total + n;
      })
          ≡ ok out)
unfolding register_tenants
round_checked sender recipient i a n addresses amounts r out h = ground arith

register_tenants-IsFresh :
    (sender recipient i : ℕ) (addresses amounts : List ℕ) (r out : Registered)
    → All (λ n. n < u128) amounts
    → IsFresh r.state
    → register_tenants sender recipient i addresses amounts r ≡ ok out
    → IsFresh out.state
unfolding register_tenants
register_tenants-IsFresh sender recipient i [] amounts r out small fresh h =
    subst (λ x. IsFresh x.state) (ok_inj h) fresh
register_tenants-IsFresh sender recipient i (a ∷ addresses) [] r out small fresh h =
    subst (λ x. IsFresh x.state) (ok_inj h) fresh
register_tenants-IsFresh sender recipient i (a ∷ addresses) (n ∷ amounts) r out small fresh h =
    let (new, next) = round_checked sender recipient i a n addresses amounts r out h in
    register_tenants-IsFresh sender recipient (suc i) addresses amounts _ out small.1
      (register_one-IsFresh a n i r.state fresh new small.0) next

pub create_agreement-IsFresh :
    (msg : Msg) (t : Terms) (s : State)
    → All (λ n. n < u128) t.required_amounts
    → create_agreement msg t ≡ ok s
    → IsFresh s
unfolding create_agreement new_agreement is_pending is_finalized
create_agreement-IsFresh msg t s small h =
    let (r, registered, rest) =
      bind_ok (register_tenants msg.sender t.recipient 0 t.tenant_addresses t.required_amounts _) _
        s (then_ok (check_terms msg t) _ s h) in
    let fresh =
      register_tenants-IsFresh msg.sender t.recipient 0 t.tenant_addresses t.required_amounts _ r
        small
        (
          (λ a. refl),
          tt,
          (λ a. omega arith),
          (λ a. (refl, refl, omega arith, refl)),
          (refl, refl, omega arith, refl, refl, refl, refl, refl),
          (λ id. refl),
        )
        registered in
    let s2 : State = record (r.state) {
      agreement = record (r.state.agreement) { total_required = r.total % u128 };
    } in
    let e : ok s2 ≡ ok s =
      then_ok (revert_if (leb u128 r.total) invalid_amount) (ok s2) s
        (then_ok (revert_if (not r.creator_listed) creator_must_be_tenant) _ s rest) in
    subst IsFresh (ok_inj e) fresh

-- From its creation on, with amounts that fit a uint128, and through any calls whatsoever, reverted ones
-- among them, the contract holds for an agreement exactly what its tenants have put in and can still
-- take, and what its recipient can still take; the recorded refunds never exceed the recorded funding,
-- and neither do the open and the approved claims.
pub created-balance :
    (msg : Msg) (t : Terms) (s : State) (cs : List (EscrowCall × Msg))
    → All (λ n. n < u128) t.required_amounts
    → create_agreement msg t ≡ ok s
    → ((run_ledger cs (s, 0)).1 ≡ held (run_ledger cs (s, 0)).0)
      × ((run_ledger cs (s, 0)).0.agreement.total_cancelled_funding_withdrawn
          ≤ (run_ledger cs (s, 0)).0.agreement.total_funded)
      × (claimed (run_ledger cs (s, 0)).0.agreement
          ≤ (run_ledger cs (s, 0)).0.agreement.total_funded)
created-balance msg t s cs small h =
    let (kept, nothing) = IsFresh-IsAccounted s (create_agreement-IsFresh msg t s small h) in
    let (
      (
        (reg, distinct, fits, flags, total),
        (each, all, buckets, stray, none_each, none_all),
        bound,
        unpaid,
      ),
      balance,
    ) =
      run_ledger-balance cs s 0 kept (sym nothing) in
    (balance, omega arith, all)
