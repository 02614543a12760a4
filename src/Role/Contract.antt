-- ===== src/Role/Contract.antt =====
-- The permissions of frontend/src/hooks/useAgreementRole.ts against the guards of
-- contracts/contracts/SharedDepositEscrow.sol: the page reads the storage, the connected wallet is the
-- one of the session, and the call is made at the second that the page read.
use shared_deposit_monad.Base.{
  ℕ, suc, ◌+◌, ◌≤◌, ◌<◌, ◌≡◌, refl, sym, ◌∙◌, subst, ◌↔◌, ◌≢◌, inl, inr, Bool, true, false, none,
  some, List, [], ◌∷◌, Text, lower, opt_eq, opt_eq_sound, opt_eq_refl, norm, if◌then◌else◌, ◌==◌,
  any, arith, Bool-cases, some_inj, ==_iff, minus, is_positive, exceeds,
}
use shared_deposit_monad.Role.{
  Params, find_tenant, is_wallet, session_match, resolve_agreement_role, record_of, has_accepted,
  has_funds, remaining_of,
}
use shared_deposit_monad.Role.Snapshots.{
  status_code, agreement_snapshot, tenant_snapshot, tenant_snapshots, page_params,
}
use shared_deposit_monad.Escrow.Types.{Tenant, is_none, is_funding}
use shared_deposit_monad.Escrow.Storage.{
  State, Msg, Call, ok, reverted, u128, require_agreement, add_u128, sub_checked, send_mon,
  IsRegistered,
}
use shared_deposit_monad.Escrow.Funding.{
  accept_as_tenant, accept_as_recipient, deposit, withdraw_funding_before_activation,
}

abbrev pub is_ok {ℓ} : {A : Type ℓ} → Call A → Bool
is_ok (ok a) = true
is_ok (reverted e) = false

-- Addresses are printed apart, up to the case of letters, and never as the empty text.
abbrev pub IsPrinting : (ℕ → Text) → Type 0
IsPrinting show = ((a b : ℕ) → lower (show a) ≡ lower (show b) → a ≡ b) × ((a : ℕ) → show a ≢ [])

norm_lem : (t : Text) → t ≢ [] → norm (some t) ≡ some (lower t)
unfolding norm
norm_lem [] h = absurd (h refl)
norm_lem (c ∷ t) h = refl

module _ (show : ℕ → Text) (printing : IsPrinting show) where
  norm-show : (a : ℕ) → norm (some (show a)) ≡ some (lower (show a))
  norm-show a = norm_lem (show a) (printing.1 a)

  opt_eq-show : (a b : ℕ) → opt_eq (norm (some (show a))) (norm (some (show b))) ≡ (a == b)
  opt_eq-show a b = elim (Bool-cases (opt_eq (norm (some (show a))) (norm (some (show b))))) [
    | inl h ↦
        let e = printing.0 a b (
          some_inj (
            sym (norm-show a)
            ∙ (opt_eq_sound (norm (some (show a))) (norm (some (show b))) h ∙ norm-show b))) in
        h ∙ sym ((==_iff a b).1 e)
    | inr h ↦ elim (Bool-cases (a == b)) [
      | inl e ↦ absurd (
          let same = (==_iff a b).0 e in
          let h2 =
            subst (λ x. opt_eq (norm (some (show a))) (norm (some (show x))) ≡ false) (sym same)
              h in
          let h3 = opt_eq_refl (norm (some (show a))) in cc)
      | inr e ↦ h ∙ sym e
    ]
  ]

  find_tenant-show :
      (me i : ℕ) (tenants : ℕ → Tenant) (l : List ℕ)
      → record_of (find_tenant (norm (some (show me))) i (tenant_snapshots show tenants l)) ≡ (
          if any (λ b. b == me) l then some (tenant_snapshot show me (some (tenants me))) else none)
  unfolding find_tenant tenant_snapshots tenant_snapshot
  find_tenant-show me i tenants [] = refl
  find_tenant-show me i tenants (a ∷ l) = elim (Bool-cases (a == me)) [
    | inl h ↦
        subst
          (λ x.
            record_of (find_tenant (norm (some (show x))) i (tenant_snapshots show tenants (a ∷ l)))
            ≡ (if any (λ b. b == x) (a ∷ l)
                then some (tenant_snapshot show x (some (tenants x)))
                else none))
          ((==_iff a me).0 h) (rw (opt_eq_refl (norm (some (show a))), (==_iff a a).1 refl) refl)
    | inr h ↦ rw (opt_eq-show a me, h) (find_tenant-show me (suc i) tenants l)
  ]

  -- The page's parameters for a wallet that is connected and signed in.
  abbrev pub mine : State → Msg → Params
  mine s msg = page_params show s (some (show msg.sender)) (some (show msg.sender)) msg.timestamp

  session_match-mine :
      (me : ℕ) → session_match (norm (some (show me))) (norm (some (show me))) ≡ true
  unfolding session_match
  session_match-mine me = rw (norm-show me) (opt_eq_refl (some (lower (show me))))

  find_tenant-mine :
      (s : State) (msg : Msg)
      → IsRegistered s
      → record_of (
          find_tenant
            (norm (some (show msg.sender)))
            0
            (tenant_snapshots show s.tenants s.tenant_list))
        ≡ (if (s.tenants msg.sender).exists
            then some (tenant_snapshot show msg.sender (some (s.tenants msg.sender)))
            else none)
  find_tenant-mine s msg h =
      simp (h msg.sender) (find_tenant-show msg.sender 0 s.tenants s.tenant_list)

  -- On the page of a state whose tenants are those of its list, read by the wallet that is connected and
  -- signed in, the permission to accept as a tenant is granted exactly where the contract's
  -- `acceptAsTenant` with the agreement's terms hash, at the time of the page, does not revert.
  pub accept_as_tenant_iff :
      (s : State) (msg : Msg)
      → IsRegistered s
      → ((resolve_agreement_role (mine s msg)).can_accept_as_tenant ≡ true)
        ↔ (is_ok (accept_as_tenant msg s.agreement.terms_hash s) ≡ true)
  unfolding resolve_agreement_role page_params agreement_snapshot accept_as_tenant require_agreement
      is_none is_funding status_code has_accepted tenant_snapshot
  accept_as_tenant_iff s msg reg =
      rw (session_match-mine msg.sender, find_tenant-mine s msg reg)
        (ground (arith, ==_iff s.agreement.terms_hash s.agreement.terms_hash))

  -- On the page of any state, read by the wallet that is connected and signed in, the permission to accept
  -- as the recipient is granted exactly where the contract's `acceptAsRecipient` with the agreement's
  -- terms hash, at the time of the page, does not revert.
  pub accept_as_recipient_iff :
      (s : State) (msg : Msg)
      → ((resolve_agreement_role (mine s msg)).can_accept_as_recipient ≡ true)
        ↔ (is_ok (accept_as_recipient msg s.agreement.terms_hash s) ≡ true)
  unfolding resolve_agreement_role page_params agreement_snapshot accept_as_recipient
      require_agreement is_none is_funding status_code is_wallet
  accept_as_recipient_iff s msg =
      rw
        (
          session_match-mine msg.sender,
          opt_eq-show msg.sender s.agreement.recipient,
          norm-show msg.sender,
        )
        (ground (arith, ==_iff s.agreement.terms_hash s.agreement.terms_hash))

  -- On the page of a state whose tenants are those of its list, read by the wallet that is connected and
  -- signed in, a positive value up to the shown remainder with the permission to deposit is exactly what
  -- the contract's `deposit` takes at that time, where the amounts fit a uint128.
  pub deposit_iff :
      (s : State) (msg : Msg)
      → IsRegistered s
      → (s.tenants msg.sender).required_amount < u128
      → s.agreement.total_funded + msg.value < u128
      → ((((resolve_agreement_role (mine s msg)).can_deposit ≡ true) × (0 < msg.value))
          × (exceeds msg.value (resolve_agreement_role (mine s msg)).remaining ≡ false))
        ↔ (is_ok (deposit msg s) ≡ true)
  unfolding resolve_agreement_role page_params agreement_snapshot deposit require_agreement is_none
      is_funding status_code has_accepted tenant_snapshot remaining_of is_positive exceeds minus
      add_u128 sub_checked
  deposit_iff s msg reg h1 h2 =
      rw (session_match-mine msg.sender, find_tenant-mine s msg reg) (ground arith)

  -- On the page of a state whose tenants are those of its list, read by the wallet that is connected and
  -- signed in, a positive amount up to the funded amount with the permission to withdraw is exactly what
  -- `withdrawFundingBeforeActivation` takes, where the caller accepts the transfer and the total covers
  -- the tenant's funded amount.
  pub withdraw_iff :
      (s : State) (msg : Msg) (amount : ℕ)
      → IsRegistered s
      → (s.tenants msg.sender).funded_amount ≤ s.agreement.total_funded
      → ((((resolve_agreement_role (mine s msg)).can_withdraw_funding ≡ true) × (0 < amount))
          × (amount ≤ (s.tenants msg.sender).funded_amount))
        ↔ (is_ok (withdraw_funding_before_activation msg true amount s) ≡ true)
  unfolding resolve_agreement_role page_params agreement_snapshot withdraw_funding_before_activation
      require_agreement is_none is_funding status_code has_funds tenant_snapshot send_mon
      sub_checked
  withdraw_iff s msg amount reg h =
      rw (session_match-mine msg.sender, find_tenant-mine s msg reg) (ground arith)
