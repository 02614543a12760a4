-- ===== src/Actions/Gates.antt =====
-- What a button of frontend/src/components/AgreementActions.tsx presupposes, and what the contract does
-- with the call that it sends.
use shared_deposit_monad.Base.{
  ℕ, ◌+◌, ◌<◌, ◌≡◌, refl, sym, ◌∙◌, ap, subst, inl, inr, Bool, true, false, Option, none, some,
  List, ◌++◌, Text, txt, if◌then◌else◌, ◌==◌, ℤ, exceeds, arith, Bool-cases, if_true, if_false,
  some_inj,
}
use shared_deposit_monad.Tx.{is_action_locked}
use shared_deposit_monad.Tx.Entry.{TxEntry}
use shared_deposit_monad.ContractTx.Send.{Verify}
use shared_deposit_monad.Format.{mon_to_wei, decimal_message}
use shared_deposit_monad.Role.{resolve_agreement_role}
use shared_deposit_monad.Role.Contract.{IsPrinting, is_ok, mine, deposit_iff}
use shared_deposit_monad.Escrow.Storage.{State, Msg, u128, IsRegistered}
use shared_deposit_monad.Escrow.Funding.{deposit as deposit_call}
use shared_deposit_monad.Actions.{
  Common, Card, Clicked, sent, refused, form, is_enabled, action_key_for, tenant_funding_card,
  request_of, deposit,
}

-- A card shows a button that can be pressed.
abbrev pub is_pressable : Card → Bool
is_pressable (form enabled) = enabled
is_pressable _ = false

is_enabled_parts :
    (permission : Bool) (props : Common) (name : Text) (entries : List TxEntry)
    → is_enabled permission props name entries ≡ true
    → (permission ≡ true)
      × ((props.network_healthy ≡ true)
          × (is_action_locked (action_key_for props name) entries ≡ false))
unfolding is_enabled
is_enabled_parts permission props name entries h = ground (arith, h)

tenant_funding_card-enabled :
    (props : Common) (entries : List TxEntry)
    → is_pressable (tenant_funding_card props entries) ≡ true
    → is_enabled props.role.can_deposit props (txt "deposit") entries ≡ true
unfolding tenant_funding_card
tenant_funding_card-enabled props entries h = ground (arith, h)

-- The value of a request that a button has sent.
abbrev pub sent_value : Clicked → Option ℕ
sent_value (refused m) = none
sent_value (sent r) = r.value

-- A deposit that the card sends is at least one wei and at most the remaining contribution.
deposit-sent :
    (parse_ether : Text → ℕ) (format_ether : ℤ → Text) (props : Common) (amount : Text)
    (verify : Verify) (v : ℕ)
    → sent_value (deposit parse_ether format_ether props amount verify) ≡ some v
    → (mon_to_wei parse_ether amount ≡ some v)
      × ((0 < v) × (exceeds v props.role.remaining ≡ false))
unfolding deposit request_of
deposit-sent parse_ether format_ether props amount verify v h =
    click (mon_to_wei parse_ether amount) refl h
  where
    clicked : Option ℕ → Clicked
    clicked o = elim o [
      | none ↦ refused decimal_message
      | some value ↦
          if value == 0
          then refused (txt "Enter an amount greater than zero.")
          else if exceeds value props.role.remaining
          then refused (
              txt "Maximum remaining contribution is "
              ++ (format_ether props.role.remaining ++ txt " MON."))
          else sent (
              request_of props (txt "Deposit " ++ (amount ++ txt " MON")) (txt "deposit")
                (some value) verify)
    ]

    accepted :
        (value : ℕ)
        → sent_value (clicked (some value)) ≡ some v
        → (value ≡ v) × ((0 < value) × (exceeds value props.role.remaining ≡ false))
    accepted value q = elim (Bool-cases (value == 0)) [
      | inl k ↦ absurd (let z = ap sent_value (sym (if_true _ _ k)) ∙ q in cc)
      | inr k ↦ elim (Bool-cases (exceeds value props.role.remaining)) [
        | inl k2 ↦ absurd (let z = ap sent_value (sym (if_false _ _ k ∙ if_true _ _ k2)) ∙ q in cc)
        | inr k2 ↦ (
          some_inj (ap sent_value (sym (if_false _ _ k ∙ if_false _ _ k2)) ∙ q),
          (ground (arith, k), k2),
        )
      ]
    ]

    click :
        (o : Option ℕ)
        → mon_to_wei parse_ether amount ≡ o
        → sent_value (clicked o) ≡ some v
        → (mon_to_wei parse_ether amount ≡ some v)
          × ((0 < v) × (exceeds v props.role.remaining ≡ false))
    click none e q = absurd (cc)
    click (some value) e q =
        let (same, (k, k2)) = accepted value q in
        (
          e ∙ ap some same,
          (subst (λ x. 0 < x) same k, subst (λ x. exceeds x props.role.remaining ≡ false) same k2),
        )

-- A deposit that a tenant sends from the card succeeds: on the page of a registered state, read by the
-- wallet that is connected and signed in, where the card's button can be pressed and sends an amount,
-- a call of the contract's `deposit` with that amount, at the time of the page, does not revert. The
-- amounts of the agreement fit a uint128.
pub deposit-accepted :
    (show : ℕ → Text) (printing : IsPrinting show) (s : State) (msg : Msg)
    → IsRegistered s
    → (s.tenants msg.sender).required_amount < u128
    → s.agreement.total_funded + msg.value < u128
    → (parse_ether : Text → ℕ) (format_ether : ℤ → Text) (props : Common) (entries : List TxEntry)
      (amount : Text) (verify : Verify)
    → props.role ≡ resolve_agreement_role (mine show printing s msg)
    → is_pressable (tenant_funding_card props entries) ≡ true
    → sent_value (deposit parse_ether format_ether props amount verify) ≡ some msg.value
    → is_ok (deposit_call msg s) ≡ true
deposit-accepted show printing s msg reg fits fits2 parse_ether format_ether props entries amount
      verify role press send =
    let allowed =
      (is_enabled_parts _ props _ entries (tenant_funding_card-enabled props entries press)).0 in
    let (e, (k, k2)) = deposit-sent parse_ether format_ether props amount verify msg.value send in
    (deposit_iff show printing s msg reg fits fits2).0 (
      (subst (λ r. r.can_deposit ≡ true) role allowed, k),
      subst (λ r. exceeds msg.value r.remaining ≡ false) role k2,
    )
