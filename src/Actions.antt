-- ===== src/Actions.antt =====
-- The action cards of an agreement: frontend/src/components/AgreementActions.tsx. A card is what it
-- shows and, for a form, what its button sends.
pub mod Gates
use shared_deposit_monad.Base.{
  ℕ, zero, suc, Bool, true, false, not, ◌&&◌, ◌||◌, Option, none, some, List, [], ◌∷◌, ◌++◌, Text,
  txt, lower, or_else, if◌then◌else◌, ltb, ◌==◌, ℤ, pos, negsuc, exceeds,
}
use shared_deposit_monad.Tx.{is_action_locked}
use shared_deposit_monad.Tx.Entry.{TxEntry}
use shared_deposit_monad.Diagnostics.{monad_chain_id}
use shared_deposit_monad.ContractTx.Messages.{decimal}
use shared_deposit_monad.ContractTx.Send.{ContractTxRequest, Verify}
use shared_deposit_monad.Format.{mon_to_wei, decimal_message}
use shared_deposit_monad.Role.{AgreementRole, TenantSnapshot}

-- The `Common` properties of the cards, without the callbacks.
pub record Common : Type 0 where
  pub role : AgreementRole
  pub recipient_accepted : Bool
  pub contract_address : Text
  pub agreement_id : ℕ
  pub terms_hash : Text
  pub network_healthy : Bool

-- `makeActionKey` of frontend/src/app/TxContext.tsx
unfoldable pub make_action_key :
    (chain_id : ℕ) → (contract_address agreement_id function_name wallet : Text) → Text
unfolding lower
make_action_key chain_id contract agreement_id function_name wallet =
    decimal chain_id
    ++ (58
        ∷ (lower contract
            ++ (58 ∷ (agreement_id ++ (58 ∷ (function_name ++ (58 ∷ lower wallet)))))))

unfoldable pub action_key_for : Common → Text → Text
action_key_for props function_name =
    make_action_key monad_chain_id props.contract_address (decimal props.agreement_id) function_name
      (or_else props.role.connected_wallet [])

-- A card that is not there, a notice, or a form with a button that may be disabled.
pub data Card : Type 0 where
  hidden : Card
  notice : Text → Card
  form : (enabled : Bool) → Card

-- `!disabled`: the permission, no action under way, and a healthy network.
unfoldable pub is_enabled : (permission : Bool) → Common → Text → List TxEntry → Bool
unfolding is_action_locked action_key_for
is_enabled permission props function_name entries = not (
    not permission
    || (is_action_locked (action_key_for props function_name) entries || not props.network_healthy))

unfoldable pub recipient_acceptance_card : Common → List TxEntry → Card
unfolding is_enabled
recipient_acceptance_card props entries =
    if props.recipient_accepted
    then notice (txt "Recipient accepted.")
    else if props.role.funding_deadline_passed
    then notice (txt "Funding deadline passed.")
    else form
        (is_enabled props.role.can_accept_as_recipient props (txt "acceptAsRecipient") entries)

unfoldable pub tenant_acceptance_card : Common → List TxEntry → Card
unfolding is_enabled
tenant_acceptance_card props entries = elim props.role.tenant_record [
  | none ↦ hidden
  | some tenant ↦
      if tenant.accepted
      then notice (txt "You have accepted this agreement as a tenant.")
      else if props.role.funding_deadline_passed
      then notice (txt "Funding deadline passed.")
      else form (is_enabled props.role.can_accept_as_tenant props (txt "acceptAsTenant") entries)
]

unfoldable pub is_zero : ℤ → Bool
is_zero (pos n) = n == 0
is_zero (negsuc n) = false

unfoldable pub tenant_funding_card : Common → List TxEntry → Card
unfolding is_enabled is_zero
tenant_funding_card props entries = elim props.role.tenant_record [
  | none ↦ hidden
  | some tenant ↦
      if not tenant.accepted
      then hidden
      else if is_zero props.role.remaining
      then notice (txt "Your contribution is fully funded.")
      else if props.role.funding_deadline_passed
      then notice (txt "The funding deadline has passed - no further deposits are accepted.")
      else form (is_enabled props.role.can_deposit props (txt "deposit") entries)
]

unfoldable pub tenant_withdraw_card : Common → List TxEntry → Card
unfolding is_enabled
tenant_withdraw_card props entries = elim props.role.tenant_record [
  | none ↦ hidden
  | some tenant ↦
      if tenant.funded_amount == 0
      then hidden
      else form (
          is_enabled props.role.can_withdraw_funding props (txt "withdrawFundingBeforeActivation")
            entries)
]

unfoldable pub read_only_participant_card : AgreementRole → Card
read_only_participant_card role = if role.is_participant then hidden else notice (txt "Read-only")

-- What a button does: it shows an error, or it sends a request.
pub data Clicked : Type 0 where
  refused : Text → Clicked
  sent : ContractTxRequest → Clicked

-- The fields that every request of the cards has. The answer of the contract read that follows is an
-- argument.
unfoldable pub request_of :
    Common → (label function_name : Text) → Option ℕ → Verify → ContractTxRequest
unfolding action_key_for
request_of props label function_name value verify = record {
  label = label;
  function_name = function_name;
  address = props.contract_address;
  value = value;
  action_key = some (action_key_for props function_name);
  agreement_id = some (decimal props.agreement_id);
  verify = some verify;
}

unfoldable pub accept_as_recipient_request : Common → Verify → ContractTxRequest
unfolding request_of
accept_as_recipient_request props verify =
    request_of props (txt "Accept as deposit recipient") (txt "acceptAsRecipient") none verify

unfoldable pub accept_as_tenant_request : Common → Verify → ContractTxRequest
unfolding request_of
accept_as_tenant_request props verify =
    request_of props (txt "Accept agreement (tenant)") (txt "acceptAsTenant") none verify

-- The contract reads of the money cards: the funded amount rose, or fell.
unfoldable pub rose : (before funded : ℕ) → Bool
rose before funded = ltb before funded

unfoldable pub fell : (before funded : ℕ) → Bool
fell before funded = ltb funded before

-- `parseEther` and `formatEther` are parameters; a negative remainder is printed by the second.
module _ (parse_ether : Text → ℕ) (format_ether : ℤ → Text) where
  unfoldable pub deposit : Common → (amount : Text) → Verify → Clicked
  unfolding mon_to_wei request_of
  deposit props amount verify = elim (mon_to_wei parse_ether amount) [
    | none ↦ refused decimal_message
    | some value ↦
        if value == 0
        then refused (txt "Enter an amount greater than zero.")
        else if exceeds value props.role.remaining
        then refused (
            txt "Maximum remaining contribution is "
            ++ (format_ether props.role.remaining ++ txt " MON."))
        else sent (
            request_of props (txt "Deposit " ++ (amount ++ txt " MON")) (txt "deposit") (some value)
              verify)
  ]

  -- The request with the amount that is its second argument.
  unfoldable pub withdraw : Common → TenantSnapshot → (amount : Text) → Verify → Clicked × ℕ
  unfolding mon_to_wei request_of
  withdraw props tenant amount verify = elim (mon_to_wei parse_ether amount) [
    | none ↦ (refused decimal_message, 0)
    | some value ↦
        if value == 0 || ltb tenant.funded_amount value
        then (
          refused (
              txt "You can withdraw up to "
              ++ (format_ether (pos tenant.funded_amount) ++ txt " MON.")),
          0,
        )
        else (
          sent (
              request_of props (txt "Withdraw " ++ (amount ++ txt " MON (pre-activation)"))
                (txt "withdrawFundingBeforeActivation") none verify),
          value,
        )
  ]
