-- ===== src/Drafts.antt =====
-- Bringing a draft onchain, and reviewing an invitation: frontend/src/pages/DraftDetail.tsx and
-- frontend/src/pages/InvitationReview.tsx. Amounts and dates of the prepared call are numbers.
pub mod Creation
use shared_deposit_monad.Base.{
  ℕ, Bool, true, false, not, ◌&&◌, ◌||◌, Option, none, some, List, [], ◌∷◌, ◌++◌, Text, txt,
  text_eq, is_some, if◌then◌else◌, ◌==◌,
}
use shared_deposit_monad.Diagnostics.{monad_chain_id}
use shared_deposit_monad.Tx.Entry.{TxEntry}
use shared_deposit_monad.Api.{ApiResult, returned, api_error, Answer}
use shared_deposit_monad.ContractTx.Effects.{Effect}
use shared_deposit_monad.ContractTx.Send.{ContractTxRequest, Verify, World, send}

-- `Prepared`: the prepared call, with the terms as the backend sent them.
pub record Prepared {ℓ} (Json : Type ℓ) : Type ℓ where
  pub contract_address : Text
  pub terms_hash : Text
  pub canonical_terms : Json
  pub recipient : Text
  pub argument_terms_hash : Text
  pub lease_start : ℕ
  pub lease_end : ℕ
  pub funding_deadline : ℕ
  pub claim_deadline : ℕ
  pub settlement_deadline : ℕ
  pub tenant_addresses : List Text
  pub required_amounts : List ℕ

-- The state of the page that the creation reads.
pub record DraftPage {ℓ} (Json : Type ℓ) : Type ℓ where
  pub draft_id : Option Text
  pub property_alias : Text
  pub status : Text
  pub prepared : Option (Prepared Json)
  pub frontend_hash : Option Text
  pub creation_error : Option Text

-- The browser's own hash of canonical terms is a parameter.
module _ {ℓ} {Json : Type ℓ} (terms_hash : Json → Text) where
  -- `prepare.onSuccess`
  unfoldable pub on_prepared : Prepared Json → DraftPage Json → DraftPage Json
  on_prepared p page = record page {
    prepared = some p;
    frontend_hash = some (terms_hash p.canonical_terms);
  }

abbrev pub incomplete_text : Text
incomplete_text = txt "The transaction did not complete - see the drawer for details."

-- The error that is left when `send` has returned.
unfoldable pub creation_error_of : Option Text → Option Text
creation_error_of none = some incomplete_text
creation_error_of (some hash) = none

module _ {ℓ} {Json : Type ℓ} where
  unfoldable pub hashes_match : DraftPage Json → Bool
  unfolding text_eq
  hashes_match page = elim page.prepared [
    | none ↦ false
    | some p ↦ elim page.frontend_hash [ none ↦ false | some h ↦ text_eq h p.terms_hash ]
  ]

  unfoldable pub can_create : DraftPage Json → (is_connected : Bool) → (chain_id : ℕ) → Bool
  unfolding hashes_match txt text_eq
  can_create page is_connected chain_id =
      hashes_match page
      && (is_connected && (chain_id == monad_chain_id && text_eq page.status (txt "DRAFT")))

  unfoldable pub creation_request : Prepared Json → DraftPage Json → Verify → ContractTxRequest
  unfolding txt
  creation_request p page verify = record {
    label = txt "Create agreement (" ++ (page.property_alias ++ txt ")");
    function_name = txt "createAgreement";
    address = p.contract_address;
    value = none;
    action_key = none;
    agreement_id = none;
    verify = some verify;
  }

  -- `createOnchain`; `none` is a call that ran out of the model's fuel.
  unfoldable pub create_onchain :
      List TxEntry → World → Verify → DraftPage Json → Option (List Effect × DraftPage Json)
  unfolding creation_request creation_error_of
  create_onchain snapshot w verify page = elim page.prepared [
    | none ↦ some ([], page)
    | some p ↦
        if not (is_some page.draft_id)
        then some ([], page)
        else elim (send snapshot w (creation_request p page verify)) [
          | none ↦ none
          | some (effects, hash) ↦
              some (effects, record page { creation_error = creation_error_of hash })
        ]
  ]

-- The review of an invitation.
pub record Review : Type 0 where
  pub status : Text
  pub role : Option Text
  pub property_alias : Option Text
  pub draft_id : Option Text
  pub expected_wallet : Option Text
  pub required_amount_wei : Option Text
  pub note : Option Text

abbrev pub terminal_messages : List (Text × Text)
terminal_messages =
    (txt "invalid", txt "This invitation link is not valid.")
    ∷ (txt "expired", txt "This invitation has expired. Ask the creator for a new link.")
    ∷ (txt "revoked", txt "This invitation was revoked by the creator.")
    ∷ (
      txt "rotated",
      txt "This invitation was replaced with a newer link. Ask the creator for the current one.",
    )
    ∷ (txt "already_claimed", txt "This invitation has already been used.")
    ∷ []

unfoldable pub terminal_message : List (Text × Text) → Text → Option Text
unfolding text_eq
terminal_message [] status = none
terminal_message ((key, message) ∷ table) status =
    let rest = terminal_message table status in if text_eq key status then some message else rest

abbrev pub invalid_review : Review
invalid_review = record {
  status = txt "invalid";
  role = none;
  property_alias = none;
  draft_id = none;
  expected_wallet = none;
  required_amount_wei = none;
  note = none;
}

-- The review that the page shows; `none` is the notice that the backend is unavailable.
unfoldable pub review_of : ApiResult Review → Option Review
review_of (api_error status detail) = if status == 404 then some invalid_review else none
review_of (returned (Answer.value r)) = some r
review_of (returned _) = none
