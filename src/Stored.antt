-- ===== src/Stored.antt =====
-- Backend persistence of contract transactions: frontend/src/lib/txPersistence.ts. The parsing of a
-- timestamp is a parameter.
pub mod Merge
use shared_deposit_monad.Base.{
  ℕ, zero, suc, Bool, true, false, not, ◌&&◌, ◌||◌, Option, none, some, List, [], ◌∷◌, ◌++◌, Text,
  txt, text_eq, opt_eq, lower, truthy, is_some, if◌then◌else◌, has_text,
}
use shared_deposit_monad.Tx.Entry.{TxStatus, Draft}
use shared_deposit_monad.ContractTx.Effects.{RecordInput}
use shared_deposit_monad.ContractTx.Messages.{decimal}
use shared_deposit_monad.Api.{
  Field, number, string, null, Options, Answer, ApiResult, returned, api_error,
}

pub record DecodedEvent : Type 0 where
  pub event_name : Text
  pub log_index : ℕ
  -- The string at a name of the payload; `none` is no value, or one that is no string.
  pub payload : Text → Option Text
  -- Is there a value, `null` and `undefined` aside.
  pub has_value : Text → Bool

pub record StoredTransaction : Type 0 where
  pub chain_id : ℕ
  pub contract_address : Text
  pub tx_hash : Text
  pub wallet_address : Text
  pub function_name : Text
  pub agreement_id : Option Text
  pub claim_id : Option Text
  pub value_wei : Text
  pub status : Text
  pub submitted_at : Text
  pub first_observed_at : Option Text
  pub mined_at : Option Text
  pub block_number : Option ℕ
  pub block_hash : Option Text
  pub receipt_status : Option ℕ
  pub decoded_error : Option Text
  pub decoded_events : Option (List DecodedEvent)
  pub explorer_tx_url : Text

-- `value ?? null`
unfoldable pub or_null : Option Text → Field
or_null none = null
or_null (some t) = string t

-- The path and the options that `recordTransaction` hands to `api`.
unfoldable pub record_options : RecordInput → Text × Options
unfolding or_null
record_options input = (
  txt "/transactions",
  record {
    method = some (txt "POST");
    body = some (
        (txt "chain_id", number input.chain_id)
        ∷ (txt "contract_address", string input.contract_address)
        ∷ (txt "tx_hash", string input.tx_hash)
        ∷ (txt "function_name", string input.function_name)
        ∷ (txt "agreement_id", or_null input.agreement_id)
        ∷ (txt "claim_id", or_null input.claim_id)
        ∷ (txt "value_wei", string (decimal input.value_wei))
        ∷ []);
  },
)

unfoldable pub reverify_options : ℕ → Text → Text × Options
reverify_options chain_id hash = (
  txt "/transactions/" ++ (decimal chain_id ++ (txt "/" ++ (hash ++ txt "/verify"))),
  record { method = some (txt "POST"); body = none },
)

-- `try { return await api(…) } catch { return null }`
unfoldable pub best_effort {ℓ} : {A : Type ℓ} → ApiResult A → Option (Answer A)
best_effort (returned a) = some a
best_effort (api_error status detail) = none

-- `fetchUnresolvedTransactions`: a failure gives the empty list.
unfoldable pub fetch_unresolved :
    ApiResult (List StoredTransaction) → Answer (List StoredTransaction)
fetch_unresolved (returned a) = a
fetch_unresolved (api_error status detail) = Answer.value []

abbrev pub backend_unresolved : List Text
backend_unresolved =
    txt "SUBMITTED" ∷ txt "BROADCAST_CONFIRMED" ∷ txt "PENDING" ∷ txt "MINED_SUCCESS" ∷ []

-- `known.has(hash.toLowerCase())`: the tracked hashes, the missing and empty ones left out.
unfoldable pub is_known : List (Option Text) → Text → Bool
is_known [] hash = false
is_known (none ∷ hs) hash = is_known hs hash
is_known (some h ∷ hs) hash =
    (truthy (some h) && text_eq (lower h) (lower hash)) || is_known hs hash

module _ (date_parse : Text → Option ℕ) where
  -- `Date.parse(text) || undefined`
  unfoldable pub submitted : Text → Option ℕ
  submitted t = elim (date_parse t) [ none ↦ none | some zero ↦ none | some (suc n) ↦ some (suc n) ]

  unfoldable pub restored_entry : Text → StoredTransaction → Draft
  unfolding submitted
  restored_entry wallet row = record {
    label = row.function_name ++ txt " (restored)";
    function_name = row.function_name;
    status = TxStatus.pending_onchain;
    chain_id = row.chain_id;
    hash = some row.tx_hash;
    contract_address = some row.contract_address;
    agreement_id = row.agreement_id;
    action_key = none;
    submitted_at = submitted row.submitted_at;
    connected_wallet = some wallet;
    error = none;
    hidden = none;
  }

  -- The loop over the backend's rows.
  unfoldable pub restore_rows : List (Option Text) → Text → List StoredTransaction → List Draft
  unfolding restored_entry has_text is_known
  restore_rows existing wallet [] = []
  restore_rows existing wallet (row ∷ rows) =
      let rest = restore_rows existing wallet rows in
      if not (has_text backend_unresolved row.status)
      then rest
      else if not (text_eq (lower row.wallet_address) (lower wallet))
      then rest
      else if is_known existing row.tx_hash
      then rest
      else restored_entry wallet row ∷ rest

  unfoldable pub merge_backend_transactions :
      List (Option Text) → List StoredTransaction → Option Text → List Draft
  unfolding restore_rows
  merge_backend_transactions existing backend none = []
  merge_backend_transactions existing backend (some wallet) =
      if truthy (some wallet) then restore_rows existing wallet backend else []

unfoldable pub should_refresh_cache : Option Text → Option Text → Bool
unfolding text_eq txt
should_refresh_cache none cache = false
should_refresh_cache (some onchain) none = false
should_refresh_cache (some onchain) (some cache) =
    not (text_eq onchain (txt "NONE")) && not (text_eq onchain cache)
