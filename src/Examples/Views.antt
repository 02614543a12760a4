-- ===== src/Examples/Views.antt =====
-- What the pages of the client show, at concrete inputs.
use shared_deposit_monad.Base.{
  ℕ, ◌≡◌, ◌↔◌, Bool, true, false, Option, none, some, List, [], ◌∷◌, Text, txt, is_some,
}
use shared_deposit_monad.Tx.Entry.{TxStatus, TxEntry}
use shared_deposit_monad.Diagnostics.{monad_chain_id}
use shared_deposit_monad.Diagnostics.Health.{ProviderReadings, EvaluateOptions}
use shared_deposit_monad.Stored.{StoredTransaction}
use shared_deposit_monad.Activity.{ActivityRow, to_timeline, to_rows}
use shared_deposit_monad.Activity.Order.{IsOrdered, count, to_timeline-IsOrdered}
use shared_deposit_monad.Format.{mon_to_wei, trim}
use shared_deposit_monad.Format.Decimal.{IsAmount, mon_to_wei_iff}
use shared_deposit_monad.Drawer.{Connector}
use shared_deposit_monad.Readings.{Injected, Public, got, thrown, no_readings}
use shared_deposit_monad.Drafts.{Prepared, DraftPage}

abbrev pub wallet : Text
wallet = 48 ∷ 120 ∷ 97 ∷ []

abbrev app : ProviderReadings
app = record (no_readings) {
  chain_id = some monad_chain_id;
  latest_block = some 9;
  contract_code = some (48 ∷ 120 ∷ 54 ∷ []);
}

abbrev opts : EvaluateOptions
opts = record {
  connected_wallet = some wallet;
  auth_wallet = some wallet;
  wallet_client_account = none;
  required_recipient = none;
  min_balance_wei = none;
}

abbrev injected : Injected
injected = record {
  chain_id = some wallet;
  block_number = none;
  balance = none;
  latest_nonce = none;
  pending_nonce = none;
  code = none;
  call = none;
}

abbrev public_answers : Public
public_answers = record {
  chain_id = got 10143;
  block_number = got 9;
  balance = got 5;
  latest_nonce = thrown wallet;
  pending_nonce = got 1;
  code = got (some wallet);
  call = got none;
}

abbrev pub row : Option ℕ → StoredTransaction
row block = record {
  chain_id = 10143;
  contract_address = [];
  tx_hash = [];
  wallet_address = [];
  function_name = [];
  agreement_id = none;
  claim_id = none;
  value_wei = 48 ∷ [];
  status = [];
  submitted_at = [];
  first_observed_at = none;
  mined_at = none;
  block_number = block;
  block_hash = none;
  receipt_status = none;
  decoded_error = none;
  decoded_events = none;
  explorer_tx_url = [];
}

abbrev rows : List StoredTransaction
rows = row none ∷ row (some 4) ∷ row (some 2) ∷ []

to_timeline-IsOrdered_example :
    IsOrdered (to_timeline (λ a b. false) rows)
    × ((p : ActivityRow → Bool)
        → count (λ a b. false) p (to_timeline (λ a b. false) rows)
          ≡ count (λ a b. false) p (to_rows rows))
to_timeline-IsOrdered_example = to_timeline-IsOrdered (λ a b. false) rows

mon_to_wei_iff_example :
    (is_some (mon_to_wei (λ t. 5) (32 ∷ 48 ∷ 46 ∷ 53 ∷ [])) ≡ true)
    ↔ IsAmount (trim (32 ∷ 48 ∷ 46 ∷ 53 ∷ []))
mon_to_wei_iff_example = mon_to_wei_iff (λ t. 5) (32 ∷ 48 ∷ 46 ∷ 53 ∷ [])

abbrev entry : TxEntry
entry = record {
  id = 49 ∷ [];
  label = [];
  function_name = [];
  status = TxStatus.pending_onchain;
  chain_id = 10143;
  hash = none;
  contract_address = none;
  agreement_id = none;
  action_key = some wallet;
  submitted_at = none;
  connected_wallet = none;
  error = none;
  hidden = none;
}

abbrev connectors : List Connector
connectors =
    record { id = txt "injected"; name = 82 ∷ [] } ∷ record { id = 114 ∷ []; name = 114 ∷ [] } ∷ []

abbrev prepared : Prepared ℕ
prepared = record {
  contract_address = wallet;
  terms_hash = wallet;
  canonical_terms = 3;
  recipient = wallet;
  argument_terms_hash = wallet;
  lease_start = 1;
  lease_end = 2;
  funding_deadline = 2;
  claim_deadline = 3;
  settlement_deadline = 4;
  tenant_addresses = [];
  required_amounts = [];
}

abbrev page : DraftPage ℕ
page = record {
  draft_id = some wallet;
  property_alias = wallet;
  status = txt "DRAFT";
  prepared = none;
  frontend_hash = none;
  creation_error = none;
}
