-- ===== src/Examples/Session.antt =====
-- The session and the recovery of the client at concrete inputs.
use shared_deposit_monad.Base.{
  ℕ, ◌≡◌, refl, true, false, ◌||◌, ◌&&◌, Option, none, some, [], ◌∷◌, Text, txt, any, All, text_eq,
  ◌==◌,
}
use shared_deposit_monad.Tx.Entry.{TxStatus, TxEntry}
use shared_deposit_monad.Diagnostics.{monad_chain_id}
use shared_deposit_monad.Api.{Options, Body, Fetched, answered, returned, api_error, Answer}
use shared_deposit_monad.Stored.{StoredTransaction, merge_backend_transactions, is_known}
use shared_deposit_monad.Stored.Merge.{IsOwn, is_wanted, has_hash, merge-IsOwn, merge-has_hash}
use shared_deposit_monad.Recovery.{reconcile}
use shared_deposit_monad.Recovery.Steps.{has_retry}
use shared_deposit_monad.Recovery.Session.{reconcile_again}
use shared_deposit_monad.Auth.{
  AuthStatus, AuthState, MeResponse, SignInWorld, got, Thrown, is_authenticated, sign_in,
  sign_in_session, sign_in_as_connected, sign_out, object, no_session, has_session, ensure_chain,
  verified_of, session_of,
}
use shared_deposit_monad.Auth.Laws.{
  sign_in_failed_refuses, sign_in_session-confirmed, sign_in_as_connected_forgets,
}

abbrev wallet : Text
wallet = 48 ∷ 120 ∷ 97 ∷ []

abbrev hash : Text
hash = 48 ∷ 120 ∷ 49 ∷ []

abbrev row : StoredTransaction
row = record {
  chain_id = 10143;
  contract_address = 48 ∷ [];
  tx_hash = hash;
  wallet_address = wallet;
  function_name = 100 ∷ [];
  agreement_id = none;
  claim_id = none;
  value_wei = 53 ∷ [];
  status = txt "PENDING";
  submitted_at = 50 ∷ [];
  first_observed_at = none;
  mined_at = none;
  block_number = none;
  block_hash = none;
  receipt_status = none;
  decoded_error = none;
  decoded_events = none;
  explorer_tx_url = [];
}

abbrev parse : Text → Option ℕ
parse t = some 7

merge-IsOwn_example :
    All
      (λ d. IsOwn wallet d × ((h : Text) → d.hash ≡ some h → is_known [] h ≡ false))
      (merge_backend_transactions parse [] (row ∷ []) (some wallet))
merge-IsOwn_example = merge-IsOwn parse [] (row ∷ []) wallet

merge-has_hash_example :
    has_hash hash (merge_backend_transactions parse [] (row ∷ []) (some wallet))
    ≡ any (λ r. is_wanted [] wallet r && text_eq r.tx_hash hash) (row ∷ [])
merge-has_hash_example = merge-has_hash parse [] (row ∷ []) wallet hash refl

abbrev entry : TxEntry
entry = record {
  id = 49 ∷ [];
  label = [];
  function_name = [];
  status = TxStatus.pending_onchain;
  chain_id = 10143;
  hash = some hash;
  contract_address = none;
  agreement_id = none;
  action_key = none;
  submitted_at = none;
  connected_wallet = some (98 ∷ []);
  error = none;
  hidden = none;
}

reconcile_again_example :
    has_retry
      (reconcile
        (some wallet)
        10143
        (reconcile (some wallet) 10143 [] (entry ∷ [])).1
        (entry ∷ [])).0
    ≡ false
reconcile_again_example = reconcile_again (some wallet) 10143 [] (entry ∷ [])

abbrev post : Options
post = record { method = some (txt "POST"); body = none }

abbrev forbidden : Fetched ℕ
forbidden = answered 403 (Body.json 1 none)

abbrev signed_in : AuthState
signed_in = record {
  status = AuthStatus.authenticated;
  wallet = some wallet;
  error = none;
  csrf_token = some hash;
}

abbrev me : MeResponse
me = record (no_session) {
  authenticated = true;
  wallet_address = some wallet;
  csrf_token = some hash;
}

abbrev world : SignInWorld
world = record {
  chain_id = 1;
  switch_works = true;
  nonce = returned (Answer.value (some hash));
  sign = λ m. got hash;
  verify = returned (Answer.value me);
  confirm = returned (Answer.value me);
}

abbrev offline : SignInWorld
offline = record world { nonce = api_error 0 (txt "backend unavailable") }

signs_in : sign_in_session world ≡ got (some wallet, some hash)
unfolding sign_in_session ensure_chain object verified_of session_of has_session
signs_in = refl

sign_in_session-confirmed_example :
    (((1 == monad_chain_id) || true) ≡ true)
    × ((c : MeResponse) × ((object no_session world.confirm ≡ got c) × (has_session c ≡ true)))
sign_in_session-confirmed_example =
    sign_in_session-confirmed world (some wallet, some hash) signs_in

fails : is_authenticated (sign_in_as_connected (some wallet) offline signed_in).0.status ≡ false
unfolding sign_in_as_connected sign_in sign_in_session ensure_chain object
fails =
    sign_in_failed_refuses (Thrown.error (txt "backend unavailable"))
      (record (sign_out signed_in) { error = none; status = AuthStatus.signing })

sign_in_as_connected_forgets_example :
    ((sign_in_as_connected (some wallet) offline signed_in).0.csrf_token ≡ none)
    × ((sign_in_as_connected (some wallet) offline signed_in).0.wallet ≡ none)
sign_in_as_connected_forgets_example =
    sign_in_as_connected_forgets (some wallet) offline signed_in fails
