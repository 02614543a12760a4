-- ===== src/ContractTx/Send.antt =====
-- `applyClassification`, `send` and `retryReceipt` of frontend/src/hooks/useContractTx.ts.
pub mod Returns
pub mod Honest
pub mod Verified
pub mod Touches
pub mod Locking
use shared_deposit_monad.Base.{
  ℕ, ◌+◌, Bool, true, false, not, Option, none, some, List, [], ◌∷◌, ◌++◌, Text, truthy, or_else,
  if◌then◌else◌,
}
use shared_deposit_monad.Tx.{is_action_locked}
use shared_deposit_monad.Tx.Entry.{TxStatus, TxEntry, Draft, Patch}
use shared_deposit_monad.ContractTx.Provider.{Reply, reply, threw, Classification}
use shared_deposit_monad.ContractTx.Propagation.{Round, Outcome, confirm_propagation}
use shared_deposit_monad.ContractTx.Polling.{Poll, poll_classify, poll_timeout_ms}
use shared_deposit_monad.ContractTx.Effects.{
  RecordInput, Effect, record_transaction, reverify_transaction, patch, opened,
}
use shared_deposit_monad.ContractTx.Messages.{
  reverted_text, blocked_text, not_found_text, pending_text, unobserved_text, not_propagated_text,
  diverged_text, would_revert_text, friendly_write_error, is_rejection, WriteError, decode_revert,
}

-- The direct contract read that a request may ask for: it resolves or throws a message.
pub data Verify : Type 0 where
  resolved : Bool → Verify
  failed : Text → Verify

-- `{ status, hash }`, `{ status, hash, error }`
abbrev pub at_status : TxStatus → Text → Patch
at_status status hash = record { status = status; hash = some hash; error = none }

abbrev pub with_error : TxStatus → Text → Text → Patch
with_error status hash message = record { status = status; hash = some hash; error = some message }

-- What follows a mined transaction, with the contract read where there is one.
unfoldable pub check_mined : Text → Text → Option Verify → List Effect × Bool
check_mined id hash none = (patch id (at_status TxStatus.verified hash) ∷ [], true)
check_mined id hash (some (resolved true)) = (
  patch id (at_status TxStatus.refreshing_contract_state hash)
      ∷ patch id (at_status TxStatus.verified hash)
      ∷ [],
  true,
)
check_mined id hash (some (resolved false)) = (
  patch id (at_status TxStatus.refreshing_contract_state hash)
      ∷ patch id (with_error TxStatus.timeout_or_rpc_error hash unobserved_text)
      ∷ [],
  false,
)
check_mined id hash (some (failed message)) = (
  patch id (at_status TxStatus.refreshing_contract_state hash)
      ∷ patch id (with_error TxStatus.timeout_or_rpc_error hash message)
      ∷ [],
  false,
)

unfoldable pub classified : Text → Text → Option Verify → Classification → List Effect × Bool
unfolding check_mined
classified id hash verify (Classification.mined_reverted r) =
    (patch id (with_error TxStatus.mined_reverted hash reverted_text) ∷ [], false)
classified id hash verify (Classification.nonce_blocked nonce latest) =
    (patch id (with_error TxStatus.nonce_blocked hash (blocked_text nonce latest)) ∷ [], false)
classified id hash verify Classification.not_found =
    (patch id (with_error TxStatus.not_found hash not_found_text) ∷ [], false)
classified id hash verify Classification.pending =
    (patch id (with_error TxStatus.timeout_or_rpc_error hash pending_text) ∷ [], false)
classified id hash verify (Classification.mined_success r) =
    let (effs, done) = check_mined id hash verify in
    (patch id (at_status TxStatus.mined_success hash) ∷ effs, done)

unfoldable pub apply_classification :
    ℕ → Text → Text → Option Verify → Classification → List Effect × Bool
unfolding classified
apply_classification chain_id id hash verify result =
    let (effs, done) = classified id hash verify result in
    (reverify_transaction chain_id hash ∷ effs, done)

pub record ContractTxRequest : Type 0 where
  pub label : Text
  pub function_name : Text
  pub address : Text
  pub value : Option ℕ
  pub action_key : Option Text
  pub agreement_id : Option Text
  -- Is there a contract read, and what it will answer.
  pub verify : Option Verify

-- The answer of `simulateContract`, and of the wallet to `writeContractAsync`.
pub data Simulation : Type 0 where
  passed : Simulation
  refused : WriteError → Simulation

pub data Written : Type 0 where
  hashed : Text → Written
  refused : (message : Text) → Written

-- What a call of `send` meets: the hook's own values, and the answers of all that it awaits.
pub record World : Type 0 where
  pub account : Option Text
  pub chain_id : ℕ
  -- The next identifier, and the time of the entry.
  pub fresh_id : Text
  pub now : ℕ
  pub simulation : Simulation
  pub written : Written
  pub rounds : ℕ → Round
  pub poll_start : ℕ
  pub polls : ℕ → Poll

unfoldable pub is_refused : List TxEntry → ContractTxRequest → Bool
is_refused snapshot req = elim req.action_key [
  | none ↦ false
  | some key ↦ if truthy (some key) then is_action_locked key snapshot else false
]

-- The revert that the simulation shows, if it shows one; an empty text counts as none.
unfoldable pub shown_revert : Simulation → Option Text
shown_revert Simulation.passed = none
shown_revert (Simulation.refused e) = elim (decode_revert e) [
  | none ↦ none
  | some revert ↦ if truthy (some revert) then some revert else none
]

unfoldable pub revert_entry : World → ContractTxRequest → Text → Draft
revert_entry w req revert = record {
  label = req.label;
  function_name = req.function_name;
  status = TxStatus.mined_reverted;
  chain_id = w.chain_id;
  hash = none;
  contract_address = some req.address;
  agreement_id = req.agreement_id;
  action_key = none;
  submitted_at = some w.now;
  connected_wallet = none;
  error = some (would_revert_text revert);
  hidden = none;
}

unfoldable pub waiting_entry : World → ContractTxRequest → Draft
waiting_entry w req = record {
  label = req.label;
  function_name = req.function_name;
  status = TxStatus.waiting_for_wallet;
  chain_id = w.chain_id;
  hash = none;
  contract_address = some req.address;
  agreement_id = req.agreement_id;
  action_key = req.action_key;
  submitted_at = some w.now;
  connected_wallet = w.account;
  error = none;
  hidden = none;
}

unfoldable pub record_input : World → ContractTxRequest → Text → RecordInput
record_input w req hash = record {
  chain_id = w.chain_id;
  contract_address = req.address;
  tx_hash = hash;
  function_name = req.function_name;
  agreement_id = req.agreement_id;
  claim_id = none;
  value_wei = or_else req.value 0;
}

-- Receipt polling and its outcome: the end of `send`, once the official RPC sees the transaction.
unfoldable pub confirm_receipt :
    World → ContractTxRequest → Text → Option Classification → Option (List Effect × Option Text)
confirm_receipt w req hash none = none
confirm_receipt w req hash (some result) =
    let (effs, done) = apply_classification w.chain_id w.fresh_id hash req.verify result in
    some (
      patch w.fresh_id (at_status TxStatus.pending_onchain hash) ∷ effs,
      if done then some hash else none,
    )

-- The outcome of the propagation check; `none` is a loop that ran out of fuel.
unfoldable pub after_propagation :
    World → ContractTxRequest → Text → Option Outcome → Option (List Effect × Option Text)
after_propagation w req hash none = none
after_propagation w req hash (some Outcome.broadcast_failed_not_propagated) = some (
  patch w.fresh_id (with_error TxStatus.broadcast_failed_not_propagated hash not_propagated_text)
      ∷ [],
  none,
)
after_propagation w req hash (some Outcome.wallet_rpc_diverged) =
    some (patch w.fresh_id (with_error TxStatus.wallet_rpc_diverged hash diverged_text) ∷ [], none)
after_propagation w req hash (some Outcome.app_confirmed) =
    confirm_receipt w req hash (poll_classify 42 (w.poll_start + poll_timeout_ms) w.polls false 0)

-- Puts effects in front of a result.
unfoldable pub after :
    List Effect → Option (List Effect × Option Text) → Option (List Effect × Option Text)
after effs none = none
after effs (some (more, result)) = some (effs ++ more, result)

-- From the wallet's answer on.
unfoldable pub after_wallet :
    World → ContractTxRequest → Written → Option (List Effect × Option Text)
after_wallet w req (Written.refused message) = some (
  patch w.fresh_id (
        if is_rejection message
        then record { status = TxStatus.user_rejected; hash = none; error = none }
        else record {
          status = TxStatus.timeout_or_rpc_error;
          hash = none;
          error = some (friendly_write_error message);
        })
      ∷ [],
  none,
)
after_wallet w req (hashed hash) =
    after
      (patch w.fresh_id (at_status TxStatus.broadcast_requested hash)
        ∷ record_transaction (record_input w req hash)
        ∷ [])
      (after_propagation w req hash (confirm_propagation 21 w.rounds 0))

-- From the preflight simulation on: a shown revert is tracked, and the wallet is not asked.
unfoldable pub after_simulation :
    World → ContractTxRequest → Option Text → Option (List Effect × Option Text)
after_simulation w req (some revert) =
    some (opened w.fresh_id (revert_entry w req revert) ∷ [], none)
after_simulation w req none =
    after (opened w.fresh_id (waiting_entry w req) ∷ []) (after_wallet w req w.written)

-- `send`: the effects and the returned hash. The list is the one of the render that made the
-- callback, and the test of the lock reads no other.
unfoldable pub send : List TxEntry → World → ContractTxRequest → Option (List Effect × Option Text)
send snapshot w req =
    if is_refused snapshot req
    then some ([], none)
    else after_simulation w req (shown_revert w.simulation)

-- `retryReceipt`, with the fuel that its window needs: it polls an old hash and asks for no contract
-- read.
unfoldable pub retry_receipt :
    ℕ → ℕ → Text → Text → (start window : ℕ) → (ℕ → Poll) → Option (List Effect)
retry_receipt fuel chain_id id hash start window polls =
    elim (poll_classify fuel (start + window) polls false 0) [
      | none ↦ none
      | some result ↦ some (
          patch id (at_status TxStatus.pending_onchain hash)
          ∷ (apply_classification chain_id id hash none result).0)
    ]
