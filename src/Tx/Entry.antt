-- ===== src/Tx/Entry.antt =====
-- The transaction entries of frontend/src/app/TxContext.tsx. An optional field is an `Option`,
-- `none` where the property is missing or undefined.
use shared_deposit_monad.Base.{ℕ, Bool, Option, none, some, Text}

pub data TxStatus : Type 0 where
  preparing waiting_for_wallet user_rejected broadcast_requested broadcast : TxStatus
  pending_onchain nonce_blocked mined_success mined_reverted : TxStatus
  refreshing_contract_state verified replaced not_found : TxStatus
  broadcast_failed_not_propagated wallet_rpc_diverged application_rpc_delayed : TxStatus
  timeout_or_rpc_error : TxStatus

pub record TxEntry : Type 0 where
  pub id : Text
  pub label : Text
  pub function_name : Text
  pub status : TxStatus
  pub chain_id : ℕ
  pub hash : Option Text
  pub contract_address : Option Text
  pub agreement_id : Option Text
  pub action_key : Option Text
  pub submitted_at : Option ℕ
  pub connected_wallet : Option Text
  pub error : Option Text
  pub hidden : Option Bool

-- `Omit<TxEntry, 'id'>`
pub record Draft : Type 0 where
  pub label : Text
  pub function_name : Text
  pub status : TxStatus
  pub chain_id : ℕ
  pub hash : Option Text
  pub contract_address : Option Text
  pub agreement_id : Option Text
  pub action_key : Option Text
  pub submitted_at : Option ℕ
  pub connected_wallet : Option Text
  pub error : Option Text
  pub hidden : Option Bool

-- `{ id, ...entry }`
unfoldable pub named : Text → Draft → TxEntry
named id d = record {
  id = id;
  label = d.label;
  function_name = d.function_name;
  status = d.status;
  chain_id = d.chain_id;
  hash = d.hash;
  contract_address = d.contract_address;
  agreement_id = d.agreement_id;
  action_key = d.action_key;
  submitted_at = d.submitted_at;
  connected_wallet = d.connected_wallet;
  error = d.error;
  hidden = d.hidden;
}

-- The patches that the program hands to `update`: each sets a status, and some a hash and an error.
-- The other properties of `Partial<TxEntry>` are in no patch of the program.
pub record Patch : Type 0 where
  pub status : TxStatus
  pub hash : Option Text
  pub error : Option Text

-- `{ ...entry, ...patch }`
unfoldable pub apply_patch : Patch → TxEntry → TxEntry
apply_patch p e = record e {
  status = p.status;
  hash = elim p.hash [ none ↦ e.hash | some h ↦ some h ];
  error = elim p.error [ none ↦ e.error | some m ↦ some m ];
}

-- A call of one of the operations of the context.
pub data TxOp : Type 0 where
  track : Text → Draft → TxOp
  update : Text → Patch → TxOp
  remove hide : Text → TxOp
  clear : TxOp
