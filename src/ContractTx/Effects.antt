-- ===== src/ContractTx/Effects.antt =====
-- What a write does to the outside: calls of the transaction context, and the two backend calls that
-- nothing waits for. The effects are in the order of the calls.
use shared_deposit_monad.Base.{ℕ, Option, List, [], ◌∷◌, Text}
use shared_deposit_monad.Tx.Entry.{Draft, Patch, TxOp}

-- `RecordTransactionInput` of frontend/src/lib/txPersistence.ts
pub record RecordInput : Type 0 where
  pub chain_id : ℕ
  pub contract_address : Text
  pub tx_hash : Text
  pub function_name : Text
  pub agreement_id : Option Text
  pub claim_id : Option Text
  pub value_wei : ℕ

pub data Effect : Type 0 where
  tx : TxOp → Effect
  record_transaction : RecordInput → Effect
  reverify_transaction : ℕ → Text → Effect

-- The calls of the transaction context among the effects.
abbrev pub tx_ops : List Effect → List TxOp
tx_ops [] = []
tx_ops (tx op ∷ effs) = op ∷ tx_ops effs
tx_ops (_ ∷ effs) = tx_ops effs

-- `update(id, patch)`
abbrev pub patch : Text → Patch → Effect
patch id p = tx (TxOp.update id p)

-- `track(entry)`, with the identifier that it returns
abbrev pub opened : Text → Draft → Effect
opened id d = tx (TxOp.track id d)
