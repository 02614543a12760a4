-- ===== src/ContractTx/Provider.antt =====
-- What the RPC clients and the wallet answer (viem and wagmi are parameters of the model): a call
-- replies or throws.
use shared_deposit_monad.Base.{
  ℕ, Bool, true, false, Option, none, some, is_some, if◌then◌else◌, ltb, ◌==◌,
}
use shared_deposit_monad.Diagnostics.{monad_chain_id}

-- A call that was awaited.
pub data Reply (A : Type 0) : Type 0 where
  reply : A → Reply A
  threw : Reply A

-- What the program reads of a transaction.
pub record ChainTx : Type 0 where
  pub nonce : ℕ

-- `success` is `receipt.status === 'success'`.
pub record Receipt : Type 0 where
  pub success : Bool

-- `appSeesTx`: no client at all, or the answer to `getTransaction`.
unfoldable pub app_sees_tx : Option (Reply ChainTx) → Bool
app_sees_tx none = false
app_sees_tx (some (reply tx)) = true
app_sees_tx (some threw) = false

-- `walletSeesTx`: the answer of the wallet provider, null where it knows no such transaction.
unfoldable pub wallet_sees_tx : Reply (Option ChainTx) → Bool
wallet_sees_tx (reply tx) = is_some tx
wallet_sees_tx threw = false

pub data Classification : Type 0 where
  mined_success mined_reverted : Receipt → Classification
  nonce_blocked : (nonce latest : ℕ) → Classification
  pending not_found : Classification

-- The answers that one inspection of a hash would get from the public client.
pub record ChainView : Type 0 where
  -- the client, with `client.chain?.id`
  pub client : Option (Option ℕ)
  pub receipt : Reply Receipt
  pub tx : Reply ChainTx
  -- `getTransactionCount` of the sender at the latest block
  pub count : Reply ℕ

abbrev pub on_chain : Option ℕ → Bool
on_chain none = false
on_chain (some id) = id == monad_chain_id

-- The part of `inspectOnce` after the receipt was not found.
unfoldable pub inspect_mempool : Reply ChainTx → Reply ℕ → Classification
inspect_mempool threw count = not_found
inspect_mempool (reply tx) threw = not_found
inspect_mempool (reply tx) (reply latest) =
    if ltb latest tx.nonce then nonce_blocked tx.nonce latest else pending

unfoldable pub inspect_receipt : Reply Receipt → Classification → Classification
inspect_receipt (reply r) otherwise = if r.success then mined_success r else mined_reverted r
inspect_receipt threw otherwise = otherwise

-- `inspectOnce`
unfoldable pub inspect_once : ChainView → Reply Classification
unfolding inspect_mempool inspect_receipt
inspect_once v = elim v.client [
  | none ↦ threw
  | some chain ↦
      if on_chain chain
      then reply (inspect_receipt v.receipt (inspect_mempool v.tx v.count))
      else threw
]
