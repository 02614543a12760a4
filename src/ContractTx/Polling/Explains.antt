-- ===== src/ContractTx/Polling/Explains.antt =====
-- What one inspection of frontend/src/hooks/useContractTx.ts says of the chain.
use shared_deposit_monad.Base.{
  ℕ, ◌≤◌, ◌<◌, ◌≡◌, refl, ◌⊎◌, inl, inr, true, false, some, arith, Bool-cases, ltb,
}
use shared_deposit_monad.ContractTx.Provider.{
  Reply, reply, threw, ChainTx, Receipt, ChainView, Classification, inspect_once, inspect_receipt,
  inspect_mempool,
}
use shared_deposit_monad.ContractTx.Polling.{Poll, current}

-- What a classification says of the answers of the round that gave it.
abbrev pub ExplainsParts : Classification → Reply Receipt → Reply ChainTx → Reply ℕ → Type 0
ExplainsParts (Classification.mined_success r) receipt tx count =
    (receipt ≡ reply r) × (r.success ≡ true)
ExplainsParts (Classification.mined_reverted r) receipt tx count =
    (receipt ≡ reply r) × (r.success ≡ false)
ExplainsParts (Classification.nonce_blocked n l) receipt tx count =
    (receipt ≡ threw) × (tx ≡ reply (record { nonce = n })) × (count ≡ reply l) × (l < n)
ExplainsParts Classification.pending receipt tx count =
    (receipt ≡ threw) × (t : ChainTx) × (l : ℕ) × (tx ≡ reply t) × (count ≡ reply l) × (t.nonce ≤ l)
ExplainsParts Classification.not_found receipt tx count =
    (receipt ≡ threw) × ((tx ≡ threw) ⊎ (count ≡ threw))

abbrev pub Explains : Classification → ChainView → Type 0
Explains c v = ExplainsParts c v.receipt v.tx v.count

inspect_parts :
    (receipt : Reply Receipt) (tx : Reply ChainTx) (count : Reply ℕ)
    → ExplainsParts (inspect_receipt receipt (inspect_mempool tx count)) receipt tx count
unfolding inspect_receipt inspect_mempool
inspect_parts (reply r) tx count = elim (Bool-cases r.success) [
  | inl h ↦ rw h (refl, refl)
  | inr h ↦ rw h (refl, refl)
]
inspect_parts threw threw count = (refl, inl refl)
inspect_parts threw (reply tx) threw = (refl, inr refl)
inspect_parts threw (reply tx) (reply l) = elim (Bool-cases (ltb l tx.nonce)) [
  | inl h ↦ rw h (refl, refl, refl, ground arith)
  | inr h ↦ rw h (refl, tx, l, refl, refl, ground arith)
]

-- An inspection that does not throw explains the answers that it got.
pub inspect_once-Explains :
    (v : ChainView) (c : Classification) → inspect_once v ≡ reply c → Explains c v
unfolding inspect_once
inspect_once-Explains v c h =
    let e : inspect_receipt v.receipt (inspect_mempool v.tx v.count) ≡ c = ground arith in
    rw e at (inspect_parts v.receipt v.tx v.count)

pub current-Explains : (p : Poll) (c : Classification) → current p ≡ some c → Explains c p.view
unfolding current
current-Explains p c h = inspect_once-Explains p.view c (ground arith)
