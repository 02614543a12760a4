-- ===== src/ContractTx/Polling.antt =====
-- `pollClassify` of frontend/src/hooks/useContractTx.ts.
pub mod Explains
pub mod Rounds
use shared_deposit_monad.Base.{
  ℕ, zero, suc, ◌+◌, ◌*◌, ◌≤◌, ◌<◌, ◌≡◌, refl, ◌⊎◌, inl, inr, ◌≢◌, Bool, true, false, ◌||◌, Option,
  none, some, arith, Option-cases, Bool-cases, if◌then◌else◌, ltb, dec_lt,
}
use shared_deposit_monad.Diagnostics.{monad_chain_id}
use shared_deposit_monad.ContractTx.Provider.{
  Reply, reply, threw, ChainTx, Receipt, ChainView, Classification, inspect_once, inspect_receipt,
  inspect_mempool,
}

abbrev pub poll_interval_ms : ℕ
poll_interval_ms = 1500

abbrev pub poll_timeout_ms : ℕ
poll_timeout_ms = 60000

abbrev pub recovery_window_ms : ℕ
recovery_window_ms = 25000

-- One round: the answers to the inspection, and the time when it ended.
pub record Poll : Type 0 where
  pub view : ChainView
  pub now : ℕ

-- `current`: a thrown inspection is a null.
unfoldable pub current : Poll → Option Classification
current p = elim (inspect_once p.view) [ reply c ↦ some c | threw ↦ none ]

unfoldable pub is_definitive : Classification → Bool
is_definitive (Classification.mined_success r) = true
is_definitive (Classification.mined_reverted r) = true
is_definitive (Classification.nonce_blocked n l) = true
is_definitive _ = false

unfoldable pub is_pending : Option Classification → Bool
is_pending (some Classification.pending) = true
is_pending _ = false

-- The result once the deadline has passed.
unfoldable pub expired : Bool → Option Classification → Classification
expired true c = Classification.pending
expired false (some Classification.not_found) = Classification.not_found
expired false _ = Classification.pending

-- The tests of one round, `none` where the loop goes on.
unfoldable pub round : ℕ → Bool → Option Classification → ℕ → Option Classification
unfolding expired is_definitive
round deadline ever_seen none now = if ltb deadline now then some (expired ever_seen none) else none
round deadline ever_seen (some c) now =
    if is_definitive c
    then some c
    else if ltb deadline now
    then some (expired ever_seen (some c))
    else none

-- The loop from round `i` on; `none` means that the fuel ran out.
unfoldable pub poll_classify : ℕ → ℕ → (ℕ → Poll) → Bool → ℕ → Option Classification
poll_classify zero deadline polls ever_seen i = none
poll_classify (suc fuel) deadline polls ever_seen i =
    let c = current (polls i) in
    let seen = ever_seen || is_pending c in
    let rest = poll_classify fuel deadline polls seen (suc i) in
    elim (round deadline seen c (polls i).now) [ some out ↦ some out | none ↦ rest ]
