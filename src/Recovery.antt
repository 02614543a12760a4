-- ===== src/Recovery.antt =====
-- Reconciling restored transactions: frontend/src/lib/txRecovery.ts, the effect of
-- frontend/src/components/TxRecovery.tsx, and frontend/src/hooks/useAgreementCacheSync.ts.
pub mod Steps
pub mod Session
use shared_deposit_monad.Base.{
  ℕ, Bool, true, false, not, ◌&&◌, ◌||◌, Option, none, some, List, [], ◌∷◌, ◌++◌, Text, text_eq,
  lower, truthy, if◌then◌else◌, ◌==◌, has_text,
}
use shared_deposit_monad.Tx.Entry.{TxStatus, TxEntry}
use shared_deposit_monad.Diagnostics.{monad_chain_id}
use shared_deposit_monad.Stored.{should_refresh_cache}

unfoldable pub is_resumable : TxStatus → Bool
is_resumable TxStatus.broadcast = true
is_resumable TxStatus.pending_onchain = true
is_resumable TxStatus.refreshing_contract_state = true
is_resumable _ = false

-- Both wallets are known, and they differ.
unfoldable pub wallets_differ : Option Text → Option Text → Bool
wallets_differ none connected = false
wallets_differ (some w) none = false
wallets_differ (some w) (some c) =
    truthy (some w) && (truthy (some c) && not (text_eq (lower w) (lower c)))

unfoldable pub is_stale_for_session : TxEntry → Option Text → ℕ → Bool
unfolding is_resumable wallets_differ
is_stale_for_session e connected chain_id =
    if not (is_resumable e.status) || not (truthy e.hash)
    then false
    else if not (e.chain_id == monad_chain_id)
    then true
    else if not (chain_id == monad_chain_id)
    then true
    else wallets_differ e.connected_wallet connected

unfoldable pub should_resume : TxEntry → Option Text → ℕ → Bool
unfolding is_stale_for_session
should_resume e connected chain_id =
    is_resumable e.status && (truthy e.hash && not (is_stale_for_session e connected chain_id))

-- What the effect does: it removes an entry, or polls for the receipt of a hash.
pub data Step : Type 0 where
  remove : Text → Step
  retry_receipt : Text → Option Text → Step

-- The effect over the entries, with the set of the resumed identifiers: the steps and the new set.
unfoldable pub reconcile : Option Text → ℕ → List Text → List TxEntry → List Step × List Text
unfolding is_resumable is_stale_for_session should_resume has_text
reconcile connected chain_id resumed [] = ([], resumed)
reconcile connected chain_id resumed (e ∷ es) =
    let skipped = reconcile connected chain_id resumed es in
    let taken = reconcile connected chain_id (e.id ∷ resumed) es in
    if not (is_resumable e.status) || not (truthy e.hash)
    then skipped
    else if is_stale_for_session e connected chain_id
    then (Step.remove e.id ∷ skipped.0, skipped.1)
    else if not (should_resume e connected chain_id) || has_text resumed e.id
    then skipped
    else (Step.retry_receipt e.id e.hash ∷ taken.0, taken.1)

-- The effect of `useAgreementCacheSync`: does it ask for a refresh, and has it asked ever.
unfoldable pub cache_sync : (enabled requested : Bool) → Option Text → Option Text → Bool × Bool
unfolding should_refresh_cache
cache_sync enabled requested onchain cache =
    if not enabled || requested
    then (false, requested)
    else if not (should_refresh_cache onchain cache)
    then (false, requested)
    else (true, true)
