-- ===== src/Diagnostics/Propagation.antt =====
-- `classifyPropagation` of frontend/src/lib/diagnostics.ts.
use shared_deposit_monad.Base.{ℕ, Bool, leb, if◌then◌else◌}

pub data PropagationDecision : Type 0 where
  app_confirmed wallet_rpc_diverged application_rpc_delayed : PropagationDecision
  broadcast_failed_not_propagated keep_polling : PropagationDecision

unfoldable pub classify_propagation : Bool → Bool → ℕ → ℕ → ℕ → PropagationDecision
classify_propagation wallet_seen app_seen elapsed_ms window_ms extended_ms =
    if app_seen
    then app_confirmed
    else if wallet_seen
    then (if leb extended_ms elapsed_ms then wallet_rpc_diverged else application_rpc_delayed)
    else if leb window_ms elapsed_ms
    then broadcast_failed_not_propagated
    else keep_polling
