-- ===== src/ContractTx/Send/Verified.antt =====
-- VERIFIED and the returned hash of `send` in frontend/src/hooks/useContractTx.ts.
use shared_deposit_monad.Base.{◌+◌, ◌≡◌, ◌≢◌, false, Option, none, some, List, Text}
use shared_deposit_monad.Tx.Entry.{TxStatus}
use shared_deposit_monad.ContractTx.Provider.{Classification, Receipt}
use shared_deposit_monad.ContractTx.Propagation.{Outcome, confirm_propagation}
use shared_deposit_monad.ContractTx.Polling.{poll_classify, poll_timeout_ms}
use shared_deposit_monad.ContractTx.Effects.{Effect}
use shared_deposit_monad.ContractTx.Send.{World, ContractTxRequest, hashed}
use shared_deposit_monad.ContractTx.Send.Honest.{last_status, IsConfirmed}

-- What a finished `send` reports. With a hash: the wallet returned it, the official RPC saw it, a
-- receipt shows success, the contract read, if any, shows the change, and the entry ends as VERIFIED.
-- With no hash: the entry does not end as VERIFIED.
abbrev pub Reports : World → ContractTxRequest → List Effect × Option Text → Type 0
Reports w req (effs, some h) =
    (w.written ≡ hashed h)
    × (confirm_propagation 21 w.rounds 0 ≡ some Outcome.app_confirmed)
    × (r : Receipt) × (poll_classify 42 (w.poll_start + poll_timeout_ms) w.polls false 0
        ≡ some (Classification.mined_success r))
    × IsConfirmed req.verify
    × (last_status none effs ≡ some TxStatus.verified)
Reports w req (effs, none) = last_status none effs ≢ some TxStatus.verified
