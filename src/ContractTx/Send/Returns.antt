-- ===== src/ContractTx/Send/Returns.antt =====
-- What a finished `send` of frontend/src/hooks/useContractTx.ts has done.
use shared_deposit_monad.Base.{
  ℕ, ◌*◌, ◌+◌, ◌≤◌, ◌≡◌, refl, inl, inr, false, Option, none, some, List, ◌++◌, arith, Text,
  Bool-cases,
}
use shared_deposit_monad.Tx.Entry.{TxEntry}
use shared_deposit_monad.ContractTx.Propagation.{Outcome, confirm_propagation_total, round_ms}
use shared_deposit_monad.ContractTx.Polling.{poll_classify, poll_interval_ms, poll_timeout_ms}
use shared_deposit_monad.ContractTx.Polling.Rounds.{poll_classify_total}
use shared_deposit_monad.ContractTx.Effects.{Effect}
use shared_deposit_monad.ContractTx.Send.{
  World, ContractTxRequest, Written, hashed, confirm_receipt, after_propagation, after,
  after_wallet, after_simulation, send, is_refused, shown_revert,
}

-- The waits of the loops really pause: the clocks of the rounds go on by 1.5 seconds at least.
pub record IsPaced (w : World) : Type 0 where
  pub rounds : (i : ℕ) → round_ms * i ≤ (w.rounds i).elapsed
  pub polls : (i : ℕ) → w.poll_start + poll_interval_ms * i ≤ (w.polls i).now

confirm_receipt_total :
    (w : World) (req : ContractTxRequest) (hash : Text)
    → IsPaced w
    → (r : List Effect × Option Text) × (confirm_receipt w req hash
          (poll_classify 42 (w.poll_start + poll_timeout_ms) w.polls false 0)
        ≡ some r)
unfolding confirm_receipt
confirm_receipt_total w req hash paced =
    let (result, k, le, e, ends) =
      poll_classify_total w.poll_start poll_timeout_ms 41 w.polls (omega arith) paced.polls in
    rw e (_, refl)

after_propagation_total :
    (w : World) (req : ContractTxRequest) (hash : Text) (out : Outcome)
    → IsPaced w
    → (r : List Effect × Option Text) × (after_propagation w req hash (some out) ≡ some r)
unfolding after_propagation
after_propagation_total w req hash Outcome.app_confirmed paced =
    confirm_receipt_total w req hash paced
after_propagation_total w req hash Outcome.broadcast_failed_not_propagated paced = (_, refl)
after_propagation_total w req hash Outcome.wallet_rpc_diverged paced = (_, refl)

after_total :
    (effs : List Effect) (m : Option (List Effect × Option Text))
    → (r : List Effect × Option Text) × (m ≡ some r)
    → (r : List Effect × Option Text) × (after effs m ≡ some r)
unfolding after
after_total effs none (r, e) = cc
after_total effs (some (more, result)) h = ((effs ++ more, result), refl)

after_wallet_total :
    (w : World) (req : ContractTxRequest) (answer : Written)
    → IsPaced w
    → (r : List Effect × Option Text) × (after_wallet w req answer ≡ some r)
unfolding after_wallet
after_wallet_total w req (Written.refused message) paced = (_, refl)
after_wallet_total w req (hashed hash) paced =
    let (out, k, le, e, shows) = confirm_propagation_total w.rounds paced.rounds in
    rw e (after_total _ _ (after_propagation_total w req hash out paced))

after_simulation_total :
    (w : World) (req : ContractTxRequest) (revert : Option Text)
    → IsPaced w
    → (r : List Effect × Option Text) × (after_simulation w req revert ≡ some r)
unfolding after_simulation
after_simulation_total w req (some revert) paced = (_, refl)
after_simulation_total w req none paced = after_total _ _ (after_wallet_total w req w.written paced)

-- Where the waits pause, `send` returns: neither of its loops runs out of the fuel it is given.
pub send_total :
    (snapshot : List TxEntry) (w : World) (req : ContractTxRequest)
    → IsPaced w
    → (r : List Effect × Option Text) × (send snapshot w req ≡ some r)
unfolding send
send_total snapshot w req paced = elim (Bool-cases (is_refused snapshot req)) [
  | inl h ↦ rw h (_, refl)
  | inr h ↦ rw h (after_simulation_total w req (shown_revert w.simulation) paced)
]
