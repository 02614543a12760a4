-- ===== src/Examples/Writes.antt =====
-- A write of frontend/src/hooks/useContractTx.ts and its entry, at concrete inputs.
use shared_deposit_monad.Base.{
  ℕ, zero, suc, ◌+◌, ◌*◌, ◌≤◌, ◌<◌, ◌≡◌, refl, true, false, not, Option, none, some, List, [], ◌∷◌,
  ◌++◌, Text, arith, opt_eq, text_eq,
}
use shared_deposit_monad.Tx.{is_action_locked, holds, track, run, is_terminal}
use shared_deposit_monad.Tx.Entry.{TxStatus, TxEntry, Draft, Patch, TxOp, named}
use shared_deposit_monad.Tx.Locks.{is_action_locked-track_full}
use shared_deposit_monad.Tx.Sessions.{run_keeps_lock}
use shared_deposit_monad.Diagnostics.{monad_chain_id}
use shared_deposit_monad.ContractTx.Provider.{
  reply, threw, ChainView, Classification, wallet_sees_tx, app_sees_tx,
}
use shared_deposit_monad.ContractTx.Propagation.{
  Round, Outcome, confirm_propagation, confirm_propagation_forgets_wallet,
}
use shared_deposit_monad.ContractTx.Polling.{Poll, poll_classify}
use shared_deposit_monad.ContractTx.Polling.Rounds.{
  Ends, poll_classify_total, poll_classify_count_fails,
}
use shared_deposit_monad.ContractTx.Effects.{Effect, tx_ops}
use shared_deposit_monad.ContractTx.Send.{
  ContractTxRequest, World, Simulation, Verify, hashed, send, shown_revert,
}
use shared_deposit_monad.ContractTx.Send.Returns.{IsPaced, send_total}
use shared_deposit_monad.ContractTx.Send.Honest.{last_status}
use shared_deposit_monad.ContractTx.Send.Locking.{send_lock}

abbrev key : Text
key = 107 ∷ []

abbrev draft : Draft
draft = record {
  label = 68 ∷ [];
  function_name = 100 ∷ [];
  status = TxStatus.waiting_for_wallet;
  chain_id = 10143;
  hash = none;
  contract_address = none;
  agreement_id = none;
  action_key = some key;
  submitted_at = none;
  connected_wallet = none;
  error = none;
  hidden = none;
}

abbrev other_draft : Draft
other_draft = record draft { action_key = none }

abbrev first_id : Text
first_id = 49 ∷ []

abbrev second_id : Text
second_id = 50 ∷ []

abbrev with_hash : TxEntry
with_hash = record (named first_id draft) { hash = some (48 ∷ []) }

abbrev done : Patch
done = record { status = TxStatus.verified; hash = none; error = none }

abbrev mined : ChainView
mined = record {
  client = some (some monad_chain_id);
  receipt = reply (record { success = true });
  tx = reply (record { nonce = 3 });
  count = reply 4;
}

abbrev uncounted : ChainView
uncounted = record {
  client = some (some monad_chain_id);
  receipt = threw;
  tx = reply (record { nonce = 3 });
  count = threw;
}

abbrev seen : ℕ → Round
seen i = record {
  app = some (reply (record { nonce = 3 }));
  wallet = reply (some (record { nonce = 3 }));
  elapsed = 1500 * i;
}

abbrev polls : ℕ → Poll
polls i = record { view = mined; now = 1500 * i }

abbrev world : World
world = record {
  account = some (97 ∷ []);
  chain_id = 10143;
  fresh_id = second_id;
  now = 5;
  simulation = Simulation.passed;
  written = hashed (48 ∷ []);
  rounds = seen;
  poll_start = 0;
  polls = polls;
}

abbrev request : ContractTxRequest
request = record {
  label = 68 ∷ [];
  function_name = 100 ∷ [];
  address = 48 ∷ [];
  value = some 5;
  action_key = some key;
  agreement_id = none;
  verify = some (Verify.resolved true);
}

world-IsPaced : IsPaced world
world-IsPaced = record { rounds = λ i. omega arith; polls = λ i. omega arith }

sent : (r : List Effect × Option Text) × (send [] world request ≡ some r)
sent = send_total [] world request world-IsPaced

send_total_example : (r : List Effect × Option Text) × (send [] world request ≡ some r)
send_total_example = send_total [] world request world-IsPaced

no_revert : shown_revert Simulation.passed ≡ none
unfolding shown_revert
no_revert = refl

send_lock_example :
    (s : TxStatus) × (last_status none sent.0.0 ≡ some s)
    × (is_action_locked key (run (tx_ops sent.0.0) []) ≡ not (is_terminal s))
unfolding is_action_locked
send_lock_example =
    send_lock [] world request key sent.0 (omega arith) tt refl refl no_revert sent.1

run_keeps_lock_example :
    is_action_locked key (run (TxOp.hide first_id ∷ TxOp.clear ∷ []) (named first_id draft ∷ []))
    ≡ true
unfolding holds named text_eq opt_eq is_terminal
run_keeps_lock_example =
    run_keeps_lock first_id key (TxOp.hide first_id ∷ TxOp.clear ∷ []) (named first_id draft ∷ [])
      (omega arith) (tt, (tt, tt)) refl

abbrev finished : TxEntry
finished = named second_id other_draft

abbrev eleven : List TxEntry
eleven =
    finished ∷ finished ∷ finished ∷ finished ∷ finished ∷ finished ∷ finished ∷ finished ∷ finished
    ∷ finished ∷ finished ∷ []

is_action_locked-track_full_example :
    (is_action_locked key (eleven ++ named first_id draft ∷ []) ≡ true)
    × (is_action_locked key (track second_id other_draft (eleven ++ named first_id draft ∷ []))
        ≡ false)
unfolding holds named is_action_locked opt_eq text_eq is_terminal
is_action_locked-track_full_example =
    is_action_locked-track_full second_id key other_draft eleven (named first_id draft) refl refl
      refl refl

poll_classify_total_example :
    (out : Classification) × (k : ℕ) × (k ≤ 41)
    × (poll_classify 42 (0 + 60000) polls false 0 ≡ some out)
    × Ends out (0 + 60000) polls k
poll_classify_total_example = poll_classify_total 0 60000 41 polls (omega arith) (λ i. omega arith)

poll_classify_count_fails_example :
    poll_classify 42 60000 (λ i. record { view = uncounted; now = 1500 * i }) false 0
    ≡ some Classification.not_found
poll_classify_count_fails_example =
    poll_classify_count_fails 60000 (λ i. record { view = uncounted; now = 1500 * i }) 42 41
      (omega arith) (omega arith) (λ j. (record { nonce = 3 }, refl, refl, refl, refl))

-- The wallet's provider knows the transaction until the tenth round.
abbrev forgetting : ℕ → Round
forgetting zero = record { app = none; wallet = reply (some (record { nonce = 3 })); elapsed = 0 }
forgetting (suc i) = record { app = none; wallet = threw; elapsed = 15000 }

known_early :
    (j : ℕ)
    → j < 1
    → (wallet_sees_tx (forgetting j).wallet ≡ true)
      × (app_sees_tx (forgetting j).app ≡ false)
      × ((forgetting j).elapsed < 30000)
unfolding wallet_sees_tx app_sees_tx
known_early zero h = (refl, refl, omega arith)
known_early (suc j) h = absurd (omega arith)

confirm_propagation_forgets_wallet_example :
    confirm_propagation 21 forgetting 0 ≡ some Outcome.broadcast_failed_not_propagated
unfolding wallet_sees_tx app_sees_tx
confirm_propagation_forgets_wallet_example =
    confirm_propagation_forgets_wallet forgetting 21 1 (omega arith) known_early refl refl
      (omega arith)
