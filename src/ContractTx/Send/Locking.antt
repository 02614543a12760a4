-- ===== src/ContractTx/Send/Locking.antt =====
-- The single-flight lock over a whole `send` of frontend/src/hooks/useContractTx.ts.
use shared_deposit_monad.Base.{
  ◌<◌, ◌≡◌, refl, sym, ap, subst, ◌∙◌, false, not, Option, none, some, List, [], ◌∷◌, arith, Text,
  opt_eq_refl, All, All-append, length, take_all, some_inj,
}
use shared_deposit_monad.Tx.{is_terminal, is_action_locked, track, run_op, run, max_entries}
use shared_deposit_monad.Tx.Entry.{TxStatus, TxEntry, Draft, TxOp, named}
use shared_deposit_monad.ContractTx.Provider.{Classification}
use shared_deposit_monad.ContractTx.Propagation.{Outcome, confirm_propagation}
use shared_deposit_monad.ContractTx.Effects.{Effect, opened, tx_ops}
use shared_deposit_monad.ContractTx.Send.{
  World, ContractTxRequest, Written, hashed, confirm_receipt, after_propagation, after,
  after_wallet, after_simulation, send, is_refused, shown_revert, waiting_entry,
}
use shared_deposit_monad.ContractTx.Send.Honest.{last_status}
use shared_deposit_monad.ContractTx.Send.Touches.{
  Touches, status_after, last_status-status_after, IsNew, run-Touches, apply_classification-Touches,
}

-- A result whose effects touch one entry only.
abbrev OnlyTouches : Text → List Effect × Option Text → Type 0
OnlyTouches id r = All (Touches id) r.0

after-OnlyTouches :
    (id : Text) (effs : List Effect) (m : Option (List Effect × Option Text))
    (r : List Effect × Option Text)
    → All (Touches id) effs
    → ((q : List Effect × Option Text) → m ≡ some q → OnlyTouches id q)
    → after effs m ≡ some r
    → OnlyTouches id r
unfolding after
after-OnlyTouches id effs none r h k e = cc
after-OnlyTouches id effs (some q) r h k e =
    subst (OnlyTouches id) (some_inj e) (All-append (Touches id) effs q.0 h (k q refl))

confirm_receipt-OnlyTouches :
    (w : World) (req : ContractTxRequest) (hash : Text) (o : Option Classification)
    (r : List Effect × Option Text)
    → confirm_receipt w req hash o ≡ some r
    → OnlyTouches w.fresh_id r
unfolding confirm_receipt
confirm_receipt-OnlyTouches w req hash none r e = cc
confirm_receipt-OnlyTouches w req hash (some c) r e =
    subst (OnlyTouches w.fresh_id) (some_inj e)
      (refl, apply_classification-Touches w.chain_id w.fresh_id hash req.verify c)

after_propagation-OnlyTouches :
    (w : World) (req : ContractTxRequest) (hash : Text) (o : Option Outcome)
    (r : List Effect × Option Text)
    → after_propagation w req hash o ≡ some r
    → OnlyTouches w.fresh_id r
unfolding after_propagation
after_propagation-OnlyTouches w req hash none r e = cc
after_propagation-OnlyTouches w req hash (some Outcome.app_confirmed) r e =
    confirm_receipt-OnlyTouches w req hash _ r e
after_propagation-OnlyTouches w req hash (some Outcome.broadcast_failed_not_propagated) r e =
    subst (OnlyTouches w.fresh_id) (some_inj e) (refl, tt)
after_propagation-OnlyTouches w req hash (some Outcome.wallet_rpc_diverged) r e =
    subst (OnlyTouches w.fresh_id) (some_inj e) (refl, tt)

after_wallet-OnlyTouches :
    (w : World) (req : ContractTxRequest) (answer : Written) (r : List Effect × Option Text)
    → after_wallet w req answer ≡ some r
    → OnlyTouches w.fresh_id r
unfolding after_wallet
after_wallet-OnlyTouches w req (Written.refused message) r e =
    subst (OnlyTouches w.fresh_id) (some_inj e) (refl, tt)
after_wallet-OnlyTouches w req (hashed hash) r e =
    after-OnlyTouches w.fresh_id _ _ r (refl, (tt, tt))
      (after_propagation-OnlyTouches w req hash (confirm_propagation 21 w.rounds 0)) e

-- The effects of a send that reaches the wallet: the waiting entry, and then updates of it.
after_simulation_shape :
    (w : World) (req : ContractTxRequest) (r : List Effect × Option Text)
    → after_simulation w req none ≡ some r
    → (more : List Effect) × (r.0 ≡ opened w.fresh_id (waiting_entry w req) ∷ more)
      × All (Touches w.fresh_id) more
unfolding after_simulation after
after_simulation_shape w req r e = go (after_wallet w req w.written) refl e
  where
    go :
        (m : Option (List Effect × Option Text))
        → after_wallet w req w.written ≡ m
        → after (opened w.fresh_id (waiting_entry w req) ∷ []) m ≡ some r
        → (more : List Effect) × (r.0 ≡ opened w.fresh_id (waiting_entry w req) ∷ more)
          × All (Touches w.fresh_id) more
    go none k h = cc
    go (some q) k h =
        (q.0, ap (λ x. x.0) (sym (some_inj h)), after_wallet-OnlyTouches w req w.written q k)

track_head :
    (id : Text) (d : Draft) (es : List TxEntry)
    → length es < max_entries
    → run_op (TxOp.track id d) es ≡ named id d ∷ es
unfolding run_op track
track_head id d es room = rw (take_all 11 es (omega arith))

proceeds :
    (es : List TxEntry) (w : World) (req : ContractTxRequest) (key : Text)
    (r : List Effect × Option Text)
    → req.action_key ≡ some key
    → is_action_locked key es ≡ false
    → shown_revert w.simulation ≡ none
    → send es w req ≡ some r
    → after_simulation w req none ≡ some r
unfolding send is_refused
proceeds es w req key r keyed free clean e = ground arith

sent :
    (w : World) (req : ContractTxRequest) (key : Text) (es : List TxEntry) (more : List Effect)
    → length es < max_entries
    → IsNew w.fresh_id es
    → req.action_key ≡ some key
    → is_action_locked key es ≡ false
    → All (Touches w.fresh_id) more
    → is_action_locked key (run (tx_ops (opened w.fresh_id (waiting_entry w req) ∷ more)) es)
      ≡ not (is_terminal (status_after TxStatus.waiting_for_wallet more))
unfolding run named waiting_entry
sent w req key es more room fresh keyed free touches =
    ap (λ l. is_action_locked key (run (tx_ops more) l))
      (track_head w.fresh_id (waiting_entry w req) es room)
    ∙ run-Touches w.fresh_id key more (named w.fresh_id (waiting_entry w req)) es touches refl fresh
    ∙ ground (arith, opt_eq_refl (some key))

sent_shape :
    (w : World) (req : ContractTxRequest) (key : Text) (es : List TxEntry)
    (r : List Effect × Option Text) (more : List Effect)
    → length es < max_entries
    → IsNew w.fresh_id es
    → req.action_key ≡ some key
    → is_action_locked key es ≡ false
    → All (Touches w.fresh_id) more
    → r.0 ≡ opened w.fresh_id (waiting_entry w req) ∷ more
    → (s : TxStatus) × (last_status none r.0 ≡ some s)
      × (is_action_locked key (run (tx_ops r.0) es) ≡ not (is_terminal s))
unfolding waiting_entry
sent_shape w req key es r more room fresh keyed free touches shape = (
  status_after TxStatus.waiting_for_wallet more,
  rw shape (last_status-status_after w.fresh_id TxStatus.waiting_for_wallet more touches),
  rw shape (sent w req key es more room fresh keyed free touches),
)

-- A send that gets past the lock and the simulation leaves the lock of its key held exactly if the
-- status that it ends with is not terminal. (Twelve entries are not yet listed, and the new
-- identifier is new.)
pub send_lock :
    (es : List TxEntry) (w : World) (req : ContractTxRequest) (key : Text)
    (r : List Effect × Option Text)
    → length es < max_entries
    → IsNew w.fresh_id es
    → req.action_key ≡ some key
    → is_action_locked key es ≡ false
    → shown_revert w.simulation ≡ none
    → send es w req ≡ some r
    → (s : TxStatus) × (last_status none r.0 ≡ some s)
      × (is_action_locked key (run (tx_ops r.0) es) ≡ not (is_terminal s))
send_lock es w req key r room fresh keyed free clean e =
    let (more, shape, touches) =
      after_simulation_shape w req r (proceeds es w req key r keyed free clean e) in
    sent_shape w req key es r more room fresh keyed free touches shape
