-- ===== src/ContractTx/Send/Touches.antt =====
-- Which entries the effects of frontend/src/hooks/useContractTx.ts touch.
use shared_deposit_monad.Base.{
  ℕ, ◌≡◌, refl, ap, ◌∙◌, true, false, not, ◌&&◌, ◌||◌, Option, none, some, List, [], ◌∷◌, arith,
  Text, text_eq, text_eq_iff, opt_eq, All,
}
use shared_deposit_monad.Tx.{is_terminal, is_action_locked, holds, update, run_op, run}
use shared_deposit_monad.Tx.Entry.{TxStatus, TxEntry, Patch, TxOp, apply_patch}
use shared_deposit_monad.ContractTx.Provider.{Classification}
use shared_deposit_monad.ContractTx.Effects.{
  Effect, tx, record_transaction, reverify_transaction, tx_ops,
}
use shared_deposit_monad.ContractTx.Send.{Verify, resolved, apply_classification}
use shared_deposit_monad.ContractTx.Send.Honest.{last_status}

-- The effects touch the list only by updates of one entry.
abbrev pub Touches : Text → Effect → Type 0
Touches id (tx (TxOp.update j p)) = j ≡ id
Touches id (tx _) = ⊥
Touches id _ = Unit

abbrev pub status_after : TxStatus → List Effect → TxStatus
status_after s [] = s
status_after s (tx (TxOp.update id p) ∷ effs) = status_after p.status effs
status_after s (_ ∷ effs) = status_after s effs

pub last_status-status_after :
    (id : Text) (s : TxStatus) (effs : List Effect)
    → All (Touches id) effs
    → last_status (some s) effs ≡ some (status_after s effs)
last_status-status_after id s [] h = refl
last_status-status_after id s (tx (TxOp.update j p) ∷ effs) h =
    last_status-status_after id p.status effs h.1
last_status-status_after id s (tx (TxOp.track j d) ∷ effs) h = absurd h.0
last_status-status_after id s (tx (TxOp.remove j) ∷ effs) h = absurd h.0
last_status-status_after id s (tx (TxOp.hide j) ∷ effs) h = absurd h.0
last_status-status_after id s (tx TxOp.clear ∷ effs) h = absurd h.0
last_status-status_after id s (record_transaction r ∷ effs) h =
    last_status-status_after id s effs h.1
last_status-status_after id s (reverify_transaction c x ∷ effs) h =
    last_status-status_after id s effs h.1

-- No entry of the list has the identifier.
abbrev pub IsNew : Text → List TxEntry → Type 0
IsNew id = All (λ e. text_eq e.id id ≡ false)

update-IsNew : (id : Text) (p : Patch) (es : List TxEntry) → IsNew id es → update id p es ≡ es
unfolding update
update-IsNew id p [] h = refl
update-IsNew id p (e ∷ es) h = ground (arith, update-IsNew id p es h.1)

update_head :
    (id j : Text) (p : Patch) (e : TxEntry) (es : List TxEntry)
    → j ≡ id
    → e.id ≡ id
    → IsNew id es
    → run_op (TxOp.update j p) (e ∷ es) ≡ apply_patch p e ∷ es
unfolding run_op update
update_head id j p e es named_so same fresh =
    ground (arith, update-IsNew j p es (rw named_so fresh), text_eq_iff e.id j)

-- A run of such effects leaves the rest of the list alone.
pub run-Touches :
    (id key : Text) (effs : List Effect) (e : TxEntry) (es : List TxEntry)
    → All (Touches id) effs
    → e.id ≡ id
    → IsNew id es
    → is_action_locked key (run (tx_ops effs) (e ∷ es)) ≡ (
        (opt_eq e.action_key (some key) && not (is_terminal (status_after e.status effs)))
        || is_action_locked key es)
unfolding run is_action_locked holds apply_patch
run-Touches id key [] e es h same fresh = refl
run-Touches id key (tx (TxOp.update j p) ∷ effs) e es h same fresh =
    ap (λ l. is_action_locked key (run (tx_ops effs) l)) (update_head id j p e es h.0 same fresh)
    ∙ run-Touches id key effs (apply_patch p e) es h.1 same fresh
run-Touches id key (tx (TxOp.track j d) ∷ effs) e es h same fresh = absurd h.0
run-Touches id key (tx (TxOp.remove j) ∷ effs) e es h same fresh = absurd h.0
run-Touches id key (tx (TxOp.hide j) ∷ effs) e es h same fresh = absurd h.0
run-Touches id key (tx TxOp.clear ∷ effs) e es h same fresh = absurd h.0
run-Touches id key (record_transaction r ∷ effs) e es h same fresh =
    run-Touches id key effs e es h.1 same fresh
run-Touches id key (reverify_transaction c x ∷ effs) e es h same fresh =
    run-Touches id key effs e es h.1 same fresh

pub apply_classification-Touches :
    (chain_id : ℕ) (id hash : Text) (verify : Option Verify) (c : Classification)
    → All (Touches id) (apply_classification chain_id id hash verify c).0
unfolding apply_classification
apply_classification-Touches n id hash none (Classification.mined_success r) =
    (tt, (refl, (refl, tt)))
apply_classification-Touches n id hash (some (resolved true)) (Classification.mined_success r) =
    (tt, (refl, (refl, (refl, tt))))
apply_classification-Touches n id hash (some (resolved false)) (Classification.mined_success r) =
    (tt, (refl, (refl, (refl, tt))))
apply_classification-Touches n id hash (some (Verify.failed m)) (Classification.mined_success r) =
    (tt, (refl, (refl, (refl, tt))))
apply_classification-Touches n id hash verify (Classification.mined_reverted r) = (tt, (refl, tt))
apply_classification-Touches n id hash verify (Classification.nonce_blocked a b) = (tt, (refl, tt))
apply_classification-Touches n id hash verify Classification.pending = (tt, (refl, tt))
apply_classification-Touches n id hash verify Classification.not_found = (tt, (refl, tt))
