-- ===== src/ContractTx/Send/Honest.antt =====
-- What a receipt that is waited for in frontend/src/hooks/useContractTx.ts means for its entry.
use shared_deposit_monad.Base.{
  ℕ, ◌+◌, ◌≡◌, ◌≢◌, refl, sym, ap, ◌∙◌, ◌⊎◌, inl, inr, Bool, true, false, Option, none, some, List,
  [], ◌∷◌, ◌++◌, Text, if◌then◌else◌, subst, some_inj,
}
use shared_deposit_monad.Tx.Entry.{TxStatus, TxOp}
use shared_deposit_monad.ContractTx.Provider.{Classification, Receipt}
use shared_deposit_monad.ContractTx.Propagation.{Outcome, confirm_propagation}
use shared_deposit_monad.ContractTx.Polling.{poll_classify, poll_timeout_ms}
use shared_deposit_monad.ContractTx.Effects.{
  Effect, tx, record_transaction, reverify_transaction, patch,
}
use shared_deposit_monad.ContractTx.Send.{
  Verify, resolved, World, ContractTxRequest, apply_classification, confirm_receipt,
  after_propagation, after, at_status,
}

-- The last status that the effects give to the entry that they track.
abbrev pub last_status : Option TxStatus → List Effect → Option TxStatus
last_status s [] = s
last_status s (tx (TxOp.track id d) ∷ effs) = last_status (some d.status) effs
last_status s (tx (TxOp.update id p) ∷ effs) = last_status (some p.status) effs
last_status s (_ ∷ effs) = last_status s effs

last_status-append :
    (s : Option TxStatus) (xs ys : List Effect)
    → last_status s (xs ++ ys) ≡ last_status (last_status s xs) ys
last_status-append s [] ys = refl
last_status-append s (tx (TxOp.track id d) ∷ xs) ys = last_status-append _ xs ys
last_status-append s (tx (TxOp.update id p) ∷ xs) ys = last_status-append _ xs ys
last_status-append s (tx (TxOp.remove id) ∷ xs) ys = last_status-append s xs ys
last_status-append s (tx (TxOp.hide id) ∷ xs) ys = last_status-append s xs ys
last_status-append s (tx TxOp.clear ∷ xs) ys = last_status-append s xs ys
last_status-append s (record_transaction r ∷ xs) ys = last_status-append s xs ys
last_status-append s (reverify_transaction c h ∷ xs) ys = last_status-append s xs ys

-- The contract read was not asked for, or it showed the change.
abbrev pub IsConfirmed : Option Verify → Type 0
IsConfirmed verify = (verify ≡ none) ⊎ (verify ≡ some (resolved true))

-- What the effects of a classification leave behind, by whether it is reported as done.
abbrev Leaves : Option Verify → Classification → List Effect × Bool → Type 0
Leaves verify c (effs, true) =
    IsConfirmed verify
    × (r : Receipt) × (c ≡ Classification.mined_success r)
    × ((s : Option TxStatus) → last_status s effs ≡ some TxStatus.verified)
Leaves verify c (effs, false) = (s : Option TxStatus) → last_status s effs ≢ some TxStatus.verified

apply_classification-Leaves :
    (chain_id : ℕ) (id hash : Text) (verify : Option Verify) (c : Classification)
    → Leaves verify c (apply_classification chain_id id hash verify c)
unfolding apply_classification
apply_classification-Leaves n id hash none (Classification.mined_success r) =
    (inl refl, r, refl, λ s. refl)
apply_classification-Leaves n id hash (some (resolved true)) (Classification.mined_success r) =
    (inr refl, r, refl, λ s. refl)
apply_classification-Leaves n id hash (some (resolved false)) (Classification.mined_success r) =
    λ s e. cc
apply_classification-Leaves n id hash (some (Verify.failed m)) (Classification.mined_success r) =
    λ s e. cc
apply_classification-Leaves n id hash verify (Classification.mined_reverted r) = λ s e. cc
apply_classification-Leaves n id hash verify (Classification.nonce_blocked a b) = λ s e. cc
apply_classification-Leaves n id hash verify Classification.pending = λ s e. cc
apply_classification-Leaves n id hash verify Classification.not_found = λ s e. cc

abbrev polled : World → Option Classification
polled w = poll_classify 42 (w.poll_start + poll_timeout_ms) w.polls false 0

-- What a result stands for: a hash was returned by the wallet, seen by the official RPC, mined with
-- success and confirmed, and its entry ends as VERIFIED; with no hash the entry ends otherwise.
abbrev pub IsHonest : World → ContractTxRequest → Text → List Effect × Option Text → Type 0
IsHonest w req hash (effs, some h) =
    (h ≡ hash)
    × (confirm_propagation 21 w.rounds 0 ≡ some Outcome.app_confirmed)
    × (r : Receipt) × (polled w ≡ some (Classification.mined_success r))
    × IsConfirmed req.verify
    × ((s : Option TxStatus) → last_status s effs ≡ some TxStatus.verified)
IsHonest w req hash (effs, none) =
    (s : Option TxStatus) → last_status s effs ≢ some TxStatus.verified

IsHonest-result :
    (w : World) (req : ContractTxRequest) (hash : Text) (c : Classification)
    (p : List Effect × Bool)
    → confirm_propagation 21 w.rounds 0 ≡ some Outcome.app_confirmed
    → polled w ≡ some c
    → Leaves req.verify c p
    → IsHonest w req hash (
      patch w.fresh_id (at_status TxStatus.pending_onchain hash) ∷ p.0,
      if p.1 then some hash else none,
    )
IsHonest-result w req hash c (effs, true) seen e (confirmed, r, mined, ends) =
    (refl, seen, r, e ∙ ap some mined, confirmed, λ s. ends (some TxStatus.pending_onchain))
IsHonest-result w req hash c (effs, false) seen e ends = λ s. ends (some TxStatus.pending_onchain)

confirm_receipt-IsHonest :
    (w : World) (req : ContractTxRequest) (hash : Text) (r : List Effect × Option Text)
    → confirm_propagation 21 w.rounds 0 ≡ some Outcome.app_confirmed
    → confirm_receipt w req hash (polled w) ≡ some r
    → IsHonest w req hash r
unfolding confirm_receipt
confirm_receipt-IsHonest w req hash r seen h = go (polled w) refl h
  where
    go :
        (o : Option Classification)
        → polled w ≡ o
        → confirm_receipt w req hash o ≡ some r
        → IsHonest w req hash r
    go none e k = cc
    go (some c) e k = subst (IsHonest w req hash) (some_inj k) (
        IsHonest-result w req hash c (apply_classification w.chain_id w.fresh_id hash req.verify c)
          seen e (apply_classification-Leaves w.chain_id w.fresh_id hash req.verify c))

-- Effects in front of an honest result keep it honest.
prefix-IsHonest :
    (w : World) (req : ContractTxRequest) (hash : Text) (effs more : List Effect)
    (res : Option Text)
    → IsHonest w req hash (more, res)
    → IsHonest w req hash (effs ++ more, res)
prefix-IsHonest w req hash effs more none honest =
    λ s e. honest (last_status s effs) (sym (last_status-append s effs more) ∙ e)
prefix-IsHonest w req hash effs more (some h) (same, seen, r, mined, confirmed, ends) = (
  same,
  seen,
  r,
  mined,
  confirmed,
  λ s. last_status-append s effs more ∙ ends (last_status s effs),
)

pub after-IsHonest :
    (w : World) (req : ContractTxRequest) (hash : Text) (effs : List Effect)
    (m : Option (List Effect × Option Text)) (r : List Effect × Option Text)
    → ((q : List Effect × Option Text) → m ≡ some q → IsHonest w req hash q)
    → after effs m ≡ some r
    → IsHonest w req hash r
unfolding after
after-IsHonest w req hash effs none r honest h = cc
after-IsHonest w req hash effs (some (more, res)) r honest h =
    subst (IsHonest w req hash) (some_inj h)
      (prefix-IsHonest w req hash effs more res (honest (more, res) refl))

pub after_propagation-IsHonest :
    (w : World) (req : ContractTxRequest) (hash : Text) (r : List Effect × Option Text)
    → after_propagation w req hash (confirm_propagation 21 w.rounds 0) ≡ some r
    → IsHonest w req hash r
unfolding after_propagation
after_propagation-IsHonest w req hash r h = go (confirm_propagation 21 w.rounds 0) refl h
  where
    go :
        (o : Option Outcome)
        → confirm_propagation 21 w.rounds 0 ≡ o
        → after_propagation w req hash o ≡ some r
        → IsHonest w req hash r
    go none e k = cc
    go (some Outcome.app_confirmed) e k = confirm_receipt-IsHonest w req hash r e k
    go (some Outcome.broadcast_failed_not_propagated) e k =
        subst (IsHonest w req hash) (some_inj k) (λ s c. cc)
    go (some Outcome.wallet_rpc_diverged) e k = subst (IsHonest w req hash) (some_inj k) (λ s c. cc)
