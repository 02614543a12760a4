-- ===== src/Drawer/Dismissal.antt =====
-- What a dismissal in frontend/src/components/TransactionDrawer.tsx does to the single-flight locks.
use shared_deposit_monad.Base.{
  ◌≡◌, refl, ◌∙◌, inl, inr, true, List, [], ◌∷◌, Text, text_eq, All, arith, Bool-cases,
}
use shared_deposit_monad.Tx.{is_terminal, holds, is_action_locked, remove, run_op}
use shared_deposit_monad.Tx.Entry.{TxEntry}
use shared_deposit_monad.Tx.Locks.{is_action_locked-hide}
use shared_deposit_monad.Drawer.{dismiss}

-- The entries with the identifier of `e` are as terminal as `e` is.
abbrev pub IsOne : TxEntry → List TxEntry → Type 0
IsOne e es = All (λ f. text_eq f.id e.id ≡ true → is_terminal f.status ≡ is_terminal e.status) es

remove_lock :
    (key : Text) (e : TxEntry) (es : List TxEntry)
    → is_terminal e.status ≡ true
    → IsOne e es
    → is_action_locked key (remove e.id es) ≡ is_action_locked key es
unfolding is_action_locked remove holds
remove_lock key e [] t h = refl
remove_lock key e (f ∷ es) t h = elim (Bool-cases (text_eq f.id e.id)) [
  | inl k ↦ rw (k, h.0 k ∙ t) (remove_lock key e es t h.1 ∙ ground arith)
  | inr k ↦ rw k (ground (arith, remove_lock key e es t h.1))
]

-- Dismissing an entry never releases or takes a single-flight lock, where the entries with its
-- identifier are all finished or all under way.
pub dismiss-is_action_locked :
    (key : Text) (e : TxEntry) (es : List TxEntry)
    → IsOne e es
    → is_action_locked key (run_op (dismiss e) es) ≡ is_action_locked key es
unfolding dismiss run_op
dismiss-is_action_locked key e es h = elim (Bool-cases (is_terminal e.status)) [
  | inl k ↦ rw k (remove_lock key e es k h)
  | inr k ↦ rw k (is_action_locked-hide key e.id es)
]
