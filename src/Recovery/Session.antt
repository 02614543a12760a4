-- ===== src/Recovery/Session.antt =====
-- What the effect of frontend/src/components/TxRecovery.tsx leaves behind: no entry of another session,
-- and no second poll for one entry.
use shared_deposit_monad.Base.{
  ℕ, ◌≡◌, refl, sym, ◌∙◌, ◌⊎◌, inl, inr, true, false, not, ◌&&◌, ◌||◌, Option, List, [], ◌∷◌, Text,
  subst, truthy, has_text, All, arith, Bool-cases,
}
use shared_deposit_monad.Tx.{remove as remove_entry}
use shared_deposit_monad.Tx.Entry.{TxEntry}
use shared_deposit_monad.Recovery.{
  is_resumable, is_stale_for_session, should_resume, Step, retry_receipt, reconcile,
}
use shared_deposit_monad.Recovery.Steps.{
  has_retry, has_first, has_later, pick_second, pick_middle, pick_last,
}

module _ (connected : Option Text) (chain_id : ℕ) where
  -- Each entry that may be polled is in the set already.
  abbrev Covers : List Text → List TxEntry → Type 0
  Covers resumed es =
      All (λ e. should_resume e connected chain_id ≡ true → has_text resumed e.id ≡ true) es

  stale_resumable :
      (e : TxEntry)
      → is_stale_for_session e connected chain_id ≡ true
      → (is_resumable e.status ≡ true) × (truthy e.hash ≡ true)
  unfolding is_stale_for_session
  stale_resumable e h = ground arith

  should_resume_split :
      (e : TxEntry)
      → should_resume e connected chain_id ≡ (
          is_resumable e.status
          && (truthy e.hash && not (is_stale_for_session e connected chain_id)))
  unfolding should_resume
  should_resume_split e = refl

  reconcile_stale :
      (resumed : List Text) (e : TxEntry) (es : List TxEntry)
      → is_stale_for_session e connected chain_id ≡ true
      → reconcile connected chain_id resumed (e ∷ es) ≡ (
        Step.remove e.id ∷ (reconcile connected chain_id resumed es).0,
        (reconcile connected chain_id resumed es).1,
      )
  unfolding reconcile
  reconcile_stale resumed e es h =
      pick_middle (not (is_resumable e.status) || not (truthy e.hash))
        (not (should_resume e connected chain_id) || has_text resumed e.id) _ _ _ h
        (let k = stale_resumable e h in ground (arith, k))

  reconcile_resume :
      (resumed : List Text) (e : TxEntry) (es : List TxEntry)
      → should_resume e connected chain_id ≡ true
      → has_text resumed e.id ≡ false
      → reconcile connected chain_id resumed (e ∷ es) ≡ (
        retry_receipt e.id e.hash ∷ (reconcile connected chain_id (e.id ∷ resumed) es).0,
        (reconcile connected chain_id (e.id ∷ resumed) es).1,
      )
  unfolding reconcile
  reconcile_resume resumed e es h h2 =
      let k = sym (should_resume_split e) ∙ h in
      let k1 : is_resumable e.status ≡ true = ground (arith, k) in
      let k2 : truthy e.hash ≡ true = ground (arith, k) in
      let k3 : is_stale_for_session e connected chain_id ≡ false = ground (arith, k) in
      pick_last (not (is_resumable e.status) || not (truthy e.hash))
        (not (should_resume e connected chain_id) || has_text resumed e.id) _ _ _
        (ground (arith, k1, k2)) k3 (ground (arith, h, h2))

  reconcile_skip :
      (resumed : List Text) (e : TxEntry) (es : List TxEntry)
      → is_stale_for_session e connected chain_id ≡ false
      → (should_resume e connected chain_id && not (has_text resumed e.id)) ≡ false
      → reconcile connected chain_id resumed (e ∷ es) ≡ reconcile connected chain_id resumed es
  unfolding reconcile
  reconcile_skip resumed e es h h2 =
      pick_second (not (is_resumable e.status) || not (truthy e.hash))
        (not (should_resume e connected chain_id) || has_text resumed e.id) _ _ _ h
        (ground (arith, h2))

  -- One step of the loop, by its three outcomes.
  step_cases :
      (resumed : List Text) (e : TxEntry)
      → (is_stale_for_session e connected chain_id ≡ true)
        ⊎ ((is_stale_for_session e connected chain_id ≡ false)
            × (((should_resume e connected chain_id ≡ true) × (has_text resumed e.id ≡ false))
                ⊎ ((should_resume e connected chain_id && not (has_text resumed e.id)) ≡ false)))
  step_cases resumed e = elim (Bool-cases (is_stale_for_session e connected chain_id)) [
    | inl h ↦ inl h
    | inr h ↦ inr (h, ground arith)
  ]

  reconcile_grows :
      (resumed : List Text) (es : List TxEntry) (id : Text)
      → has_text resumed id ≡ true
      → has_text (reconcile connected chain_id resumed es).1 id ≡ true
  unfolding reconcile
  reconcile_grows resumed [] id h = h
  reconcile_grows resumed (e ∷ es) id h = elim (step_cases resumed e) [
    | inl k ↦ rw (reconcile_stale resumed e es k) (reconcile_grows resumed es id h)
    | inr (k, inl q) ↦
        rw (reconcile_resume resumed e es q.0 q.1)
          (reconcile_grows (e.id ∷ resumed) es id (has_later e.id resumed id h))
    | inr (k, inr q) ↦ rw (reconcile_skip resumed e es k q) (reconcile_grows resumed es id h)
  ]

  reconcile_new :
      (resumed : List Text) (es : List TxEntry)
      → Covers (reconcile connected chain_id resumed es).1 es
  unfolding reconcile
  reconcile_new resumed [] = tt
  reconcile_new resumed (e ∷ es) = elim (step_cases resumed e) [
    | inl k ↦
        subst (λ x. Covers x.1 (e ∷ es)) (sym (reconcile_stale resumed e es k))
          (
            λ r. absurd (let w = should_resume_split e in ground (arith, w, k, r)),
            reconcile_new resumed es,
          )
    | inr (k, inl q) ↦
        subst (λ x. Covers x.1 (e ∷ es)) (sym (reconcile_resume resumed e es q.0 q.1))
          (
            λ r. reconcile_grows (e.id ∷ resumed) es e.id (has_first e.id resumed),
            reconcile_new (e.id ∷ resumed) es,
          )
    | inr (k, inr q) ↦
        subst (λ x. Covers x.1 (e ∷ es)) (sym (reconcile_skip resumed e es k q))
          (λ r. reconcile_grows resumed es e.id (ground (arith, q, r)), reconcile_new resumed es)
  ]

  Covers-quiet :
      (resumed : List Text) (es : List TxEntry)
      → Covers resumed es
      → has_retry (reconcile connected chain_id resumed es).0 ≡ false
  unfolding reconcile
  Covers-quiet resumed [] h = refl
  Covers-quiet resumed (e ∷ es) h = elim (step_cases resumed e) [
    | inl k ↦ rw (reconcile_stale resumed e es k) (Covers-quiet resumed es h.1)
    | inr (k, inl q) ↦ absurd (let w = h.0 q.0 in let v = q.1 in cc)
    | inr (k, inr q) ↦ rw (reconcile_skip resumed e es k q) (Covers-quiet resumed es h.1)
  ]

  -- The effect polls once for an entry: run again on the same entries, with the set that its first
  -- run left, it starts no poll.
  pub reconcile_again :
      (resumed : List Text) (es : List TxEntry)
      → has_retry (reconcile connected chain_id (reconcile connected chain_id resumed es).1 es).0
        ≡ false
  reconcile_again resumed es =
      Covers-quiet (reconcile connected chain_id resumed es).1 es (reconcile_new resumed es)

  Removes : List Text → List TxEntry → Type 0
  Removes ids es =
      All (λ e. is_stale_for_session e connected chain_id ≡ true → has_text ids e.id ≡ true) es
