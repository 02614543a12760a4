-- ===== src/Recovery/Steps.antt =====
-- Lists of steps of frontend/src/components/TxRecovery.tsx.
use shared_deposit_monad.Base.{
  ◌≡◌, refl, inl, inr, Bool, true, false, List, [], ◌∷◌, Text, text_eq, text_eq_refl, text_eq_sound,
  subst, if◌then◌else◌, has_text, arith, Bool-cases,
}
use shared_deposit_monad.Tx.Entry.{TxOp}
use shared_deposit_monad.Recovery.{Step}

abbrev pub has_retry : List Step → Bool
has_retry [] = false
has_retry (Step.remove id ∷ steps) = has_retry steps
has_retry (Step.retry_receipt id h ∷ steps) = true

abbrev pub removed : List Step → List Text
removed [] = []
removed (Step.remove id ∷ steps) = id ∷ removed steps
removed (Step.retry_receipt id h ∷ steps) = removed steps

-- The calls of the transaction context among the steps.
abbrev pub removals : List Text → List TxOp
removals [] = []
removals (id ∷ ids) = TxOp.remove id ∷ removals ids

pub has_first : (t : Text) (ts : List Text) → has_text (t ∷ ts) t ≡ true
unfolding has_text
has_first t ts = rw (text_eq_refl t) refl

pub has_none : (t : Text) → has_text [] t ≡ true → ⊥
unfolding has_text
has_none t h = cc

pub has_later :
    (s : Text) (ts : List Text) (t : Text) → has_text ts t ≡ true → has_text (s ∷ ts) t ≡ true
unfolding has_text
has_later s ts t h = ground (arith, h)

pub has_other :
    (s : Text) (ts : List Text) (t : Text)
    → text_eq t s ≡ false
    → has_text (s ∷ ts) t ≡ true
    → has_text ts t ≡ true
unfolding has_text
has_other s ts t k h = elim (Bool-cases (text_eq s t)) [
  | inl q ↦ absurd (
      let e = text_eq_sound s t q in
      let r = text_eq_refl t in let k2 = subst (λ x. text_eq t x ≡ false) e k in cc)
  | inr q ↦ ground (arith, q, h)
]

-- The nested conditional of the loop, by the tests that decide it.
module _ {ℓ} {A : Type ℓ} where
  pub pick_second :
      (a c : Bool) {b : Bool} (x y z : A)
      → b ≡ false
      → c ≡ true
      → (if a then x else if b then y else if c then x else z) ≡ x
  pick_second true c x y z h k = refl
  pick_second false c x y z h k = rw (h, k) refl

  pub pick_middle :
      (a c : Bool) {b : Bool} (x y z : A)
      → b ≡ true
      → a ≡ false
      → (if a then x else if b then y else if c then x else z) ≡ y
  pick_middle true c x y z h k = absurd (cc)
  pick_middle false c x y z h k = rw h refl

  pub pick_last :
      (a c : Bool) {b : Bool} (x y z : A)
      → a ≡ false
      → b ≡ false
      → c ≡ false
      → (if a then x else if b then y else if c then x else z) ≡ z
  pick_last true c x y z g h k = absurd (cc)
  pick_last false c x y z g h k = rw (h, k) refl
