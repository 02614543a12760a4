-- ===== src/Activity/Order.antt =====
-- The order of the timeline of frontend/src/lib/activity.ts.
use shared_deposit_monad.Base.{
  ℕ, suc, ◌≡◌, refl, sym, ◌∙◌, ap, subst, ◌⊎◌, inl, inr, Bool, true, false, not, Option, none, some,
  List, [], ◌∷◌, Text, if◌then◌else◌, ltb, length, filter, All, arith, Bool-cases, if_true,
  if_false,
}
use shared_deposit_monad.Stored.{StoredTransaction}
use shared_deposit_monad.Activity.{ActivityRow, to_rows, is_after, insert, sort, to_timeline}

-- A mined transaction comes before no older one, and an unmined one before no mined one.
abbrev pub is_in_order : Option ℕ → Option ℕ → Bool
is_in_order none (some n) = false
is_in_order none none = true
is_in_order (some m) none = true
is_in_order (some m) (some n) = not (ltb n m)

abbrev pub Precedes : ActivityRow → ActivityRow → Type 0
Precedes a b = is_in_order a.block_number b.block_number ≡ true

-- Each row stands before only those that it precedes.
abbrev pub IsOrdered : List ActivityRow → Type 0
IsOrdered [] = Unit
IsOrdered (r ∷ rs) = All (Precedes r) rs × IsOrdered rs

is_in_order_trans :
    (a b c : Option ℕ) → is_in_order a b ≡ true → is_in_order b c ≡ true → is_in_order a c ≡ true
is_in_order_trans none none none h k = refl
is_in_order_trans none none (some c) h k = absurd (cc)
is_in_order_trans none (some b) c h k = absurd (cc)
is_in_order_trans (some a) b none h k = refl
is_in_order_trans (some a) none (some c) h k = absurd (cc)
is_in_order_trans (some a) (some b) (some c) h k = ground (arith, h, k)

module _ (comes_after : Text → Text → Bool) where
  after_order :
      (a b : ActivityRow)
      → ((is_after comes_after a b ≡ true) × Precedes b a)
        ⊎ ((is_after comes_after a b ≡ false) × Precedes a b)
  unfolding is_after
  after_order a b = by_blocks a.block_number b.block_number (comes_after a.timestamp b.timestamp)
    where
      by_blocks :
          (m n : Option ℕ) (late : Bool)
          → (((elim m [
            | some x ↦ elim n [ some y ↦ ltb y x | none ↦ false ]
            | none ↦ elim n [ some y ↦ true | none ↦ late ]
          ])
                ≡ true)
              × (is_in_order n m ≡ true))
            ⊎ (((elim m [
              | some x ↦ elim n [ some y ↦ ltb y x | none ↦ false ]
              | none ↦ elim n [ some y ↦ true | none ↦ late ]
            ])
                  ≡ false)
                × (is_in_order m n ≡ true))
      by_blocks none none true = inl (refl, refl)
      by_blocks none none false = inr (refl, refl)
      by_blocks none (some n) late = inl (refl, refl)
      by_blocks (some m) none late = inr (refl, refl)
      by_blocks (some m) (some n) late = ground arith

  insert-All :
      (P : ActivityRow → Type 0) (x : ActivityRow) (ys : List ActivityRow)
      → P x
      → All P ys
      → All P (insert comes_after x ys)
  unfolding insert
  insert-All P x [] p h = (p, tt)
  insert-All P x (y ∷ ys) p h = elim (Bool-cases (is_after comes_after x y)) [
    | inl k ↦ subst (All P) (sym (if_true _ _ k)) (h.0, insert-All P x ys p h.1)
    | inr k ↦ subst (All P) (sym (if_false _ _ k)) (p, h)
  ]

  Precedes-All :
      (a b : ActivityRow) (rs : List ActivityRow)
      → Precedes a b
      → All (Precedes b) rs
      → All (Precedes a) rs
  Precedes-All a b [] h k = tt
  Precedes-All a b (r ∷ rs) h k = (
    is_in_order_trans a.block_number b.block_number r.block_number h k.0,
    Precedes-All a b rs h k.1,
  )

  insert-IsOrdered :
      (x : ActivityRow) (ys : List ActivityRow) → IsOrdered ys → IsOrdered (insert comes_after x ys)
  unfolding insert
  insert-IsOrdered x [] h = (tt, tt)
  insert-IsOrdered x (y ∷ ys) h = elim (after_order x y) [
    | inl (k, p) ↦
        subst IsOrdered (sym (if_true _ _ k))
          (insert-All (Precedes y) x ys p h.0, insert-IsOrdered x ys h.1)
    | inr (k, p) ↦ subst IsOrdered (sym (if_false _ _ k)) ((p, Precedes-All x y ys p h.0), h)
  ]

  sort-IsOrdered : (xs : List ActivityRow) → IsOrdered (sort comes_after xs)
  unfolding sort
  sort-IsOrdered [] = tt
  sort-IsOrdered (x ∷ xs) = insert-IsOrdered x (sort comes_after xs) (sort-IsOrdered xs)

  abbrev pub count : (ActivityRow → Bool) → List ActivityRow → ℕ
  count p xs = length (filter p xs)

  insert-count :
      (p : ActivityRow → Bool) (x : ActivityRow) (ys : List ActivityRow)
      → count p (insert comes_after x ys) ≡ (if p x then suc (count p ys) else count p ys)
  unfolding insert
  insert-count p x [] = ground arith
  insert-count p x (y ∷ ys) = elim (Bool-cases (is_after comes_after x y)) [
    | inl k ↦ ap (count p) (if_true _ _ k) ∙ ground (arith, insert-count p x ys)
    | inr k ↦ ap (count p) (if_false _ _ k) ∙ ground arith
  ]

  sort-count :
      (p : ActivityRow → Bool) (xs : List ActivityRow) → count p (sort comes_after xs) ≡ count p xs
  unfolding sort
  sort-count p [] = refl
  sort-count p (x ∷ xs) = insert-count p x (sort comes_after xs) ∙ ground (arith, sort-count p xs)

  -- The timeline holds the rows of the stored transactions, each as often as it is stored, with the
  -- mined ones by block and before every unmined one.
  pub to_timeline-IsOrdered :
      (txs : List StoredTransaction)
      → IsOrdered (to_timeline comes_after txs)
        × ((p : ActivityRow → Bool) → count p (to_timeline comes_after txs) ≡ count p (to_rows txs))
  unfolding to_timeline
  to_timeline-IsOrdered txs = (sort-IsOrdered (to_rows txs), λ p. sort-count p (to_rows txs))
