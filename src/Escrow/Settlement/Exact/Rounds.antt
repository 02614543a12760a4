-- ===== src/Escrow/Settlement/Exact/Rounds.antt =====
-- The rounds of the settlement: each gives one wei to a tenant who can still pay it.
use shared_deposit_monad.Base.{
  ℕ, zero, suc, ◌+◌, ◌≤◌, ◌≡◌, refl, sym, ◌∙◌, ap, subst, ◌⊎◌, inl, inr, Bool, true, false, Option,
  none, some, List, [], ◌∷◌, if◌then◌else◌, ltb, leb, arith, Bool-cases, Option-cases, if_true,
  if_false, some_inj, All,
}
use shared_deposit_monad.Escrow.Settlement.{sum, Share, best_share, grant, distribute, allocs}

unfoldable pub remainings : List Share → List ℕ
remainings [] = []
remainings (s ∷ ss) = s.remaining ∷ remainings ss

-- No allocation is above what remains.
abbrev pub IsCapped : List Share → Type 0
IsCapped ss = All (λ s. s.alloc ≤ s.remaining) ss

-- The shares split `amount` over tenants with the given rests.
unfoldable pub IsSplit : ℕ → List ℕ → List Share → Type 0
IsSplit amount rests ss = (remainings ss ≡ rests) × ((sum (allocs ss) ≡ amount) × IsCapped ss)

-- The tenant at an index can still pay.
open_at : List Share → ℕ → Bool
open_at [] i = false
open_at (s ∷ ss) zero = ltb s.alloc s.remaining
open_at (s ∷ ss) (suc i) = open_at ss i

-- The best tenant once the next one was looked at.
better : Share → ℕ → Option (ℕ × ℕ) → Option (ℕ × ℕ)
better s i best = if leb s.remaining s.alloc then best else elim best [
  | none ↦ some (i, s.frac)
  | some (j, f) ↦ if ltb f s.frac then some (i, s.frac) else some (j, f)
]

better_cases :
    (s : Share) (i : ℕ) (best : Option (ℕ × ℕ))
    → (better s i best ≡ best)
      ⊎ ((better s i best ≡ some (i, s.frac)) × (ltb s.alloc s.remaining ≡ true))
unfolding better
better_cases s i best = elim (Bool-cases (leb s.remaining s.alloc)) [
  | inl k ↦ inl (if_true _ _ k)
  | inr k ↦ by_best best k
]
  where
    by_best :
        (b : Option (ℕ × ℕ))
        → leb s.remaining s.alloc ≡ false
        → (better s i b ≡ b)
          ⊎ ((better s i b ≡ some (i, s.frac)) × (ltb s.alloc s.remaining ≡ true))
    by_best none k = inr (if_false _ _ k, ground (arith, k))
    by_best (some (j, f)) k = elim (Bool-cases (ltb f s.frac)) [
      | inl q ↦ inr (if_false _ _ k ∙ if_true _ _ q, ground (arith, k))
      | inr q ↦ inl (if_false _ _ k ∙ if_false _ _ q)
    ]

better_none :
    (s : Share) (i : ℕ) (best : Option (ℕ × ℕ))
    → better s i best ≡ none
    → (best ≡ none) × (leb s.remaining s.alloc ≡ true)
unfolding better
better_none s i none h = elim (Bool-cases (leb s.remaining s.alloc)) [
  | inl q ↦ (refl, q)
  | inr q ↦ absurd (let z = sym (if_false _ _ q) ∙ h in cc)
]
better_none s i (some (j, f)) h = elim (Bool-cases (leb s.remaining s.alloc)) [
  | inl q ↦ absurd (let z = sym (if_true _ _ q) ∙ h in cc)
  | inr q ↦ elim (Bool-cases (ltb f s.frac)) [
    | inl p ↦ absurd (let z = sym (if_false _ _ q ∙ if_true _ _ p) ∙ h in cc)
    | inr p ↦ absurd (let z = sym (if_false _ _ q ∙ if_false _ _ p) ∙ h in cc)
  ]
]

best_share-open :
    (ss : List Share) (k : ℕ) (best : Option (ℕ × ℕ)) (i f : ℕ)
    → best_share ss k best ≡ some (i, f)
    → (best ≡ some (i, f)) ⊎ ((m : ℕ) × ((i ≡ k + m) × (open_at ss m ≡ true)))
unfolding best_share better open_at
best_share-open [] k best i f h = inl h
best_share-open (s ∷ ss) k best i f h = elim (best_share-open ss (suc k) (better s k best) i f h) [
  | inr (m, (e, o)) ↦ inr (suc m, (omega (arith, e), o))
  | inl e ↦ elim (better_cases s k best) [
    | inl q ↦ inl (sym q ∙ e)
    | inr (q, o) ↦ inr (0, (let z = ap (λ x. x.0) (some_inj (sym q ∙ e)) in omega (arith, z), o))
  ]
]

best_share-none :
    (ss : List Share) (k : ℕ) (best : Option (ℕ × ℕ))
    → best_share ss k best ≡ none
    → (best ≡ none) × (sum (remainings ss) ≤ sum (allocs ss))
unfolding best_share better sum remainings allocs
best_share-none [] k best h = (h, omega arith)
best_share-none (s ∷ ss) k best h =
    let (b, l) = best_share-none ss (suc k) (better s k best) h in
    let (b2, q) = better_none s k best b in (b2, ground (arith, q, l))

grant-IsSplit :
    (amount : ℕ) (rests : List ℕ) (ss : List Share) (i : ℕ)
    → open_at ss i ≡ true
    → IsSplit amount rests ss
    → IsSplit (suc amount) rests (grant i ss)
unfolding IsSplit grant open_at remainings allocs sum
grant-IsSplit amount rests [] i o h = absurd (cc)
grant-IsSplit amount rests (s ∷ ss) zero o (a, (b, (c, d))) =
    (a, (omega (arith, b), (ground (arith, o), d)))
grant-IsSplit amount rests (s ∷ ss) (suc i) o (a, (b, (c, d))) =
    let (a2, (b2, d2)) = grant-IsSplit (sum (allocs ss)) (remainings ss) ss i o (refl, (refl, d)) in
    (ap (λ x. s.remaining ∷ x) a2 ∙ a, (omega (arith, b, b2), (c, d2)))

chosen : (ss : List Share) (i f : ℕ) → best_share ss 0 none ≡ some (i, f) → open_at ss i ≡ true
chosen ss i f h = elim (best_share-open ss 0 none i f h) [
  | inl e ↦ absurd (cc)
  | inr (m, (e, o)) ↦ subst (λ x. open_at ss x ≡ true) (sym (e ∙ omega arith)) o
]

full :
    (ss : List Share) (amount w : ℕ) (rests : List ℕ)
    → IsSplit amount rests ss
    → amount + suc w ≤ sum rests
    → sum (remainings ss) ≤ sum (allocs ss)
    → ⊥
unfolding IsSplit
full ss amount w rests (a, (b, c)) k l = let z = ap sum a in omega (arith, z, b, k, l)

-- The rounds hand out the whole remainder, where the tenants together can still pay it.
pub distribute-IsSplit :
    (w amount : ℕ) (rests : List ℕ) (ss : List Share)
    → IsSplit amount rests ss
    → amount + w ≤ sum rests
    → (out : List Share) × ((distribute w ss ≡ some out) × IsSplit (amount + w) rests out)
unfolding distribute
distribute-IsSplit zero amount rests ss h k =
    (ss, (refl, subst (λ x. IsSplit x rests ss) (omega arith) h))
distribute-IsSplit (suc w) amount rests ss h k = elim (Option-cases (best_share ss 0 none)) [
  | inl e ↦ absurd (full ss amount w rests h k (best_share-none ss 0 none e).1)
  | inr ((i, f), e) ↦
      let (out, (d, q)) =
        distribute-IsSplit w (suc amount) rests (grant i ss)
          (grant-IsSplit amount rests ss i (chosen ss i f e) h) (omega (arith, k)) in
      (
        out,
        (
          ap (λ b. elim b [ none ↦ none | some (j, g) ↦ distribute w (grant j ss) ]) e ∙ d,
          subst (λ x. IsSplit x rests out) (omega arith) q,
        ),
      )
]
