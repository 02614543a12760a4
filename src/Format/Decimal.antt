-- ===== src/Format/Decimal.antt =====
-- Which texts `monToWei` of frontend/src/lib/format.ts accepts, and what it reads them as.
use shared_deposit_monad.Base.{
  ℕ, ◌≤◌, ◌≡◌, refl, sym, ◌∙◌, ap, subst, ◌↔◌, ◌⊎◌, inl, inr, Bool, true, false, ◌&&◌, none, some,
  [], ◌∷◌, ◌++◌, Text, if◌then◌else◌, leb, ◌==◌, length, arith, Bool-cases, if_true, if_false,
  is_some,
}
use shared_deposit_monad.Format.{
  trim, is_digit, all_digits, decimal_rest, decimal_input, mon_to_wei,
}

-- A decimal amount: digits alone, or digits, a point, and one to eighteen digits.
pub data IsAmount : Text → Type 0 where
  whole : (c : ℕ) (ds : Text) → is_digit c ≡ true → all_digits ds ≡ true → IsAmount (c ∷ ds)
  fraction :
      (c : ℕ) (ds fs : Text)
      → is_digit c ≡ true
      → all_digits ds ≡ true
      → all_digits fs ≡ true
      → 1 ≤ length fs
      → length fs ≤ 18
      → IsAmount (c ∷ (ds ++ (46 ∷ fs)))

decimal_rest-digits : (ds : Text) → all_digits ds ≡ true → decimal_rest ds ≡ true
unfolding all_digits decimal_rest
decimal_rest-digits [] h = refl
decimal_rest-digits (c ∷ ds) h =
    let k : is_digit c ≡ true = ground (arith, h) in
    let k2 : all_digits ds ≡ true = ground (arith, h) in rw k (decimal_rest-digits ds k2)

point_digit : is_digit 46 ≡ false
unfolding is_digit
point_digit = refl

decimal_rest-fraction :
    (ds fs : Text)
    → all_digits ds ≡ true
    → all_digits fs ≡ true
    → 1 ≤ length fs
    → length fs ≤ 18
    → decimal_rest (ds ++ (46 ∷ fs)) ≡ true
unfolding all_digits decimal_rest
decimal_rest-fraction [] fs h h2 h3 h4 = ground (arith, h2, h3, h4)
decimal_rest-fraction (c ∷ ds) fs h h2 h3 h4 =
    let k : is_digit c ≡ true = ground (arith, h) in
    let k2 : all_digits ds ≡ true = ground (arith, h) in
    rw k (decimal_rest-fraction ds fs k2 h2 h3 h4)

-- The rest after a first digit, read back.
RestSplits : Text → Type 0
RestSplits s =
    (all_digits s ≡ true)
    ⊎ ((ds : Text) × ((fs : Text) × ((s ≡ ds ++ (46 ∷ fs))
            × ((all_digits ds ≡ true)
                × ((all_digits fs ≡ true) × ((1 ≤ length fs) × (length fs ≤ 18)))))))

RestSplits-cons : (c : ℕ) (s : Text) → is_digit c ≡ true → RestSplits s → RestSplits (c ∷ s)
unfolding RestSplits all_digits
RestSplits-cons c s k (inl h) = inl (rw k h)
RestSplits-cons c s k (inr (ds, (fs, (e, (h1, h2))))) =
    inr (c ∷ ds, (fs, (ap (λ r. c ∷ r) e, (rw k h1, h2))))

RestSplits-point :
    (c : ℕ) (s : Text)
    → (c == 46 && (all_digits s && (leb 1 (length s) && leb (length s) 18))) ≡ true
    → RestSplits (c ∷ s)
unfolding RestSplits all_digits
RestSplits-point c s q =
    let e : c ≡ 46 = ground (arith, q) in
    let h1 : all_digits s ≡ true = ground (arith, q) in
    let h2 : 1 ≤ length s = ground (arith, q) in
    let h3 : length s ≤ 18 = ground (arith, q) in
    inr ([], (s, (ap (λ x. x ∷ s) e, (refl, (h1, (h2, h3))))))

decimal_rest-splits : (s : Text) → decimal_rest s ≡ true → RestSplits s
unfolding decimal_rest RestSplits all_digits
decimal_rest-splits [] h = inl refl
decimal_rest-splits (c ∷ s) h = elim (Bool-cases (is_digit c)) [
  | inl k ↦ RestSplits-cons c s k (decimal_rest-splits s (sym (if_true _ _ k) ∙ h))
  | inr k ↦ RestSplits-point c s (sym (if_false _ _ k) ∙ h)
]

decimal_input-IsAmount : (s : Text) → decimal_input s ≡ true → IsAmount s
unfolding decimal_input RestSplits
decimal_input-IsAmount [] h = absurd (cc)
decimal_input-IsAmount (c ∷ s) h =
    let k : is_digit c ≡ true = ground (arith, h) in
    let k2 : decimal_rest s ≡ true = ground (arith, h) in
    elim (decimal_rest-splits s k2) [
      | inl q ↦ IsAmount.whole c s k q
      | inr (ds, (fs, (e, (h1, (h2, (h3, h4)))))) ↦
          subst (λ x. IsAmount (c ∷ x)) (sym e) (IsAmount.fraction c ds fs k h1 h2 h3 h4)
    ]

IsAmount-decimal_input : (s : Text) → IsAmount s → decimal_input s ≡ true
unfolding decimal_input
IsAmount-decimal_input _ (IsAmount.whole c ds h h2) = rw (h, decimal_rest-digits ds h2) refl
IsAmount-decimal_input _ (IsAmount.fraction c ds fs h h2 h3 h4 h5) =
    rw (h, decimal_rest-fraction ds fs h2 h3 h4 h5) refl

accepted_lem : (b : Bool) (n : ℕ) → is_some (if b then some n else none) ≡ b
accepted_lem true n = refl
accepted_lem false n = refl

-- The texts that the amount fields accept are, white space around them aside, exactly the plain
-- decimal amounts: no sign, no exponent, no comma, and at most eighteen decimals.
pub mon_to_wei_iff :
    (parse_ether : Text → ℕ) (input : Text)
    → (is_some (mon_to_wei parse_ether input) ≡ true) ↔ IsAmount (trim input)
unfolding mon_to_wei
mon_to_wei_iff parse_ether input =
    let e = accepted_lem (decimal_input (trim input)) (parse_ether (trim input)) in
    (
      λ h. decimal_input-IsAmount (trim input) (sym e ∙ h),
      λ h. e ∙ IsAmount-decimal_input (trim input) h,
    )
