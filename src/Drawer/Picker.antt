-- ===== src/Drawer/Picker.antt =====
-- The list of the wallet picker: one connector for each name.
use shared_deposit_monad.Base.{
  ◌≡◌, refl, sym, ◌∙◌, ap, subst, ◌⊎◌, inl, inr, Bool, true, false, ◌||◌, Option, none, some, List,
  [], ◌∷◌, ◌++◌, Text, txt, text_eq, text_eq_refl, text_eq_sound, lower, is_some, if◌then◌else◌,
  any, arith, Bool-cases, if_true, if_false,
}
use shared_deposit_monad.Drawer.{
  Connector, replace, lookup, add_connector, add_connectors, dedupe_connectors,
}

abbrev pub has_name : Text → List Connector → Bool
has_name key cs = any (λ c. text_eq (lower c.name) key) cs

-- No two connectors have the same name, up to the case of letters.
abbrev pub HasNames : List Connector → Type 0
HasNames [] = Unit
HasNames (c ∷ cs) = (has_name (lower c.name) cs ≡ false) × HasNames cs

has_name-append :
    (key : Text) (xs : List Connector) (c : Connector)
    → has_name key (xs ++ c ∷ []) ≡ (has_name key xs || text_eq (lower c.name) key)
has_name-append key [] c = ground arith
has_name-append key (x ∷ xs) c = ground (arith, has_name-append key xs c)

has_name-replace :
    (key other : Text) (c : Connector) (cs : List Connector)
    → lower c.name ≡ key
    → has_name other (replace key c cs) ≡ has_name other cs
unfolding replace
has_name-replace key other c [] h = refl
has_name-replace key other c (d ∷ ds) h = elim (Bool-cases (text_eq (lower d.name) key)) [
  | inl k ↦ rw (k, text_eq_sound (lower d.name) key k, h) refl
  | inr k ↦ rw k (ground (arith, has_name-replace key other c ds h))
]

lookup-has_name : (key : Text) (cs : List Connector) → is_some (lookup key cs) ≡ has_name key cs
unfolding lookup
lookup-has_name key [] = refl
lookup-has_name key (d ∷ ds) = elim (Bool-cases (text_eq (lower d.name) key)) [
  | inl k ↦ rw k refl
  | inr k ↦ rw k (lookup-has_name key ds)
]

HasNames-replace :
    (key : Text) (c : Connector) (cs : List Connector)
    → lower c.name ≡ key
    → HasNames cs
    → HasNames (replace key c cs)
unfolding replace
HasNames-replace key c [] h k = tt
HasNames-replace key c (d ∷ ds) h k = elim (Bool-cases (text_eq (lower d.name) key)) [
  | inl q ↦
      rw q
        (subst (λ x. has_name x ds ≡ false) (text_eq_sound (lower d.name) key q ∙ sym h) k.0, k.1)
  | inr q ↦ rw q (has_name-replace key (lower d.name) c ds h ∙ k.0, HasNames-replace key c ds h k.1)
]

text_eq_flip : (s t : Text) → text_eq s t ≡ false → text_eq t s ≡ false
text_eq_flip s t h = elim (Bool-cases (text_eq t s)) [
  | inl k ↦ absurd (
      let e = text_eq_sound t s k in
      let r = text_eq_refl s in let h2 = subst (λ x. text_eq s x ≡ false) e h in cc)
  | inr k ↦ k
]

HasNames-append :
    (cs : List Connector) (c : Connector)
    → has_name (lower c.name) cs ≡ false
    → HasNames cs
    → HasNames (cs ++ c ∷ [])
HasNames-append [] c h k = (refl, tt)
HasNames-append (d ∷ ds) c h k =
    let h1 : text_eq (lower d.name) (lower c.name) ≡ false = ground (arith, h) in
    let h2 : has_name (lower c.name) ds ≡ false = ground (arith, h) in
    (
      has_name-append (lower d.name) ds c
          ∙ rw (k.0, text_eq_flip (lower d.name) (lower c.name) h1) refl,
      HasNames-append ds c h2 k.1,
    )

-- What one step does to the names, by what it finds.
add_connector-found :
    (c : Connector) (cs : List Connector)
    → ((has_name (lower c.name) cs ≡ false) × (add_connector c cs ≡ cs ++ c ∷ []))
      ⊎ ((has_name (lower c.name) cs ≡ true)
          × ((add_connector c cs ≡ replace (lower c.name) c cs) ⊎ (add_connector c cs ≡ cs)))
unfolding add_connector
add_connector-found c cs = by_found (lookup (lower c.name) cs) refl
  where
    step : Option Connector → List Connector
    step o = elim o [
      | none ↦ cs ++ c ∷ []
      | some existing ↦
          if text_eq existing.id (txt "injected") then replace (lower c.name) c cs else cs
    ]

    by_found :
        (o : Option Connector)
        → lookup (lower c.name) cs ≡ o
        → ((has_name (lower c.name) cs ≡ false) × (step o ≡ cs ++ c ∷ []))
          ⊎ ((has_name (lower c.name) cs ≡ true)
              × ((step o ≡ replace (lower c.name) c cs) ⊎ (step o ≡ cs)))
    by_found none e = inl (sym (lookup-has_name (lower c.name) cs) ∙ ap is_some e, refl)
    by_found (some x) e = inr (
      sym (lookup-has_name (lower c.name) cs) ∙ ap is_some e,
      elim (Bool-cases (text_eq x.id (txt "injected"))) [
        | inl k ↦ inl (if_true _ _ k)
        | inr k ↦ inr (if_false _ _ k)
      ],
    )

add_connector-HasNames :
    (c : Connector) (cs : List Connector) → HasNames cs → HasNames (add_connector c cs)
add_connector-HasNames c cs h = elim (add_connector-found c cs) [
  | inl (k, e) ↦ subst HasNames (sym e) (HasNames-append cs c k h)
  | inr (k, inl e) ↦ subst HasNames (sym e) (HasNames-replace (lower c.name) c cs refl h)
  | inr (k, inr e) ↦ subst HasNames (sym e) h
]

add_connector-has_name :
    (key : Text) (c : Connector) (cs : List Connector)
    → has_name key (add_connector c cs) ≡ (has_name key cs || text_eq (lower c.name) key)
add_connector-has_name key c cs = elim (add_connector-found c cs) [
  | inl (k, e) ↦ ap (has_name key) e ∙ has_name-append key cs c
  | inr (k, inl e) ↦
      ap (has_name key) e ∙ (has_name-replace (lower c.name) key c cs refl ∙ present k)
  | inr (k, inr e) ↦ ap (has_name key) e ∙ present k
]
  where
    present :
        has_name (lower c.name) cs ≡ true
        → has_name key cs ≡ (has_name key cs || text_eq (lower c.name) key)
    present k = elim (Bool-cases (text_eq (lower c.name) key)) [
      | inl q ↦
          (let z = subst (λ x. has_name x cs ≡ true) (text_eq_sound (lower c.name) key q) k in
            ground (arith, z, q))
      | inr q ↦ ground (arith, q)
    ]

add_connectors-HasNames :
    (cs by_name : List Connector) → HasNames by_name → HasNames (add_connectors cs by_name)
unfolding add_connectors
add_connectors-HasNames [] by_name h = h
add_connectors-HasNames (c ∷ cs) by_name h =
    add_connectors-HasNames cs (add_connector c by_name) (add_connector-HasNames c by_name h)

add_connectors-has_name :
    (key : Text) (cs by_name : List Connector)
    → has_name key (add_connectors cs by_name) ≡ (has_name key by_name || has_name key cs)
unfolding add_connectors
add_connectors-has_name key [] by_name = ground arith
add_connectors-has_name key (c ∷ cs) by_name = ground (
  arith,
  add_connectors-has_name key cs (add_connector c by_name),
  add_connector-has_name key c by_name,
)

-- The picker lists no two wallets of one name, up to the case of letters, and leaves no name out.
pub dedupe_connectors-HasNames :
    (cs : List Connector)
    → HasNames (dedupe_connectors cs)
      × ((key : Text) → has_name key (dedupe_connectors cs) ≡ has_name key cs)
unfolding dedupe_connectors
dedupe_connectors-HasNames cs =
    (add_connectors-HasNames cs [] tt, λ key. add_connectors-has_name key cs [])
