-- ===== src/Canonical/Order.antt =====
-- The canonical text of frontend/src/lib/canonical.ts and the order of properties.
use shared_deposit_monad.Base.{
  ◌≡◌, refl, ◌∙◌, ap, true, false, not, Option, none, some, List, [], ◌∷◌, Text, text_eq, ==_iff,
  arith,
}
use shared_deposit_monad.Canonical.{
  Json, Items, Props, array, object, no_items, item, prop, is_before, insert, and_prop, bracketed,
  braced, canonicalize, canonical_items, canonical_props,
}

-- Two values that differ in the order of properties only, at any depth. The names of the properties of
-- an object are distinct.
mutual
  pub data SameJson : Json → Json → Type 0 where
    same : {v : Json} → SameJson v v
    same_array : {l m : Items} → SameItems l m → SameJson (array l) (array m)
    same_object : {p q : Props} → SameProps p q → SameJson (object p) (object q)

  pub data SameItems : Items → Items → Type 0 where
    same_end : SameItems no_items no_items
    same_item :
        {v w : Json} {l m : Items} → SameJson v w → SameItems l m → SameItems (item v l) (item w m)

  pub data SameProps : Props → Props → Type 0 where
    same_props : {p : Props} → SameProps p p
    same_prop :
        {k : Text} {v w : Json} {p q : Props}
        → SameJson v w
        → SameProps p q
        → SameProps (prop k v p) (prop k w q)
    swapped :
        {j k : Text} {v w : Json} {p : Props}
        → text_eq j k ≡ false
        → SameProps (prop j v (prop k w p)) (prop k w (prop j v p))
    same_trans : {p q r : Props} → SameProps p q → SameProps q r → SameProps p r

is_before_total : (s t : Text) → text_eq s t ≡ false → is_before t s ≡ not (is_before s t)
unfolding is_before text_eq
is_before_total [] [] h = cc
is_before_total [] (d ∷ t) h = refl
is_before_total (c ∷ s) [] h = refl
is_before_total (c ∷ s) (d ∷ t) h = ground (arith, ==_iff c d, ==_iff d c, is_before_total s t)

-- A text that is not after another is before what the other is before.
is_before_trans :
    (x a b : Text) → is_before x b ≡ false → is_before x a ≡ true → is_before b a ≡ true
unfolding is_before
is_before_trans [] [] b h k = cc
is_before_trans [] (d ∷ a) [] h k = refl
is_before_trans [] (d ∷ a) (e ∷ b) h k = cc
is_before_trans (c ∷ x) [] b h k = cc
is_before_trans (c ∷ x) (d ∷ a) [] h k = refl
is_before_trans (c ∷ x) (d ∷ a) (e ∷ b) h k =
    ground (arith, ==_iff c d, ==_iff c e, ==_iff e d, is_before_trans x a b)

insert-insert :
    (j k v w : Text) (ps : List (Text × Text))
    → text_eq j k ≡ false
    → insert j v (insert k w ps) ≡ insert k w (insert j v ps)
unfolding insert
insert-insert j k v w [] h = let other = is_before_total j k h in ground arith
insert-insert j k v w ((x, y) ∷ ps) h =
    let other = is_before_total j k h in
    ground (arith, is_before_trans x j k, is_before_trans x k j, insert-insert j k v w ps h)

swap_lem :
    (j k : Text) (v w : Option Text) (ps : Option (List (Text × Text)))
    → text_eq j k ≡ false
    → and_prop j v (and_prop k w ps) ≡ and_prop k w (and_prop j v ps)
swap_lem j k none none ps h = refl
swap_lem j k none (some w) none h = refl
swap_lem j k none (some w) (some ps) h = refl
swap_lem j k (some v) none none h = refl
swap_lem j k (some v) none (some ps) h = refl
swap_lem j k (some v) (some w) none h = refl
swap_lem j k (some v) (some w) (some ps) h = ap (λ x. some x) (insert-insert j k v w ps h)

mutual
  unfolding canonicalize

  same_lem : {v w : Json} → SameJson v w → canonicalize v ≡ canonicalize w
  same_lem same = refl
  same_lem (same_array h) = ap (λ x. bracketed x) (same_items h)
  same_lem (same_object h) = ap (λ x. braced x) (same_props_lem h)

  same_items : {l m : Items} → SameItems l m → canonical_items l ≡ canonical_items m
  same_items same_end = refl
  same_items (same_item h k) = rw (same_lem h, same_items k) refl

  same_props_lem : {p q : Props} → SameProps p q → canonical_props p ≡ canonical_props q
  same_props_lem same_props = refl
  same_props_lem (same_prop h k) = rw (same_lem h, same_props_lem k) refl
  same_props_lem (swapped {j} {k} {v} {w} {p} h) =
      swap_lem j k (canonicalize v) (canonicalize w) (canonical_props p) h
  same_props_lem (same_trans h k) = same_props_lem h ∙ same_props_lem k
