-- ===== src/Canonical.antt =====
-- The canonical terms and their hash: frontend/src/lib/canonical.ts, on the values that `JSON.parse`
-- yields. A text is here the list of its UTF-16 code units, which strings of the language are, and
-- `keccak256(toHex(s))` is a parameter. An integer is below 10 ^ 21, so that it prints as a decimal.
pub mod Order
use shared_deposit_monad.Base.{
  ℕ, suc, ◌+◌, ◌*◌, ◌/◌, ◌%◌, Bool, true, false, ◌&&◌, ◌||◌, Option, none, some, List, [], ◌∷◌,
  ◌++◌, Text, txt, if◌then◌else◌, ltb, leb, ◌==◌, ℤ, pos, negsuc,
}
use shared_deposit_monad.ContractTx.Messages.{decimal}

-- A number that is no integer is a `fraction`; the properties of an object are in their own order.
mutual
  pub data Json : Type 0 where
    null fraction : Json
    boolean : Bool → Json
    integer : ℤ → Json
    text : Text → Json
    array : Items → Json
    object : Props → Json

  pub data Items : Type 0 where
    no_items : Items
    item : Json → Items → Items

  pub data Props : Type 0 where
    no_props : Props
    prop : Text → Json → Props → Props

abbrev pub hex_digit : ℕ → ℕ
hex_digit n = if ltb n 10 then 48 + n else 87 + n

-- `\uXXXX`
abbrev pub escaped_unit : ℕ → Text
escaped_unit c =
    92
    ∷ 117
    ∷ hex_digit (c / 4096 % 16)
    ∷ hex_digit (c / 256 % 16)
    ∷ hex_digit (c / 16 % 16)
    ∷ hex_digit (c % 16)
    ∷ []

abbrev pub is_high : ℕ → Bool
is_high c = leb 55296 c && leb c 56319

abbrev pub is_low : ℕ → Bool
is_low c = leb 56320 c && leb c 57343

-- One code unit inside the quotes of `JSON.stringify`.
unfoldable pub quote_unit : ℕ → Text
quote_unit c =
    if c == 34
    then 92 ∷ 34 ∷ []
    else if c == 92
    then 92 ∷ 92 ∷ []
    else if c == 8
    then 92 ∷ 98 ∷ []
    else if c == 9
    then 92 ∷ 116 ∷ []
    else if c == 10
    then 92 ∷ 110 ∷ []
    else if c == 12
    then 92 ∷ 102 ∷ []
    else if c == 13
    then 92 ∷ 114 ∷ []
    else if ltb c 32 || (is_high c || is_low c)
    then escaped_unit c
    else c ∷ []

-- A surrogate pair stays as it is.
unfoldable pub quote_units : Text → Text
unfolding quote_unit
quote_units [] = []
quote_units (c ∷ []) = quote_unit c
quote_units (c ∷ d ∷ s) =
    let paired = quote_units s in
    let rest = quote_units (d ∷ s) in
    if is_high c && is_low d then c ∷ d ∷ paired else quote_unit c ++ rest

-- `JSON.stringify` of a string and of an integer.
unfoldable pub quoted : Text → Text
unfolding quote_units
quoted s = 34 ∷ (quote_units s ++ 34 ∷ [])

unfoldable pub printed : ℤ → Text
unfolding decimal
printed (pos n) = decimal n
printed (negsuc n) = 45 ∷ decimal (suc n)

-- The order of `sort()`: by code units.
unfoldable pub is_before : Text → Text → Bool
is_before [] [] = false
is_before [] (d ∷ t) = true
is_before (c ∷ s) [] = false
is_before (c ∷ s) (d ∷ t) = if c == d then is_before s t else ltb c d

-- A property with its canonical value joins the sorted ones.
unfoldable pub insert : Text → Text → List (Text × Text) → List (Text × Text)
unfolding is_before
insert k v [] = (k, v) ∷ []
insert k v ((j, w) ∷ ps) =
    let rest = insert k v ps in if is_before j k then (j, w) ∷ rest else (k, v) ∷ (j, w) ∷ ps

-- `join(',')`
unfoldable pub join : List Text → Text
join [] = []
join (a ∷ []) = a
join (a ∷ b ∷ rest) = a ++ 44 ∷ join (b ∷ rest)

unfoldable pub pairs : List (Text × Text) → List Text
unfolding quoted
pairs [] = []
pairs ((k, v) ∷ ps) = (quoted k ++ 58 ∷ v) ∷ pairs ps

-- An exception of one part is that of the whole.
abbrev pub and_item : Option Text → Option (List Text) → Option (List Text)
and_item none l = none
and_item (some v) none = none
and_item (some v) (some l) = some (v ∷ l)

abbrev pub and_prop : Text → Option Text → Option (List (Text × Text)) → Option (List (Text × Text))
and_prop k none ps = none
and_prop k (some v) none = none
and_prop k (some v) (some ps) = some (insert k v ps)

abbrev pub bracketed : Option (List Text) → Option Text
bracketed none = none
bracketed (some l) = some (91 ∷ (join l ++ 93 ∷ []))

abbrev pub braced : Option (List (Text × Text)) → Option Text
braced none = none
braced (some ps) = some (123 ∷ (join (pairs ps) ++ 125 ∷ []))

-- `canonicalize`; `none` is the exception on a number that is no integer.
unfoldable mutual
  unfolding quoted printed insert join pairs txt

  pub canonicalize : Json → Option Text
  canonicalize null = some (txt "null")
  canonicalize fraction = none
  canonicalize (boolean true) = some (txt "true")
  canonicalize (boolean false) = some (txt "false")
  canonicalize (integer z) = some (printed z)
  canonicalize (text s) = some (quoted s)
  canonicalize (array l) = bracketed (canonical_items l)
  canonicalize (object p) = braced (canonical_props p)

  pub canonical_items : Items → Option (List Text)
  canonical_items no_items = some []
  canonical_items (item v l) = and_item (canonicalize v) (canonical_items l)

  -- The properties with their canonical values, sorted.
  pub canonical_props : Props → Option (List (Text × Text))
  canonical_props no_props = some []
  canonical_props (prop k v p) = and_prop k (canonicalize v) (canonical_props p)

abbrev pub hash_of {ℓ} : {H : Type ℓ} → (Text → H) → Option Text → Option H
hash_of keccak none = none
hash_of keccak (some s) = some (keccak s)

-- `termsHash`, with `keccak256(toHex(s))` as the parameter.
unfoldable pub terms_hash {ℓ} : {H : Type ℓ} → (Text → H) → Json → Option H
unfolding canonicalize
terms_hash keccak v = hash_of keccak (canonicalize v)
