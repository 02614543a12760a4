-- ===== src/Base/Texts.antt =====
-- Program text as its code points. `toLowerCase` is that of ASCII, the alphabet of addresses,
-- hashes and identifiers.
use Prim.Native.Nat.{ℕ, ◌+◌}
use Prim.Native.Char.{code}
use Prim.Native.String.{String}
use mathlib.Core.Path.{◌≡◌, refl, ap}
use mathlib.Core.Logic.{◌↔◌}
use mathlib.Core.Bool.{Bool, true, false, ◌&&◌}
use mathlib.Core.Option.{Option, none, some}
use mathlib.Core.List.{List, [], ◌∷◌}
use native.Mathlib.Omega.{arith}
use shared_deposit_monad.Base.Tests.{leb, ◌==◌, if◌then◌else◌}

abbrev pub Text : Type 0
Text = List ℕ

-- The text of a literal.
unfoldable pub txt : String → Text
txt String.[] = []
txt (String.◌∷◌ c s) = code c ∷ txt s

-- `a === b` on strings
unfoldable pub text_eq : Text → Text → Bool
text_eq [] [] = true
text_eq [] (d ∷ t) = false
text_eq (c ∷ s) [] = false
text_eq (c ∷ s) (d ∷ t) = (c == d) && text_eq s t

pub text_eq_sound : (s t : Text) → text_eq s t ≡ true → s ≡ t
unfolding text_eq
text_eq_sound [] [] h = refl
text_eq_sound [] (d ∷ t) h = cc
text_eq_sound (c ∷ s) [] h = cc
text_eq_sound (c ∷ s) (d ∷ t) h = ground (arith, text_eq_sound s t)

pub text_eq_refl : (s : Text) → text_eq s s ≡ true
unfolding text_eq
text_eq_refl [] = refl
text_eq_refl (c ∷ s) = ground (arith, text_eq_refl s)

pub text_eq_iff : (s t : Text) → (text_eq s t ≡ true) ↔ (s ≡ t)
text_eq_iff s t = (text_eq_sound s t, λ e. rw e (text_eq_refl t))

lower_code : ℕ → ℕ
lower_code c = if leb b'A' c && leb c b'Z' then c + 32 else c

-- `s.toLowerCase()`
unfoldable pub lower : Text → Text
unfolding lower_code
lower [] = []
lower (c ∷ s) = lower_code c ∷ lower s

lower_code_idempotent : (c : ℕ) → lower_code (lower_code c) ≡ lower_code c
unfolding lower_code
lower_code_idempotent c = ground arith

pub lower_idempotent : (s : Text) → lower (lower s) ≡ lower s
unfolding lower
lower_idempotent [] = refl
lower_idempotent (c ∷ s) = ground (arith, lower_code_idempotent c, lower_idempotent s)

-- `Boolean(value)` of a string that may be null or undefined
abbrev pub truthy : Option Text → Bool
truthy none = false
truthy (some []) = false
truthy (some (c ∷ s)) = true

pub truthy-lower : (c : ℕ) (s : Text) → truthy (some (lower (c ∷ s))) ≡ true
unfolding lower
truthy-lower c s = refl

-- `value ? value.toLowerCase() : null`; the empty string is falsy.
unfoldable pub norm : Option Text → Option Text
norm none = none
norm (some []) = none
norm (some (c ∷ s)) = some (lower (c ∷ s))

-- `a === b` of strings that may be null
unfoldable pub opt_eq : Option Text → Option Text → Bool
opt_eq none none = true
opt_eq none (some t) = false
opt_eq (some s) none = false
opt_eq (some s) (some t) = text_eq s t

pub opt_eq_sound : (s t : Option Text) → opt_eq s t ≡ true → s ≡ t
unfolding opt_eq
opt_eq_sound none none h = refl
opt_eq_sound none (some t) h = cc
opt_eq_sound (some s) none h = cc
opt_eq_sound (some s) (some t) h = ap some (text_eq_sound s t h)

pub opt_eq_refl : (s : Option Text) → opt_eq s s ≡ true
unfolding opt_eq
opt_eq_refl none = refl
opt_eq_refl (some s) = text_eq_refl s

pub opt_eq_iff : (s t : Option Text) → (opt_eq s t ≡ true) ↔ (s ≡ t)
opt_eq_iff s t = (opt_eq_sound s t, λ e. rw e (opt_eq_refl t))
