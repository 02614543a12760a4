-- ===== src/Activity/Times.antt =====
-- The times and the states of the timeline: `parseUtcSeconds` of frontend/src/lib/activity.ts and
-- frontend/src/components/AgreementActivity.tsx. `Date.parse` is a parameter, in milliseconds; none is
-- `NaN`.
use shared_deposit_monad.Base.{
  ℕ, ◌/◌, ◌≡◌, refl, inl, inr, Bool, true, false, ◌&&◌, ◌||◌, Option, none, some, List, [], ◌∷◌,
  ◌++◌, Text, if◌then◌else◌, ◌==◌, arith, Bool-cases,
}
use shared_deposit_monad.Format.{is_digit}
use shared_deposit_monad.Stored.{StoredTransaction}
use shared_deposit_monad.Activity.{ActivityRow, to_timeline}

unfoldable pub has_z : Text → Bool
has_z [] = false
has_z (c ∷ s) = (c == 90) || has_z s

-- `[+-]\d{2}:\d{2}`, all of the text
unfoldable pub is_offset : Text → Bool
unfolding is_digit
is_offset (sign ∷ a ∷ b ∷ colon ∷ c ∷ d ∷ []) =
    ((sign == 43) || (sign == 45))
    && (is_digit a && (is_digit b && ((colon == 58) && (is_digit c && is_digit d))))
is_offset _ = false

-- The same at the end of the text.
unfoldable pub ends_in_offset : Text → Bool
unfolding is_offset
ends_in_offset [] = false
ends_in_offset (c ∷ s) = is_offset (c ∷ s) || ends_in_offset s

-- A timestamp without a zone is in UTC.
unfoldable pub normalized : Text → Text
unfolding has_z ends_in_offset
normalized timestamp =
    if has_z timestamp || ends_in_offset timestamp then timestamp else timestamp ++ 90 ∷ []

unfoldable pub parse_utc_seconds : (date_parse : Text → Option ℕ) → Text → Option ℕ
unfolding normalized
parse_utc_seconds date_parse timestamp = elim (date_parse (normalized timestamp)) [
  | none ↦ none
  | some ms ↦ some (ms / 1000)
]

-- What the component shows.
pub data ActivityView : Type 0 where
  signed_out loading unavailable empty : ActivityView
  table : List ActivityRow → ActivityView

abbrev pub table_of : List ActivityRow → ActivityView
table_of [] = empty
table_of (row ∷ rows) = table (row ∷ rows)

unfoldable pub agreement_activity :
    (comes_after : Text → Text → Bool)
    → (authenticated is_loading is_error : Bool) → List StoredTransaction
    → ActivityView
unfolding to_timeline
agreement_activity comes_after authenticated is_loading is_error transactions =
    if authenticated
    then (if is_loading
        then loading
        else (if is_error then unavailable else table_of (to_timeline comes_after transactions)))
    else signed_out

has_z-append : (s : Text) → has_z (s ++ 90 ∷ []) ≡ true
unfolding has_z
has_z-append [] = refl
has_z-append (c ∷ s) = ground (arith, has_z-append s)

-- A normalized timestamp has a zone, so a second normalization leaves it.
pub normalized_idempotent :
    (timestamp : Text) → normalized (normalized timestamp) ≡ normalized timestamp
unfolding normalized
normalized_idempotent timestamp = elim (Bool-cases (has_z timestamp || ends_in_offset timestamp)) [
  | inl k ↦ rw (k, k) refl
  | inr k ↦ rw (k, has_z-append timestamp) refl
]
