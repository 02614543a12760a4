-- ===== src/Examples/Pages.antt =====
-- The pages of the client at concrete inputs.
use shared_deposit_monad.Base.{
  ℕ, ◌-◌, ◌≤◌, ◌≡◌, refl, true, false, Option, none, some, List, [], ◌∷◌, Text, txt, arith, length,
  lower, ◌++◌, map, All, pos, text_eq, has_text,
}
use shared_deposit_monad.Format.{
  mon_to_wei, trim, trim_start, trim_end, is_space, decimal_input, decimal_rest, is_digit,
}
use shared_deposit_monad.Wizard.{
  Wizard, Readers, validate_basics, validate_participants, validate_contributions, total_wei,
  all_tenant_wallets, basics_problems, first_problem, missing_date, problem_if,
  participants_problems, invalid_address, others, has_duplicate, lower_all, contribution_problem,
}
use shared_deposit_monad.Wizard.Timeline.{validate-check_terms}
use shared_deposit_monad.Wizard.{amounts}
use shared_deposit_monad.Wizard.Submit.{
  DraftTenant, DraftBody, empty_row, submit_body, submit_tenants, draft_tenants, draft_tenant,
}
use shared_deposit_monad.Wizard.Submit.Posted.{posted_sum, submit_body-total}
use shared_deposit_monad.Canonical.{
  Json, Props, integer, boolean, array, object, item, no_items, prop, no_props, canonicalize,
  terms_hash,
}
use shared_deposit_monad.Escrow.Storage.{Msg, ok}
use shared_deposit_monad.Escrow.Creation.{Terms, check_terms}
use shared_deposit_monad.Examples.Views.{wallet}

abbrev wizard : Wizard
wizard = record {
  creator_wallet = wallet;
  step = 0;
  error = none;
  alias = wallet;
  private_address = [];
  lease_start = 49 ∷ [];
  lease_end = 51 ∷ [];
  funding_deadline = 50 ∷ [];
  claim_deadline = 52 ∷ [];
  settlement_deadline = 53 ∷ [];
  recipient = 114 ∷ [];
  tenants = record { wallet = 116 ∷ []; display_label = []; amount_mon = 50 ∷ [] } ∷ [];
  creator_amount = 49 ∷ [];
  acknowledged = false;
}

-- A date is its digit.
abbrev digit : Text → Option ℕ
digit [] = none
digit (c ∷ t) = some (c - 48)

abbrev terms : Terms
terms = record {
  recipient = 9;
  terms_hash = 8;
  lease_start = 1;
  lease_end = 3;
  funding_deadline = 2;
  claim_deadline = 4;
  settlement_deadline = 5;
  tenant_addresses = 1 ∷ 2 ∷ [];
  required_amounts = 5 ∷ 5 ∷ [];
}

abbrev msg : Msg
msg = record { sender = 1; value = 0; timestamp = 1 }

basics_valid : validate_basics digit 1500 wizard ≡ none
unfolding validate_basics basics_problems first_problem missing_date problem_if trim trim_start
    trim_end is_space
basics_valid = refl

participants_valid : validate_participants (λ t. true) wizard ≡ none
unfolding validate_participants participants_problems first_problem problem_if invalid_address
    others trim trim_start trim_end is_space has_duplicate has_text all_tenant_wallets lower_all
    lower text_eq
participants_valid = refl

same_count : length terms.tenant_addresses ≡ length (all_tenant_wallets wizard)
unfolding all_tenant_wallets others lower_all trim trim_start trim_end is_space
same_count = refl

validate-check_terms_example : check_terms msg terms ≡ ok tt
validate-check_terms_example =
    validate-check_terms digit (λ t. true) 1500 wizard msg terms basics_valid participants_valid
      (refl, (refl, (refl, (refl, refl)))) (omega arith) same_count refl (omega arith) (omega arith)

abbrev amounts_text : List Text
amounts_text = (49 ∷ []) ∷ (50 ∷ []) ∷ []

contributions_valid : validate_contributions (λ t. 5) 1 amounts_text ≡ none
unfolding validate_contributions contribution_problem mon_to_wei decimal_input decimal_rest is_digit
    trim trim_start trim_end is_space problem_if
contributions_valid = refl

abbrev readers : Readers
readers = record { to_unix = digit; is_address = λ t. true; parse_ether = λ t. 5 }

-- A wizard with one tenant more, whose row is empty but for the amount.
abbrev with_row : Wizard
with_row = record wizard {
  tenants = wizard.tenants ++ record (empty_row) { amount_mon = 51 ∷ [] } ∷ [];
}

contributions_valid2 : validate_contributions (λ t. 5) 1 (amounts with_row) ≡ none
unfolding validate_contributions contribution_problem mon_to_wei decimal_input decimal_rest is_digit
    trim trim_start trim_end is_space problem_if
contributions_valid2 = refl

submit_body-total_example :
    (body : DraftBody) × (submit_body readers with_row ≡ some body)
    × (total_wei readers.parse_ether (amounts with_row) ≡ some (posted_sum body.tenants))
    × All (λ t. 1 ≤ t.required_amount_wei) body.tenants
    × (length body.tenants ≡ 3)
submit_body-total_example = submit_body-total readers with_row contributions_valid2

-- The participants' step lets that row through, and the draft is posted with an empty wallet.
empty_row_valid : validate_participants (λ t. true) with_row ≡ none
unfolding validate_participants participants_problems first_problem problem_if invalid_address
    others trim trim_start trim_end is_space has_duplicate has_text all_tenant_wallets lower_all
    lower text_eq
empty_row_valid = refl

abbrev posted_wallets : Option (List DraftTenant) → List Text
posted_wallets none = []
posted_wallets (some ts) = map (λ t. t.wallet) ts

empty_row_posted : posted_wallets (submit_tenants (λ t. 5) with_row) ≡ wallet ∷ (116 ∷ []) ∷ [] ∷ []
unfolding submit_tenants draft_tenants draft_tenant mon_to_wei decimal_input decimal_rest is_digit
    trim trim_start trim_end is_space
empty_row_posted = refl

-- The same terms with two properties in the other order, one object deep.
abbrev inner : Props
inner = prop (97 ∷ []) (integer (pos 1)) (prop (98 ∷ []) (boolean true) no_props)

abbrev reordered : Props
reordered = prop (98 ∷ []) (boolean true) (prop (97 ∷ []) (integer (pos 1)) no_props)

abbrev value : Json
value = object (prop (120 ∷ []) (array (item (object inner) no_items)) no_props)

abbrev value2 : Json
value2 = object (prop (120 ∷ []) (array (item (object reordered) no_items)) no_props)

-- {"x":[{"a":1,"b":true}]}
canonical_value : canonicalize value2 ≡ some (txt "{\"x\":[{\"a\":1,\"b\":true}]}")
unfolding canonicalize
canonical_value = refl
