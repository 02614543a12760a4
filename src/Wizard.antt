-- ===== src/Wizard.antt =====
-- The creation wizard: frontend/src/pages/NewAgreement.tsx. The reading of a date, of an amount and of
-- an address are parameters; a date is a number of seconds from 1970 on, and `none` is `NaN`, with which
-- no comparison holds.
pub mod Timeline
pub mod Terms
pub mod Submit
use shared_deposit_monad.Base.{
  ℕ, zero, suc, ◌+◌, ◌-◌, ◌*◌, Bool, true, false, not, ◌&&◌, ◌||◌, Option, none, some, List, [],
  ◌∷◌, ◌++◌, Text, txt, text_eq, lower, truthy, if◌then◌else◌, ltb, leb, ◌==◌, length, has_text,
}
use shared_deposit_monad.Format.{trim, mon_to_wei, decimal_message}
use shared_deposit_monad.ContractTx.Messages.{decimal}

pub record TenantRow : Type 0 where
  pub wallet : Text
  pub display_label : Text
  pub amount_mon : Text

pub record Wizard : Type 0 where
  pub creator_wallet : Text
  pub step : ℕ
  pub error : Option Text
  pub alias : Text
  pub private_address : Text
  pub lease_start : Text
  pub lease_end : Text
  pub funding_deadline : Text
  pub claim_deadline : Text
  pub settlement_deadline : Text
  pub recipient : Text
  pub tenants : List TenantRow
  pub creator_amount : Text
  pub acknowledged : Bool

-- The last step of `STEPS`.
abbrev pub last_step : ℕ
last_step = 4

-- The checks of a step in their order; the first problem is the one that is shown.
unfoldable pub first_problem : List (Option Text) → Option Text
first_problem [] = none
first_problem (none ∷ ps) = first_problem ps
first_problem (some p ∷ ps) = some p

unfoldable pub problem_if : Bool → Text → Option Text
problem_if bad message = if bad then some message else none

-- `a <= b` and `a > b` on numbers that may be `NaN`.
abbrev pub is_le : Option ℕ → Option ℕ → Bool
is_le none b = false
is_le (some a) none = false
is_le (some a) (some b) = leb a b

abbrev pub is_gt : Option ℕ → Option ℕ → Bool
is_gt none b = false
is_gt (some a) none = false
is_gt (some a) (some b) = ltb b a

-- `toUnix(t) <= Date.now() / 1000`, the time now in milliseconds.
abbrev pub is_past : Option ℕ → ℕ → Bool
is_past none now_ms = false
is_past (some t) now_ms = leb (t * 1000) now_ms

unfoldable pub missing_date : Text → Text → Option Text
unfolding problem_if
missing_date label value =
    problem_if (not (truthy (some value))) (txt "Choose the " ++ (label ++ txt "."))

-- The other tenants' wallets, the empty ones left out.
unfoldable pub others : List TenantRow → List Text
unfolding trim
others [] = []
others (t ∷ ts) =
    let w = trim t.wallet in let rest = others ts in if truthy (some w) then w ∷ rest else rest

unfoldable pub lower_all : List Text → List Text
lower_all [] = []
lower_all (w ∷ ws) = lower w ∷ lower_all ws

-- `allTenantWallets`: the creator's wallet is taken as it is.
unfoldable pub all_tenant_wallets : Wizard → List Text
unfolding others lower_all
all_tenant_wallets w = w.creator_wallet ∷ lower_all (others w.tenants)

-- `new Set(ws).size !== ws.length`
unfoldable pub has_duplicate : List Text → Bool
unfolding has_text
has_duplicate [] = false
has_duplicate (w ∷ ws) = has_text ws w || has_duplicate ws

unfoldable pub basics_problems :
    (to_unix : Text → Option ℕ) → (now_ms : ℕ) → Wizard → List (Option Text)
unfolding missing_date problem_if
basics_problems to_unix now_ms w =
    problem_if (not (truthy (some (trim w.alias)))) (txt "Enter a private rental alias.")
    ∷ missing_date (txt "lease start") w.lease_start
    ∷ missing_date (txt "lease end") w.lease_end
    ∷ missing_date (txt "funding deadline") w.funding_deadline
    ∷ missing_date (txt "claim deadline") w.claim_deadline
    ∷ missing_date (txt "settlement deadline") w.settlement_deadline
    ∷ problem_if (is_past (to_unix w.funding_deadline) now_ms)
        (txt "The funding deadline must be in the future.")
    ∷ problem_if (is_gt (to_unix w.lease_start) (to_unix w.lease_end))
        (txt "Lease start must not be after lease end.")
    ∷ problem_if (is_gt (to_unix w.funding_deadline) (to_unix w.lease_end))
        (txt "Funding deadline must be on or before lease end.")
    ∷ problem_if (is_le (to_unix w.claim_deadline) (to_unix w.lease_end))
        (txt "Claim deadline must be after lease end.")
    ∷ problem_if (is_le (to_unix w.settlement_deadline) (to_unix w.claim_deadline))
        (txt "Settlement deadline must be after the claim deadline.")
    ∷ []

unfoldable pub validate_basics : (to_unix : Text → Option ℕ) → (now_ms : ℕ) → Wizard → Option Text
unfolding basics_problems first_problem
validate_basics to_unix now_ms w = first_problem (basics_problems to_unix now_ms w)

unfoldable pub invalid_address : (is_address : Text → Bool) → List Text → Option Text
invalid_address is_address [] = none
invalid_address is_address (a ∷ rest) =
    if not (is_address a)
    then some (txt "Invalid tenant address: " ++ a)
    else invalid_address is_address rest

unfoldable pub participants_problems : (is_address : Text → Bool) → Wizard → List (Option Text)
unfolding invalid_address has_duplicate has_text all_tenant_wallets problem_if
participants_problems is_address w =
    problem_if (not (is_address (trim w.recipient)))
      (txt "Enter a valid deposit-recipient wallet address.")
    ∷ problem_if (ltb (length (others w.tenants)) 1)
        (txt "Add at least one other tenant wallet (2-8 tenants total).")
    ∷ problem_if (ltb 7 (length (others w.tenants))) (txt "At most 8 tenants in total.")
    ∷ invalid_address is_address (others w.tenants)
    ∷ problem_if (has_duplicate (all_tenant_wallets w)) (txt "Tenant wallets must be unique.")
    ∷ problem_if (has_text (all_tenant_wallets w) (lower (trim w.recipient)))
        (txt "The deposit recipient cannot also be a tenant.")
    ∷ []

unfoldable pub validate_participants : (is_address : Text → Bool) → Wizard → Option Text
unfolding participants_problems first_problem
validate_participants is_address w = first_problem (participants_problems is_address w)

abbrev pub amounts_of : List TenantRow → List Text
amounts_of [] = []
amounts_of (t ∷ ts) = t.amount_mon ∷ amounts_of ts

abbrev pub amounts : Wizard → List Text
amounts w = w.creator_amount ∷ amounts_of w.tenants

-- A sum that an amount which cannot be read leaves without a value.
unfoldable pub add_wei : Option ℕ → Option ℕ → Option ℕ
add_wei none total = none
add_wei (some wei) none = none
add_wei (some wei) (some total) = some (wei + total)

module _ (parse_ether : Text → ℕ) where
  unfoldable pub contribution_problem : ℕ → Text → Option Text
  unfolding mon_to_wei problem_if
  contribution_problem i amount = elim (mon_to_wei parse_ether amount) [
    | none ↦ some (txt "Contribution " ++ (decimal i ++ (txt ": " ++ decimal_message)))
    | some wei ↦
        problem_if (wei == 0)
          (txt "Contribution " ++ (decimal i ++ txt " must be greater than zero."))
  ]

  -- The contributions from number `i` on.
  unfoldable pub validate_contributions : ℕ → List Text → Option Text
  unfolding contribution_problem
  validate_contributions i [] = none
  validate_contributions i (a ∷ rest) =
      let more = validate_contributions (suc i) rest in
      elim (contribution_problem i a) [ none ↦ more | some problem ↦ some problem ]

  -- `monToWei(amount || '0')`
  unfoldable pub wei_or_zero : Text → Option ℕ
  wei_or_zero amount = mon_to_wei parse_ether (if truthy (some amount) then amount else txt "0")

  unfoldable pub total_wei : List Text → Option ℕ
  unfolding wei_or_zero add_wei
  total_wei [] = some 0
  total_wei (a ∷ rest) = add_wei (wei_or_zero a) (total_wei rest)

-- What the page reads of the outside.
pub record Readers : Type 0 where
  pub to_unix : Text → Option ℕ
  pub is_address : Text → Bool
  pub parse_ether : Text → ℕ

unfoldable pub validate_step : Readers → (now_ms : ℕ) → ℕ → Wizard → Option Text
unfolding validate_basics validate_participants validate_contributions
validate_step r now_ms current w =
    if current == 0
    then validate_basics r.to_unix now_ms w
    else if current == 1
    then validate_participants r.is_address w
    else if current == 2
    then validate_contributions r.parse_ether 1 (amounts w)
    else none

-- `next`: the step is left where the validation finds a problem.
unfoldable pub next : Readers → (now_ms : ℕ) → Wizard → Wizard
next r now_ms w = elim (validate_step r now_ms w.step w) [
  | some problem ↦ record w { error = some problem }
  | none ↦ record w {
    error = none;
    step = if ltb (w.step + 1) last_step then w.step + 1 else last_step;
  }
]

-- The 'Back' button, which step 0 does not have.
unfoldable pub back : Wizard → Wizard
back w = record w { step = w.step - 1 }
