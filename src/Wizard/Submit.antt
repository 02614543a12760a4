-- ===== src/Wizard/Submit.antt =====
-- The rows of tenants and the draft that the wizard posts: frontend/src/pages/NewAgreement.tsx. The answer
-- of the backend is an argument. An amount is posted as its decimal text; here it is the number.
pub mod Posted
use shared_deposit_monad.Base.{
  ℕ, ◌+◌, Bool, true, false, not, ◌&&◌, ◌||◌, Option, none, some, List, [], ◌∷◌, ◌++◌, Text, txt,
  truthy, if◌then◌else◌, ltb, leb, ◌==◌, length, zero, suc,
}
use shared_deposit_monad.Format.{trim, mon_to_wei}
use shared_deposit_monad.Api.{ApiResult, returned, api_error, Answer}
use shared_deposit_monad.Wizard.{TenantRow, Wizard, Readers, last_step}

pub record DraftTenant : Type 0 where
  pub wallet : Text
  pub required_amount_wei : ℕ
  pub display_label : Option Text

-- The body of the request; a date that is `NaN` is sent as null.
pub record DraftBody : Type 0 where
  pub property_alias : Text
  pub private_address : Option Text
  pub recipient : Text
  pub lease_start : Option ℕ
  pub lease_end : Option ℕ
  pub funding_deadline : Option ℕ
  pub claim_deadline : Option ℕ
  pub settlement_deadline : Option ℕ
  pub tenants : List DraftTenant

-- `s.trim() || null`
unfoldable pub text_or_null : Text → Option Text
unfolding trim
text_or_null s = let t = trim s in if truthy (some t) then some t else none

-- One tenant of the body; `monToWei` may throw.
unfoldable pub draft_tenant :
    (parse_ether : Text → ℕ) → (wallet label amount : Text) → Option DraftTenant
unfolding mon_to_wei text_or_null
draft_tenant parse_ether wallet label amount = elim (mon_to_wei parse_ether amount) [
  | none ↦ none
  | some wei ↦
      some
        (record { wallet = wallet; required_amount_wei = wei; display_label = text_or_null label })
]

abbrev pub and_tenant : Option DraftTenant → Option (List DraftTenant) → Option (List DraftTenant)
and_tenant none ts = none
and_tenant (some t) none = none
and_tenant (some t) (some ts) = some (t ∷ ts)

unfoldable pub draft_tenants : (parse_ether : Text → ℕ) → List TenantRow → Option (List DraftTenant)
unfolding draft_tenant
draft_tenants parse_ether [] = some []
draft_tenants parse_ether (t ∷ ts) =
    and_tenant (draft_tenant parse_ether (trim t.wallet) t.display_label t.amount_mon)
      (draft_tenants parse_ether ts)

-- The creator is the first tenant, without a label.
unfoldable pub submit_tenants : (parse_ether : Text → ℕ) → Wizard → Option (List DraftTenant)
unfolding draft_tenants
submit_tenants parse_ether w =
    and_tenant (draft_tenant parse_ether w.creator_wallet [] w.creator_amount)
      (draft_tenants parse_ether w.tenants)

unfoldable pub submit_body : Readers → Wizard → Option DraftBody
unfolding submit_tenants text_or_null
submit_body r w = elim (submit_tenants r.parse_ether w) [
  | none ↦ none
  | some tenants ↦ some (record {
    property_alias = trim w.alias;
    private_address = text_or_null w.private_address;
    recipient = trim w.recipient;
    lease_start = r.to_unix w.lease_start;
    lease_end = r.to_unix w.lease_end;
    funding_deadline = r.to_unix w.funding_deadline;
    claim_deadline = r.to_unix w.claim_deadline;
    settlement_deadline = r.to_unix w.settlement_deadline;
    tenants = tenants;
  })
]

-- What the page does when the request is over.
pub data Submitted : Type 0 where
  navigated : (path : Text) → Submitted
  failed : (message : Text) → Submitted

unfoldable pub after_request : ApiResult Text → Submitted
unfolding txt
after_request (returned (Answer.value id)) = navigated (txt "/drafts/" ++ id)
after_request (returned Answer.empty_object) = navigated (txt "/drafts/undefined")
after_request (returned Answer.nothing) = failed (txt "draft creation failed")
after_request (api_error status detail) = failed detail

-- `submit`: the request is made only if the body could be built.
unfoldable pub submit : Readers → (request : DraftBody → ApiResult Text) → Wizard → Submitted
unfolding submit_body after_request
submit r request w = elim (submit_body r w) [
  | none ↦ failed (txt "draft creation failed")
  | some body ↦ after_request (request body)
]

-- The button of the last step.
unfoldable pub can_submit : (submitting : Bool) → Wizard → Bool
can_submit submitting w = (w.step == last_step) && not (not w.acknowledged || submitting)

-- The buttons and fields of the rows; a disabled button does nothing.
abbrev pub empty_row : TenantRow
empty_row = record { wallet = []; display_label = []; amount_mon = [] }

unfoldable pub add_tenant : Wizard → Wizard
add_tenant w =
    if leb 7 (length w.tenants) then w else record w { tenants = w.tenants ++ empty_row ∷ [] }

-- `tenants.slice(0, -1)`
unfoldable pub without_last : List TenantRow → List TenantRow
without_last [] = []
without_last (t ∷ []) = []
without_last (t ∷ u ∷ ts) = t ∷ without_last (u ∷ ts)

unfoldable pub remove_last : Wizard → Wizard
unfolding without_last
remove_last w =
    if leb (length w.tenants) 1 then w else record w { tenants = without_last w.tenants }

unfoldable pub edit_row : ℕ → (TenantRow → TenantRow) → List TenantRow → List TenantRow
edit_row i f [] = []
edit_row zero f (t ∷ ts) = f t ∷ ts
edit_row (suc i) f (t ∷ ts) = t ∷ edit_row i f ts
