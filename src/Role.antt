-- ===== src/Role.antt =====
-- The role of a wallet on an agreement: frontend/src/hooks/useAgreementRole.ts. A deadline is a whole
-- number of seconds below 2 ^ 53, which `Number` keeps exactly.
pub mod Snapshots
pub mod Permissions
pub mod Contract
use shared_deposit_monad.Base.{
  ℕ, suc, ◌≡◌, Bool, true, false, not, ◌&&◌, ◌||◌, Option, none, some, List, [], ◌∷◌, Text, opt_eq,
  norm, is_some, if◌then◌else◌, ltb, ◌==◌, ℤ, pos, minus, is_positive,
}

pub record AgreementSnapshot : Type 0 where
  pub creator : Text
  pub recipient : Text
  pub recipient_accepted : Bool
  -- 0 NONE, 1 FUNDING, 2 ACTIVE, 3 FINALIZED, 4 CANCELLED
  pub status : ℕ
  pub funding_deadline : ℕ

pub record TenantSnapshot : Type 0 where
  pub wallet : Text
  pub required_amount : ℕ
  pub funded_amount : ℕ
  pub accepted : Bool
  pub exists : Bool

pub record AgreementRole : Type 0 where
  pub connected_wallet : Option Text
  pub auth_wallet : Option Text
  pub wallet_matches_session : Bool
  pub is_creator : Bool
  pub is_tenant : Bool
  pub tenant_index : Option ℕ
  pub is_recipient : Bool
  pub is_participant : Bool
  pub tenant_record : Option TenantSnapshot
  pub remaining : ℤ
  pub funding_deadline_passed : Bool
  pub funding_open : Bool
  pub can_manage_invitations : Bool
  pub can_accept_as_tenant : Bool
  pub can_accept_as_recipient : Bool
  pub can_deposit : Bool
  pub can_withdraw_funding : Bool

pub record Params : Type 0 where
  pub connected_address : Option Text
  pub auth_wallet : Option Text
  pub now_seconds : ℕ
  pub agreement : AgreementSnapshot
  pub tenants : List TenantSnapshot

-- `tenants.findIndex((t) => norm(t.wallet) === connected)` from index `i` on, with the tenant there.
unfoldable pub find_tenant : Option Text → ℕ → List TenantSnapshot → Option (ℕ × TenantSnapshot)
find_tenant connected i [] = none
find_tenant connected i (t ∷ ts) =
    if opt_eq (norm (some t.wallet)) connected
    then some (i, t)
    else find_tenant connected (suc i) ts

-- `x !== null && x === y`
unfoldable pub is_wallet : Option Text → Option Text → Bool
is_wallet connected other = is_some connected && opt_eq connected other

unfoldable pub session_match : Option Text → Option Text → Bool
session_match connected auth = is_some connected && (is_some auth && opt_eq connected auth)

unfoldable pub remaining_of : Option TenantSnapshot → ℤ
remaining_of none = pos 0
remaining_of (some t) = minus t.required_amount t.funded_amount

unfoldable pub has_accepted : Option TenantSnapshot → Bool
has_accepted none = false
has_accepted (some t) = t.accepted

unfoldable pub has_funds : Option TenantSnapshot → Bool
has_funds none = false
has_funds (some t) = ltb 0 t.funded_amount

abbrev pub index_of : Option (ℕ × TenantSnapshot) → Option ℕ
index_of none = none
index_of (some (i, t)) = some i

abbrev pub record_of : Option (ℕ × TenantSnapshot) → Option TenantSnapshot
record_of none = none
record_of (some (i, t)) = some t

unfoldable pub resolve_agreement_role : Params → AgreementRole
resolve_agreement_role p =
    let connected = norm p.connected_address in
    let auth = norm p.auth_wallet in
    let gate = session_match connected auth in
    let found = find_tenant connected 0 p.tenants in
    let tenant = record_of found in
    let is_tenant = is_some tenant in
    let is_recipient = is_wallet connected (norm (some p.agreement.recipient)) in
    let is_creator = is_wallet connected (norm (some p.agreement.creator)) in
    let remaining = remaining_of tenant in
    let is_funding = p.agreement.status == 1 in
    let passed = ltb p.agreement.funding_deadline p.now_seconds in
    let open_now = is_funding && not passed in
    record {
      connected_wallet = connected;
      auth_wallet = auth;
      wallet_matches_session = gate;
      is_creator = is_creator;
      is_tenant = is_tenant;
      tenant_index = index_of found;
      is_recipient = is_recipient;
      is_participant = is_tenant || is_recipient;
      tenant_record = tenant;
      remaining = remaining;
      funding_deadline_passed = passed;
      funding_open = open_now;
      can_manage_invitations = gate && is_creator;
      can_accept_as_tenant = gate && (is_tenant && (not (has_accepted tenant) && open_now));
      can_accept_as_recipient =
          gate && (is_recipient && (not p.agreement.recipient_accepted && open_now));
      can_deposit =
          gate && (is_tenant && (has_accepted tenant && (is_positive remaining && open_now)));
      can_withdraw_funding = gate && (is_tenant && (has_funds tenant && is_funding));
    }
