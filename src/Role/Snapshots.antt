-- ===== src/Role/Snapshots.antt =====
-- What frontend/src/pages/AgreementDetail.tsx hands to the role resolver: the snapshots of direct
-- contract reads. The printing of an address is a parameter.
use shared_deposit_monad.Base.{ℕ, false, Option, none, some, List, [], ◌∷◌, Text}
use shared_deposit_monad.Role.{AgreementSnapshot, TenantSnapshot, Params}
use shared_deposit_monad.Escrow.Types.{AgreementStatus, Agreement, Tenant}
use shared_deposit_monad.Escrow.Storage.{State}

-- The number of a status in the ABI.
unfoldable pub status_code : AgreementStatus → ℕ
status_code AgreementStatus.none = 0
status_code AgreementStatus.funding = 1
status_code AgreementStatus.active = 2
status_code AgreementStatus.finalized = 3
status_code AgreementStatus.cancelled = 4

module _ (show : ℕ → Text) where
  unfoldable pub agreement_snapshot : Agreement → AgreementSnapshot
  agreement_snapshot a = record {
    creator = show a.creator;
    recipient = show a.recipient;
    recipient_accepted = a.recipient_accepted;
    status = status_code a.status;
    funding_deadline = a.funding_deadline;
  }

  -- A record that is not read yet counts as no funds and no acceptance.
  unfoldable pub tenant_snapshot : ℕ → Option Tenant → TenantSnapshot
  tenant_snapshot a none = record {
    wallet = show a;
    required_amount = 0;
    funded_amount = 0;
    accepted = false;
    exists = false;
  }
  tenant_snapshot a (some t) = record {
    wallet = show a;
    required_amount = t.required_amount;
    funded_amount = t.funded_amount;
    accepted = t.accepted;
    exists = t.exists;
  }

  -- The snapshots once every read has answered.
  unfoldable pub tenant_snapshots : (ℕ → Tenant) → List ℕ → List TenantSnapshot
  tenant_snapshots tenants [] = []
  tenant_snapshots tenants (a ∷ rest) =
      tenant_snapshot a (some (tenants a)) ∷ tenant_snapshots tenants rest

  -- The arguments of `resolveAgreementRole` on the page, from one state of the contract.
  unfoldable pub page_params : State → Option Text → Option Text → ℕ → Params
  page_params s address auth now = record {
    connected_address = address;
    auth_wallet = auth;
    now_seconds = now;
    agreement = agreement_snapshot s.agreement;
    tenants = tenant_snapshots s.tenants s.tenant_list;
  }
