-- ===== src/Wizard/Submit/Posted.antt =====
-- The draft of frontend/src/pages/NewAgreement.tsx where its contributions are validated.
use shared_deposit_monad.Base.{
  ℕ, suc, ◌+◌, ◌≤◌, ◌≡◌, refl, none, some, List, [], ◌∷◌, Text, length, All, arith,
}
use shared_deposit_monad.Format.{trim, mon_to_wei}
use shared_deposit_monad.Wizard.{
  TenantRow, Wizard, Readers, amounts_of, amounts, validate_contributions, add_wei, total_wei,
}
use shared_deposit_monad.Wizard.Terms.{
  contribution_none, wei_or_zero_same, validate_contributions_cons,
}
use shared_deposit_monad.Wizard.Submit.{
  DraftTenant, DraftBody, text_or_null, draft_tenant, draft_tenants, submit_tenants, submit_body,
}

unfoldable pub posted_sum : List DraftTenant → ℕ
posted_sum [] = 0
posted_sum (t ∷ ts) = t.required_amount_wei + posted_sum ts

module _ (parse_ether : Text → ℕ) where
  draft_tenant_lem :
      (wallet label a : Text) (wei : ℕ)
      → mon_to_wei parse_ether a ≡ some wei
      → draft_tenant parse_ether wallet label a
        ≡ some (record {
          wallet = wallet;
          required_amount_wei = wei;
          display_label = text_or_null label;
        })
  unfolding draft_tenant
  draft_tenant_lem wallet label a wei e = rw (e, draft_tenant) refl

  draft_tenants_lem :
      (i : ℕ) (rows : List TenantRow)
      → validate_contributions parse_ether i (amounts_of rows) ≡ none
      → (ts : List DraftTenant) × (draft_tenants parse_ether rows ≡ some ts)
        × (total_wei parse_ether (amounts_of rows) ≡ some (posted_sum ts))
        × All (λ t. 1 ≤ t.required_amount_wei) ts
        × (length ts ≡ length rows)
  unfolding draft_tenants total_wei posted_sum add_wei
  draft_tenants_lem i [] h = ([], refl, refl, tt, refl)
  draft_tenants_lem i (t ∷ rows) h =
      let (here, later) =
        validate_contributions_cons parse_ether i t.amount_mon (amounts_of rows) h in
      let (wei, (e, positive)) = contribution_none parse_ether i t.amount_mon here in
      let (ts, posted, total, all_positive, size) = draft_tenants_lem (suc i) rows later in
      (
        record {
          wallet = trim t.wallet;
          required_amount_wei = wei;
          display_label = text_or_null t.display_label;
        }
            ∷ ts,
        rw (draft_tenant_lem (trim t.wallet) t.display_label t.amount_mon wei e, posted) refl,
        rw (wei_or_zero_same parse_ether t.amount_mon wei e, total) refl,
        (positive, all_positive),
        omega (arith, size),
      )

-- Once the contributions pass their step, the body of the draft can be built: it has a tenant for the
-- creator and for each row, each with a positive amount, and the amounts add up to the total that the
-- page shows.
pub submit_body-total :
    (r : Readers) (w : Wizard)
    → validate_contributions r.parse_ether 1 (amounts w) ≡ none
    → (body : DraftBody) × (submit_body r w ≡ some body)
      × (total_wei r.parse_ether (amounts w) ≡ some (posted_sum body.tenants))
      × All (λ t. 1 ≤ t.required_amount_wei) body.tenants
      × (length body.tenants ≡ suc (length w.tenants))
unfolding submit_body submit_tenants total_wei posted_sum add_wei
submit_body-total r w h =
    let (here, later) =
      validate_contributions_cons r.parse_ether 1 w.creator_amount (amounts_of w.tenants) h in
    let (wei, (e, positive)) = contribution_none r.parse_ether 1 w.creator_amount here in
    let (ts, posted, total, all_positive, size) =
      draft_tenants_lem r.parse_ether 2 w.tenants later in
    let creator = draft_tenant_lem r.parse_ether w.creator_wallet [] w.creator_amount wei e in
    let tenants : List DraftTenant =
      record {
        wallet = w.creator_wallet;
        required_amount_wei = wei;
        display_label = text_or_null [];
      }
      ∷ ts in
    let submit_tenants_lem : submit_tenants r.parse_ether w ≡ some tenants =
      rw (creator, posted) refl in
    (
      record {
        property_alias = trim w.alias;
        private_address = text_or_null w.private_address;
        recipient = trim w.recipient;
        lease_start = r.to_unix w.lease_start;
        lease_end = r.to_unix w.lease_end;
        funding_deadline = r.to_unix w.funding_deadline;
        claim_deadline = r.to_unix w.claim_deadline;
        settlement_deadline = r.to_unix w.settlement_deadline;
        tenants = tenants;
      },
      rw (submit_tenants_lem, submit_body) refl,
      rw (wei_or_zero_same r.parse_ether w.creator_amount wei e, total) refl,
      (positive, all_positive),
      omega (arith, size),
    )
