-- ===== src/Drafts/Creation.antt =====
-- What the page of frontend/src/pages/DraftDetail.tsx asks for before it sends a creation.
use shared_deposit_monad.Base.{ℕ, ◌≡◌, refl, Bool, List, Text}
use shared_deposit_monad.Drafts.{Prepared, DraftPage, on_prepared, hashes_match, can_create}

-- The hash that the browser checks is not tied to the call that it sends: a prepared call with any other
-- recipient, terms hash and tenants among its arguments enables the button alike.
pub can_create-ignores_arguments {ℓ} :
    {Json : Type ℓ} (terms_hash : Json → Text) (p : Prepared Json)
    (recipient argument_terms_hash : Text) (tenant_addresses : List Text)
    (required_amounts : List ℕ) (page : DraftPage Json) (is_connected : Bool) (chain_id : ℕ)
    → can_create
        (on_prepared terms_hash
          (record p {
            recipient = recipient;
            argument_terms_hash = argument_terms_hash;
            tenant_addresses = tenant_addresses;
            required_amounts = required_amounts;
          })
          page)
        is_connected
        chain_id
      ≡ can_create (on_prepared terms_hash p page) is_connected chain_id
unfolding can_create hashes_match on_prepared
can_create-ignores_arguments terms_hash p recipient h ts ns page c n = refl
