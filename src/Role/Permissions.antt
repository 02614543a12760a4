-- ===== src/Role/Permissions.antt =====
-- What every permission of frontend/src/hooks/useAgreementRole.ts presupposes.
use shared_deposit_monad.Base.{
  ◌≡◌, refl, ◌⊎◌, true, Option, none, some, Text, opt_eq_sound, norm, is_some, arith,
}
use shared_deposit_monad.Role.{AgreementRole, Params, session_match, resolve_agreement_role}

-- Some permission is granted.
abbrev pub IsAllowed : AgreementRole → Type 0
IsAllowed r =
    (r.can_manage_invitations ≡ true)
    ⊎ ((r.can_accept_as_tenant ≡ true)
        ⊎ ((r.can_accept_as_recipient ≡ true)
            ⊎ ((r.can_deposit ≡ true) ⊎ (r.can_withdraw_funding ≡ true))))

session_match-same : (c a : Option Text) → session_match c a ≡ true → (is_some c ≡ true) × (c ≡ a)
unfolding session_match
session_match-same none a h = absurd (cc)
session_match-same (some c) none h = absurd (cc)
session_match-same (some c) (some a) h = (refl, opt_eq_sound (some c) (some a) h)

-- Where the resolver grants any permission, the connected wallet is present and is the wallet of the
-- session, up to the case of letters.
pub resolve_agreement_role-IsAllowed :
    (p : Params)
    → IsAllowed (resolve_agreement_role p)
    → (is_some (norm p.connected_address) ≡ true) × (norm p.connected_address ≡ norm p.auth_wallet)
unfolding resolve_agreement_role
resolve_agreement_role-IsAllowed p h =
    session_match-same (norm p.connected_address) (norm p.auth_wallet) (ground arith)
