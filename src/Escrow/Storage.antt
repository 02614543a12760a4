-- ===== src/Escrow/Storage.antt =====
-- The storage of one agreement, the call context, and reverting computations. A revert undoes all, so
-- an error carries no state. Logs are not state and are left out.
use shared_deposit_monad.Base.{
  ℕ, ◌+◌, ◌-◌, ◌^◌, Bool, true, false, List, if◌then◌else◌, ltb, ◌==◌, ◌≡◌, refl, any,
}
use shared_deposit_monad.Escrow.Types.{
  Agreement, Tenant, Claim, Error, invalid_agreement, panic, is_none,
}

-- The five mappings at one agreement ID.
pub record State : Type 0 where
  pub agreement : Agreement
  pub tenant_list : List ℕ
  pub tenants : ℕ → Tenant
  pub claims : ℕ → Claim
  -- 0 is no vote, 1 is YES, 2 is NO.
  pub votes : ℕ → ℕ → ℕ

-- `msg.sender`, `msg.value` and `block.timestamp`
pub record Msg : Type 0 where
  pub sender : ℕ
  pub value : ℕ
  pub timestamp : ℕ

pub data Call {ℓ} (A : Type ℓ) : Type ℓ where
  ok : A → Call A
  reverted : Error → Call A

module _ {ℓ κ} {A : Type ℓ} {B : Type κ} where
  infixl 5 ◌>>◌ ◌>>=◌
  -- A revert is the result of the whole call.
  abbrev pub ◌>>=◌ : Call A → (A → Call B) → Call B
  reverted e >>= next = reverted e
  ok a >>= next = next a

  abbrev pub ◌>>◌ : Call A → Call B → Call B
  reverted e >> next = reverted e
  ok a >> next = next

-- `if (bad) revert e();`
abbrev pub revert_if : Bool → Error → Call (Unit {0})
revert_if true e = reverted e
revert_if false e = ok tt

-- 2 ^ 128, and the checked operations on uint128 and uint256.
abbrev pub u128 : ℕ
u128 = 2 ^ 128

unfoldable pub add_u128 : ℕ → ℕ → Call ℕ
add_u128 a b = if ltb (a + b) u128 then ok (a + b) else reverted panic

-- The counters of votes are uint16, and that of unresolved claims is a uint32.
unfoldable pub add_u16 : ℕ → ℕ → Call ℕ
add_u16 a b = if ltb (a + b) (2 ^ 16) then ok (a + b) else reverted panic

unfoldable pub add_u32 : ℕ → ℕ → Call ℕ
add_u32 a b = if ltb (a + b) (2 ^ 32) then ok (a + b) else reverted panic

unfoldable pub sub_checked : ℕ → ℕ → Call ℕ
sub_checked a b = if ltb a b then reverted panic else ok (a - b)

-- `_requireAgreement`
unfoldable pub require_agreement : State → Call (Unit {0})
unfolding is_none
require_agreement s = revert_if (is_none s.agreement.status) invalid_agreement

unfoldable pub put {ℓ} : {A : Type ℓ} → (ℕ → A) → ℕ → A → ℕ → A
put f k v x = if x == k then v else f x

unfoldable pub set_tenant : ℕ → Tenant → State → State
set_tenant a t s = record s { tenants = put s.tenants a t }

unfoldable pub set_claim : ℕ → Claim → State → State
set_claim id c s = record s { claims = put s.claims id c }

-- A finished call: the new storage, and the wei sent to the caller.
pub record Done : Type 0 where
  pub state : State
  pub sent : ℕ

-- `_sendMON` to the caller, who accepts the transfer or fails.
unfoldable pub send_mon : (accepts : Bool) → ℕ → State → Call Done
send_mon true amount s = ok (record { state = s; sent = amount })
send_mon false amount s = reverted Error.transfer_failed

abbrev pub finish : State → Call Done
finish s = ok (record { state = s; sent = 0 })

-- The tenants that exist are those of the list.
abbrev pub IsRegistered : State → Type 0
IsRegistered s = (a : ℕ) → (s.tenants a).exists ≡ any (λ b. b == a) s.tenant_list

-- A call that does not revert went through each of its parts.
pub ok_inj {ℓ} : {A : Type ℓ} {a b : A} → ok a ≡ ok b → a ≡ b
ok_inj h = cc

pub bind_ok {ℓ κ} :
    {A : Type ℓ} {B : Type κ} (m : Call A) (f : A → Call B) (r : B)
    → (m >>= f) ≡ ok r
    → (a : A) × (m ≡ ok a) × (f a ≡ ok r)
bind_ok (ok a) f r h = (a, refl, h)
bind_ok (reverted e) f r h = absurd (cc)

pub then_ok {ℓ κ} :
    {A : Type ℓ} {B : Type κ} (m : Call A) (n : Call B) (r : B) → (m >> n) ≡ ok r → n ≡ ok r
then_ok (ok a) n r h = h
then_ok (reverted e) n r h = absurd (cc)
