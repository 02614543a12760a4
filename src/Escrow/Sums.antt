-- ===== src/Escrow/Sums.antt =====
-- Sums over the tenants of an agreement, and one changed entry of a mapping of
-- contracts/contracts/SharedDepositEscrow.sol.
use shared_deposit_monad.Base.{
  ℕ, ◌+◌, ◌≡◌, refl, subst, inl, inr, true, false, List, [], ◌∷◌, ◌==◌, any, arith, Bool-cases,
  ==_iff, sym, if_true, if_false,
}
use shared_deposit_monad.Escrow.Types.{Tenant}
use shared_deposit_monad.Escrow.Storage.{put}

unfoldable pub tenant_sum : (Tenant → ℕ) → (ℕ → Tenant) → List ℕ → ℕ
tenant_sum f tenants [] = 0
tenant_sum f tenants (a ∷ l) = f (tenants a) + tenant_sum f tenants l

abbrev pub IsDistinct : List ℕ → Type 0
IsDistinct [] = Unit
IsDistinct (a ∷ l) = (any (λ b. b == a) l ≡ false) × IsDistinct l

-- What holds of the new entry and of the old ones holds of all.
pub put_all {ℓ κ} :
    {A : Type ℓ} (P : A → Type κ) (f : ℕ → A) (k : ℕ) (v : A)
    → P v
    → ((x : ℕ) → P (f x))
    → (x : ℕ) → P (put f k v x)
unfolding put
put_all P f k v new old x = elim (Bool-cases (x == k)) [
  | inl h ↦ subst P (sym (if_true v (f x) h)) new
  | inr h ↦ subst P (sym (if_false v (f x) h)) (old x)
]

-- The same where the property is about the key as well.
pub put_each {ℓ κ} :
    {A : Type ℓ} (P : ℕ → A → Type κ) (f : ℕ → A) (k : ℕ) (v : A)
    → P k v
    → ((x : ℕ) → P x (f x))
    → (x : ℕ) → P x (put f k v x)
unfolding put
put_each P f k v new old x = elim (Bool-cases (x == k)) [
  | inl h ↦
      let same : x ≡ k = (==_iff x k).0 h in
      subst (λ y. P x y) (sym (if_true v (f x) h)) (subst (λ z. P z v) (sym same) new)
  | inr h ↦ subst (λ y. P x y) (sym (if_false v (f x) h)) (old x)
]

-- A field that the new entry shares with the old one does not change.
pub put_keeps {ℓ κ} :
    {A : Type ℓ} {B : Type κ} (g : A → B) (f : ℕ → A) (k : ℕ) (v : A)
    → g v ≡ g (f k)
    → (x : ℕ) → g (put f k v x) ≡ g (f x)
unfolding put
put_keeps g f k v h x = elim (Bool-cases (x == k)) [
  | inl e ↦ rw e (rw ((==_iff x k).0 e) h)
  | inr e ↦ rw e refl
]

tenant_sum-put_absent :
    (f : Tenant → ℕ) (tenants : ℕ → Tenant) (a : ℕ) (t : Tenant) (l : List ℕ)
    → any (λ b. b == a) l ≡ false
    → tenant_sum f (put tenants a t) l ≡ tenant_sum f tenants l
unfolding tenant_sum put
tenant_sum-put_absent f tenants a t [] h = refl
tenant_sum-put_absent f tenants a t (b ∷ l) h = elim (Bool-cases (b == a)) [
  | inl k ↦ absurd (ground arith)
  | inr k ↦ rw k (omega (arith, tenant_sum-put_absent f tenants a t l (ground arith)))
]

pub tenant_sum-put :
    (f : Tenant → ℕ) (tenants : ℕ → Tenant) (a : ℕ) (t : Tenant) (l : List ℕ)
    → IsDistinct l
    → any (λ b. b == a) l ≡ true
    → tenant_sum f (put tenants a t) l + f (tenants a) ≡ tenant_sum f tenants l + f t
unfolding tenant_sum put
tenant_sum-put f tenants a t [] d h = absurd (cc)
tenant_sum-put f tenants a t (b ∷ l) d h = elim (Bool-cases (b == a)) [
  | inl k ↦
      let same : b ≡ a = (==_iff b a).0 k in
      rw k (
        rw same (
          omega (
            arith,
            tenant_sum-put_absent f tenants a t l
                (subst (λ x. any (λ c. c == x) l ≡ false) same d.0),
          )))
  | inr k ↦ rw k (omega (arith, tenant_sum-put f tenants a t l d.1 (ground arith)))
]

pub tenant_sum_ext :
    (f g : Tenant → ℕ) (tenants others : ℕ → Tenant) (l : List ℕ)
    → ((a : ℕ) → f (tenants a) ≡ g (others a))
    → tenant_sum f tenants l ≡ tenant_sum g others l
unfolding tenant_sum
tenant_sum_ext f g tenants others [] h = refl
tenant_sum_ext f g tenants others (a ∷ l) h =
    omega (arith, h a, tenant_sum_ext f g tenants others l h)

pub tenant_sum_zero :
    (f : Tenant → ℕ) (tenants : ℕ → Tenant) (l : List ℕ)
    → ((a : ℕ) → f (tenants a) ≡ 0)
    → tenant_sum f tenants l ≡ 0
unfolding tenant_sum
tenant_sum_zero f tenants [] h = refl
tenant_sum_zero f tenants (a ∷ l) h = omega (arith, h a, tenant_sum_zero f tenants l h)
