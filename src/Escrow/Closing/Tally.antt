-- ===== src/Escrow/Closing/Tally.antt =====
-- Sums over the claims of contracts/contracts/SharedDepositEscrow.sol where one claim changes.
use shared_deposit_monad.Base.{
  ℕ, zero, suc, ◌+◌, ◌≤◌, ◌<◌, ◌≡◌, refl, ap, ◌∙◌, inl, inr, false, ◌==◌, arith, Bool-cases, ==_iff,
  if_true, if_false,
}
use shared_deposit_monad.Escrow.Types.{Claim}
use shared_deposit_monad.Escrow.Storage.{put}
use shared_deposit_monad.Escrow.Closing.{claim_sum}

pub put_self {ℓ} : {A : Type ℓ} (f : ℕ → A) (k : ℕ) (v : A) → put f k v k ≡ v
unfolding put
put_self f k v = if_true v (f k) ((==_iff k k).1 refl)

pub put_other {ℓ} :
    {A : Type ℓ} (f : ℕ → A) (k : ℕ) (v : A) (x : ℕ) → (x == k) ≡ false → put f k v x ≡ f x
unfolding put
put_other f k v x h = if_false v (f x) h

pub claim_sum-put_beyond :
    (f : Claim → ℕ) (claims : ℕ → Claim) (id : ℕ) (c : Claim) (n : ℕ)
    → n < id
    → claim_sum f (put claims id c) n ≡ claim_sum f claims n
unfolding claim_sum
claim_sum-put_beyond f claims id c zero h = refl
claim_sum-put_beyond f claims id c (suc n) h =
    let apart : (suc n == id) ≡ false = ground arith in
    let own = ap f (put_other claims id c (suc n) apart) in
    omega (arith, own, claim_sum-put_beyond f claims id c n (omega arith))

pub claim_sum-put :
    (f : Claim → ℕ) (claims : ℕ → Claim) (id : ℕ) (c : Claim) (n : ℕ)
    → 1 ≤ id
    → id ≤ n
    → claim_sum f (put claims id c) n + f (claims id) ≡ claim_sum f claims n + f c
unfolding claim_sum
claim_sum-put f claims id c zero h k = absurd (omega arith)
claim_sum-put f claims id c (suc n) h k = elim (Bool-cases (suc n == id)) [
  | inl e ↦
      let same : suc n ≡ id = (==_iff (suc n) id).0 e in
      let own = ap f (ap (put claims id c) same ∙ put_self claims id c) in
      let old = ap (λ x. f (claims x)) same in
      omega (arith, own, old, claim_sum-put_beyond f claims id c n (omega arith))
  | inr e ↦
      let own = ap f (put_other claims id c (suc n) e) in
      let less : id ≤ n = ground arith in omega (arith, own, claim_sum-put f claims id c n h less)
]

-- One claim is no more than the sum.
pub claim_sum_bound :
    (f : Claim → ℕ) (claims : ℕ → Claim) (id n : ℕ)
    → 1 ≤ id
    → id ≤ n
    → f (claims id) ≤ claim_sum f claims n
unfolding claim_sum
claim_sum_bound f claims id zero h k = absurd (omega arith)
claim_sum_bound f claims id (suc n) h k = elim (Bool-cases (suc n == id)) [
  | inl e ↦
      let same : suc n ≡ id = (==_iff (suc n) id).0 e in
      let old = ap (λ x. f (claims x)) same in omega (arith, old)
  | inr e ↦ let less : id ≤ n = ground arith in omega (arith, claim_sum_bound f claims id n h less)
]

pub claim_sum_zero :
    (f : Claim → ℕ) (claims : ℕ → Claim) (n : ℕ)
    → ((id : ℕ) → f (claims id) ≡ 0)
    → claim_sum f claims n ≡ 0
unfolding claim_sum
claim_sum_zero f claims zero h = refl
claim_sum_zero f claims (suc n) h = omega (arith, h (suc n), claim_sum_zero f claims n h)
