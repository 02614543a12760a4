-- ===== src/Escrow/Votes/Counts.antt =====
-- Counts of the votes of contracts/contracts/SharedDepositEscrow.sol over the list of tenants.
use shared_deposit_monad.Base.{
  ℕ, ◌+◌, ◌≤◌, ◌≡◌, refl, inl, inr, true, false, List, [], ◌∷◌, if◌then◌else◌, ◌==◌, any, length,
  arith, Bool-cases, ==_iff,
}
use shared_deposit_monad.Escrow.Storage.{put}
use shared_deposit_monad.Escrow.Sums.{IsDistinct}
use shared_deposit_monad.Escrow.Closing.Tally.{put_self, put_other}
use shared_deposit_monad.Escrow.Votes.{cast}

cast-put_absent :
    (value : ℕ) (votes : ℕ → ℕ) (a w : ℕ) (l : List ℕ)
    → any (λ b. b == a) l ≡ false
    → cast value (put votes a w) l ≡ cast value votes l
unfolding cast
cast-put_absent value votes a w [] h = refl
cast-put_absent value votes a w (b ∷ l) h =
    let apart : (b == a) ≡ false = ground arith in
    rw (put_other votes a w b apart, cast-put_absent value votes a w l (ground arith)) refl

-- One who has not voted casts a vote.
pub cast-put :
    (value : ℕ) (votes : ℕ → ℕ) (a w : ℕ) (l : List ℕ)
    → IsDistinct l
    → any (λ b. b == a) l ≡ true
    → cast value (put votes a w) l + (if votes a == value then 1 else 0)
      ≡ cast value votes l + (if w == value then 1 else 0)
unfolding cast
cast-put value votes a w [] d h = absurd (cc)
cast-put value votes a w (b ∷ l) (d, ds) h = elim (Bool-cases (b == a)) [
  | inl k ↦
      let same : b ≡ a = (==_iff b a).0 k in
      let none_left : any (λ x. x == a) l ≡ false = rw (← same) d in
      rw (same, put_self votes a w, cast-put_absent value votes a w l none_left) (omega arith)
  | inr k ↦
      rw (put_other votes a w b k) (omega (arith, cast-put value votes a w l ds (ground arith)))
]

pub cast_bound : (votes : ℕ → ℕ) (l : List ℕ) → cast 1 votes l + cast 2 votes l ≤ length l
unfolding cast
cast_bound votes [] = omega arith
cast_bound votes (a ∷ l) = let rest = cast_bound votes l in ground arith

pub cast_zero : (value : ℕ) (l : List ℕ) → (0 == value) ≡ false → cast value (λ a. 0) l ≡ 0
unfolding cast
cast_zero value [] h = refl
cast_zero value (a ∷ l) h = rw (h, cast_zero value l h) refl
