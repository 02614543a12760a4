-- ===== src/Escrow/Settlement.antt =====
-- `_computeSettlement` of contracts/contracts/SharedDepositEscrow.sol: the split of the approved
-- shared claims over the tenants by largest remainders. The arrays are lists; `none` is the defensive
-- revert.
pub mod Exact
use shared_deposit_monad.Base.{
  ℕ, zero, suc, ◌+◌, ◌-◌, ◌*◌, ◌/◌, ◌%◌, Bool, true, false, Option, none, some, List, [], ◌∷◌,
  if◌then◌else◌, ltb, leb,
}

unfoldable pub sum : List ℕ → ℕ
sum [] = 0
sum (x ∷ xs) = x + sum xs

-- One tenant during the distribution.
pub record Share : Type 0 where
  pub remaining : ℕ
  pub alloc : ℕ
  pub frac : ℕ

-- `Math.mulDiv` and `mulmod`: floor and remainder of the exact proportional share.
unfoldable pub base_shares : (shared total : ℕ) → List ℕ → List Share
base_shares shared total [] = []
base_shares shared total (r ∷ rs) =
    record { remaining = r; alloc = shared * r / total; frac = shared * r % total }
    ∷ base_shares shared total rs

-- The shares with no distribution, where there is nothing to share.
unfoldable pub zero_shares : List ℕ → List Share
zero_shares [] = []
zero_shares (r ∷ rs) = record { remaining = r; alloc = 0; frac = 0 } ∷ zero_shares rs

-- The search of one round from index `i` on: the best index so far with its fraction, replaced by a
-- strictly larger one.
unfoldable pub best_share : List Share → ℕ → Option (ℕ × ℕ) → Option (ℕ × ℕ)
best_share [] i best = best
best_share (s ∷ ss) i best = best_share ss (suc i) (
    if leb s.remaining s.alloc then best else elim best [
      | none ↦ some (i, s.frac)
      | some (j, f) ↦ if ltb f s.frac then some (i, s.frac) else some (j, f)
    ])

-- `alloc[best] += 1; frac[best] = 0;`
unfoldable pub grant : ℕ → List Share → List Share
grant i [] = []
grant zero (s ∷ ss) = record s { alloc = s.alloc + 1; frac = 0 } ∷ ss
grant (suc i) (s ∷ ss) = s ∷ grant i ss

unfoldable pub distribute : ℕ → List Share → Option (List Share)
unfolding best_share grant
distribute zero ss = some ss
distribute (suc w) ss = elim (best_share ss 0 none) [
  | none ↦ none
  | some (i, f) ↦ distribute w (grant i ss)
]

unfoldable pub allocs : List Share → List ℕ
allocs [] = []
allocs (s ∷ ss) = s.alloc ∷ allocs ss

unfoldable pub refunds : List Share → List ℕ
refunds [] = []
refunds (s ∷ ss) = (s.remaining - s.alloc) ∷ refunds ss

-- The refunds for what remains of each tenant's deposit and the approved shared total.
unfoldable pub settle : (shared : ℕ) → List ℕ → Option (List Share)
unfolding sum base_shares zero_shares distribute allocs
settle shared remaining =
    let total = sum remaining in
    if ltb total shared
    then none
    else if ltb 0 shared
    then distribute (shared - sum (allocs (base_shares shared total remaining)))
        (base_shares shared total remaining)
    else some (zero_shares remaining)
