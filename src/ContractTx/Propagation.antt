-- ===== src/ContractTx/Propagation.antt =====
-- `confirmPropagation` of frontend/src/hooks/useContractTx.ts.
use shared_deposit_monad.Base.{
  ℕ, zero, suc, ◌+◌, ◌*◌, ◌≤◌, ◌<◌, ◌≡◌, inl, inr, true, false, Option, none, some, arith,
  Option-cases, dec_lt,
}
use shared_deposit_monad.Diagnostics.Propagation.{PropagationDecision, classify_propagation}
use shared_deposit_monad.ContractTx.Provider.{Reply, ChainTx, app_sees_tx, wallet_sees_tx}

abbrev pub propagation_window_ms : ℕ
propagation_window_ms = 15000

abbrev pub propagation_extended_ms : ℕ
propagation_extended_ms = 30000

-- The pause between two rounds, `setTimeout(resolve, 1500)`.
abbrev pub round_ms : ℕ
round_ms = 1500

-- One round of the loop: what both providers answer, and the time since the start.
pub record Round : Type 0 where
  pub app : Option (Reply ChainTx)
  pub wallet : Reply (Option ChainTx)
  pub elapsed : ℕ

pub data Outcome : Type 0 where
  app_confirmed broadcast_failed_not_propagated wallet_rpc_diverged : Outcome

unfoldable pub decide : Round → PropagationDecision
unfolding app_sees_tx wallet_sees_tx classify_propagation
decide r =
    classify_propagation (wallet_sees_tx r.wallet) (app_sees_tx r.app) r.elapsed
      propagation_window_ms propagation_extended_ms

-- The tests of one round, `none` where the loop goes on.
unfoldable pub settle : PropagationDecision → Option Outcome
settle PropagationDecision.app_confirmed = some Outcome.app_confirmed
settle PropagationDecision.broadcast_failed_not_propagated =
    some Outcome.broadcast_failed_not_propagated
settle PropagationDecision.wallet_rpc_diverged = some Outcome.wallet_rpc_diverged
settle _ = none

-- The loop from round `i` on; `none` means that the fuel ran out.
unfoldable pub confirm_propagation : ℕ → (ℕ → Round) → ℕ → Option Outcome
unfolding decide settle
confirm_propagation zero rounds i = none
confirm_propagation (suc fuel) rounds i =
    let rest = confirm_propagation fuel rounds (suc i) in
    elim (settle (decide (rounds i))) [ some out ↦ some out | none ↦ rest ]

-- What an outcome says of the round in which it was reached.
abbrev pub Shows : Outcome → Round → Type 0
Shows Outcome.app_confirmed r = app_sees_tx r.app ≡ true
Shows Outcome.broadcast_failed_not_propagated r =
    (app_sees_tx r.app ≡ false)
    × (wallet_sees_tx r.wallet ≡ false)
    × (propagation_window_ms ≤ r.elapsed)
Shows Outcome.wallet_rpc_diverged r =
    (app_sees_tx r.app ≡ false)
    × (wallet_sees_tx r.wallet ≡ true)
    × (propagation_extended_ms ≤ r.elapsed)

settle-Shows : (r : Round) (out : Outcome) → settle (decide r) ≡ some out → Shows out r
unfolding settle decide
settle-Shows r Outcome.app_confirmed h = ground arith
settle-Shows r Outcome.broadcast_failed_not_propagated h = ground arith
settle-Shows r Outcome.wallet_rpc_diverged h = ground arith

settle_early : (r : Round) → settle (decide r) ≡ none → r.elapsed < propagation_extended_ms
unfolding settle decide
settle_early r h = ground arith

settle_lost :
    (r : Round)
    → app_sees_tx r.app ≡ false
    → wallet_sees_tx r.wallet ≡ false
    → propagation_window_ms ≤ r.elapsed
    → settle (decide r) ≡ some Outcome.broadcast_failed_not_propagated
unfolding settle decide
settle_lost r a w h = ground arith

settle_wallet_only :
    (r : Round)
    → wallet_sees_tx r.wallet ≡ true
    → app_sees_tx r.app ≡ false
    → r.elapsed < propagation_extended_ms
    → settle (decide r) ≡ none
unfolding settle decide
settle_wallet_only r w a h = ground arith

-- The rounds reach an outcome that its round shows, no later than the first late round.
confirm_propagation_from :
    (fuel : ℕ) (rounds : ℕ → Round) (i : ℕ)
    → (last : ℕ) → i ≤ last
    → last < i + fuel
    → propagation_extended_ms ≤ (rounds last).elapsed
    → (out : Outcome) × (k : ℕ) × (k ≤ last)
      × (confirm_propagation fuel rounds i ≡ some out)
      × Shows out (rounds k)
unfolding confirm_propagation
confirm_propagation_from zero rounds i last h room late = absurd (omega arith)
confirm_propagation_from (suc fuel) rounds i last h room late =
    elim (Option-cases (settle (decide (rounds i)))) [
      | inr (out, e) ↦ (out, i, h, rw (e, confirm_propagation), settle-Shows (rounds i) out e)
      | inl e ↦
          rw (e, confirm_propagation)
            (confirm_propagation_from fuel rounds (suc i) last
              (ground (arith, settle_early (rounds i) e)) (omega arith) late)
    ]

-- Where each round takes its pause of 1.5 seconds, twenty-one rounds reach an outcome, and the
-- round in which it is reached shows it: the application RPC sees the transaction, or neither
-- provider does after 15 seconds, or only the wallet does after 30 seconds.
pub confirm_propagation_total :
    (rounds : ℕ → Round)
    → ((i : ℕ) → round_ms * i ≤ (rounds i).elapsed)
    → (out : Outcome) × (k : ℕ) × (k ≤ 20)
      × (confirm_propagation 21 rounds 0 ≡ some out)
      × Shows out (rounds k)
confirm_propagation_total rounds clock =
    confirm_propagation_from 21 rounds 0 20 (omega arith) (omega arith) (omega (arith, clock 20))

confirm_propagation_failed_from :
    (fuel : ℕ) (rounds : ℕ → Round) (i k : ℕ)
    → i ≤ k
    → k < i + fuel
    → ((j : ℕ) → j < k → settle (decide (rounds j)) ≡ none)
    → settle (decide (rounds k)) ≡ some Outcome.broadcast_failed_not_propagated
    → confirm_propagation fuel rounds i ≡ some Outcome.broadcast_failed_not_propagated
unfolding confirm_propagation
confirm_propagation_failed_from zero rounds i k h room quiet shut = absurd (omega arith)
confirm_propagation_failed_from (suc fuel) rounds i k h room quiet shut = elim (dec_lt i k) [
  | yes p ↦
      rw (quiet i p, confirm_propagation)
        (confirm_propagation_failed_from fuel rounds (suc i) k p (omega arith) quiet shut)
  | no p ↦ let e : i ≡ k = omega arith in rw e (rw (shut, confirm_propagation))
]

-- One round after 15 seconds in which neither provider answers for the transaction ends the loop
-- with the terminal outcome, although the wallet saw the transaction in every round before.
pub confirm_propagation_forgets_wallet :
    (rounds : ℕ → Round) (fuel k : ℕ)
    → k < fuel
    → ((j : ℕ)
        → j < k
        → (wallet_sees_tx (rounds j).wallet ≡ true)
          × (app_sees_tx (rounds j).app ≡ false)
          × ((rounds j).elapsed < propagation_extended_ms))
    → app_sees_tx (rounds k).app ≡ false
    → wallet_sees_tx (rounds k).wallet ≡ false
    → propagation_window_ms ≤ (rounds k).elapsed
    → confirm_propagation fuel rounds 0 ≡ some Outcome.broadcast_failed_not_propagated
confirm_propagation_forgets_wallet rounds fuel k room before no_app no_wallet late =
    confirm_propagation_failed_from fuel rounds 0 k (omega arith) (omega arith) quiet
      (settle_lost (rounds k) no_app no_wallet late)
  where
    quiet : (j : ℕ) → j < k → settle (decide (rounds j)) ≡ none
    quiet j h =
        let (seen, unseen, early) = before j h in settle_wallet_only (rounds j) seen unseen early
