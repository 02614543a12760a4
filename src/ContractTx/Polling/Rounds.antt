-- ===== src/ContractTx/Polling/Rounds.antt =====
-- When `pollClassify` of frontend/src/hooks/useContractTx.ts ends, and with what.
use shared_deposit_monad.Base.{
  ℕ, zero, suc, ◌+◌, ◌*◌, ◌≤◌, ◌<◌, ◌≡◌, inl, inr, ◌≢◌, Bool, false, ◌||◌, Option, none, some,
  arith, Option-cases, dec_lt,
}
use shared_deposit_monad.Diagnostics.{monad_chain_id}
use shared_deposit_monad.ContractTx.Provider.{
  reply, threw, ChainTx, Classification, inspect_once, inspect_receipt, inspect_mempool,
}
use shared_deposit_monad.ContractTx.Polling.{
  poll_interval_ms, Poll, current, is_pending, round, poll_classify,
}
use shared_deposit_monad.ContractTx.Polling.Explains.{Explains, current-Explains}

-- What a finished poll says of its last round `k`.
abbrev pub Ends : Classification → ℕ → (ℕ → Poll) → ℕ → Type 0
Ends Classification.pending deadline polls k = deadline < (polls k).now
Ends Classification.not_found deadline polls k =
    (deadline < (polls k).now)
    × (current (polls k) ≡ some Classification.not_found)
    × ((j : ℕ) → j ≤ k → is_pending (current (polls j)) ≡ false)
Ends c deadline polls k = Explains c (polls k).view

abbrev RoundEnds : Classification → ℕ → Bool → Option Classification → ℕ → Type 0
RoundEnds Classification.pending deadline seen c now = deadline < now
RoundEnds Classification.not_found deadline seen c now =
    (deadline < now) × (c ≡ some Classification.not_found) × (seen ≡ false)
RoundEnds out deadline seen c now = c ≡ some out

round-RoundEnds :
    (deadline : ℕ) (seen : Bool) (c : Option Classification) (now : ℕ) (out : Classification)
    → round deadline seen c now ≡ some out
    → RoundEnds out deadline seen c now
unfolding round
round-RoundEnds deadline seen c now (Classification.mined_success r) h = ground arith
round-RoundEnds deadline seen c now (Classification.mined_reverted r) h = ground arith
round-RoundEnds deadline seen c now (Classification.nonce_blocked n l) h = ground arith
round-RoundEnds deadline seen c now Classification.pending h = ground arith
round-RoundEnds deadline seen c now Classification.not_found h = ground arith

round-none :
    (deadline : ℕ) (seen : Bool) (c : Option Classification) (now : ℕ)
    → round deadline seen c now ≡ none
    → now ≤ deadline
unfolding round
round-none deadline seen c now h = ground arith

module _ (deadline : ℕ) (polls : ℕ → Poll) where
  -- While nothing was seen, no round was pending.
  abbrev IsFresh : Bool → ℕ → Type 0
  IsFresh seen i = seen ≡ false → (j : ℕ) → j < i → is_pending (current (polls j)) ≡ false

  IsFresh-suc :
      (seen : Bool) (i : ℕ)
      → IsFresh seen i
      → IsFresh (seen || is_pending (current (polls i))) (suc i)
  IsFresh-suc seen i fresh h j lt = elim (dec_lt j i) [
    | yes p ↦ fresh (ground arith) j p
    | no p ↦ let e : j ≡ i = omega arith in rw e (ground arith)
  ]

  finish :
      (seen : Bool) (i : ℕ) (out : Classification)
      → IsFresh seen i
      → round deadline (seen || is_pending (current (polls i))) (current (polls i)) (polls i).now
        ≡ some out
      → Ends out deadline polls i
  finish seen i out fresh h =
      to_ends out (round-RoundEnds deadline _ (current (polls i)) (polls i).now out h)
    where
      to_ends :
          (c : Classification)
          → RoundEnds c deadline
              (seen || is_pending (current (polls i)))
              (current (polls i))
              (polls i).now
          → Ends c deadline polls i
      to_ends (Classification.mined_success r) e = current-Explains (polls i) _ e
      to_ends (Classification.mined_reverted r) e = current-Explains (polls i) _ e
      to_ends (Classification.nonce_blocked n l) e = current-Explains (polls i) _ e
      to_ends Classification.pending e = e
      to_ends Classification.not_found (late, e, unseen) =
          (late, e, λ j le. IsFresh-suc seen i fresh unseen j (omega arith))

  poll_classify_from :
      (fuel : ℕ) (seen : Bool) (i last : ℕ)
      → i ≤ last
      → last < i + fuel
      → deadline < (polls last).now
      → IsFresh seen i
      → (out : Classification) × (k : ℕ) × (k ≤ last)
        × (poll_classify fuel deadline polls seen i ≡ some out)
        × Ends out deadline polls k
  unfolding poll_classify
  poll_classify_from zero seen i last h room late fresh = absurd (omega arith)
  poll_classify_from (suc fuel) seen i last h room late fresh =
      let c = current (polls i) in
      let now_seen = seen || is_pending c in
      elim (Option-cases (round deadline now_seen c (polls i).now)) [
        | inr (out, e) ↦ (out, i, h, rw (e, poll_classify), finish seen i out fresh e)
        | inl e ↦
            rw (e, poll_classify)
              (poll_classify_from fuel now_seen (suc i) last (next e) (omega arith) late
                (IsFresh-suc seen i fresh))
      ]
    where
      next :
          round deadline (seen || is_pending (current (polls i))) (current (polls i)) (polls i).now
            ≡ none
          → suc i ≤ last
      next e = elim (dec_lt i last) [
        | yes p ↦ p
        | no p ↦
            let same : i ≡ last = omega arith in
            let early = round-none deadline _ (current (polls i)) (polls i).now e in
            absurd (omega (arith, rw same at early))
      ]

-- Where each round takes its pause of 1.5 seconds, a poll over a window returns within the rounds
-- that the window holds and one more, and its result tells of the round `k` that gave it: a receipt
-- and its status, or a nonce ahead of the sender's; or else that the window has passed, with
-- `not_found` only if no round up to then was pending.
pub poll_classify_total :
    (start window n : ℕ) (polls : ℕ → Poll)
    → window < poll_interval_ms * n
    → ((i : ℕ) → start + poll_interval_ms * i ≤ (polls i).now)
    → (out : Classification) × (k : ℕ) × (k ≤ n)
      × (poll_classify (suc n) (start + window) polls false 0 ≡ some out)
      × Ends out (start + window) polls k
poll_classify_total start window n polls room clock =
    poll_classify_from (start + window) polls (suc n) false 0 n (omega arith) (omega arith)
      (omega (arith, clock n)) (λ _ j lt. absurd (omega arith))

poll_classify-not_found :
    (deadline : ℕ) (polls : ℕ → Poll) (fuel i last : ℕ)
    → ((j : ℕ) → current (polls j) ≡ some Classification.not_found)
    → i ≤ last
    → last < i + fuel
    → deadline < (polls last).now
    → poll_classify fuel deadline polls false i ≡ some Classification.not_found
unfolding poll_classify round is_pending
poll_classify-not_found deadline polls zero i last lost h room late = absurd (omega arith)
poll_classify-not_found deadline polls (suc fuel) i last lost h room late =
    elim (dec_lt deadline (polls i).now) [
      | yes p ↦ ground (arith, lost i)
      | no p ↦
          let e : i ≢ last = λ same. absurd (omega (arith, rw (← same) at late)) in
          let later =
            poll_classify-not_found deadline polls fuel (suc i) last lost (omega arith)
              (omega arith) late in
          ground (arith, lost i)
    ]

count_fails :
    (p : Poll) (t : ChainTx)
    → p.view.client ≡ some (some monad_chain_id)
    → p.view.receipt ≡ threw
    → p.view.tx ≡ reply t
    → p.view.count ≡ threw
    → current p ≡ some Classification.not_found
unfolding current inspect_once inspect_receipt inspect_mempool
count_fails p t client receipt tx count = ground arith

-- A node that knows the transaction, but fails to count the sender's transactions, makes the poll
-- end with `not_found`, as if the transaction had never been seen.
pub poll_classify_count_fails :
    (deadline : ℕ) (polls : ℕ → Poll) (fuel last : ℕ)
    → last < fuel
    → deadline < (polls last).now
    → ((j : ℕ)
        → (t : ChainTx) × ((polls j).view.client ≡ some (some monad_chain_id))
          × ((polls j).view.receipt ≡ threw)
          × ((polls j).view.tx ≡ reply t)
          × ((polls j).view.count ≡ threw))
    → poll_classify fuel deadline polls false 0 ≡ some Classification.not_found
poll_classify_count_fails deadline polls fuel last room late known =
    poll_classify-not_found deadline polls fuel 0 last
      (λ j.
        let (t, client, receipt, tx, count) = known j in
        count_fails (polls j) t client receipt tx count)
      (omega arith) (omega arith) late
