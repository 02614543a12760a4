-- ===== src/Escrow/Closing/Finalized.antt =====
-- The calls that end an agreement of contracts/contracts/SharedDepositEscrow.sol.
use shared_deposit_monad.Base.{
  ℕ, zero, suc, ◌≤◌, ◌<◌, ◌≡◌, refl, ◌∙◌, inl, inr, Bool, true, false, ◌&&◌, not, ◌==◌, ltb, List,
  arith, Bool-cases, ==_iff, All,
}
use shared_deposit_monad.Escrow.Types.{
  Claim, ClaimStatus, max_claims, is_active, is_finalized, is_pending,
}
use shared_deposit_monad.Escrow.Storage.{State, Msg, Call, ok, reverted, Done, u128, put}
use shared_deposit_monad.Escrow.Creation.{Terms, create_agreement}
use shared_deposit_monad.Escrow.Funding.{with_status}
use shared_deposit_monad.Escrow.Claims.{finalize_pending_claim}
use shared_deposit_monad.Escrow.Solvency.{
  EscrowCall, finalizing, finalizing_claim, perform, IsAccounted, ledger, run_ledger,
}
use shared_deposit_monad.Escrow.Solvency.Conservation.{perform-Conserves}
use shared_deposit_monad.Escrow.Solvency.Claims.Calls.{finalize_pending_claim_ok}
use shared_deposit_monad.Escrow.Solvency.Payouts.{finalize_agreement_iff}
use shared_deposit_monad.Escrow.Solvency.Payouts.Conservation.{finalize_agreement_ok}
use shared_deposit_monad.Escrow.Solvency.Fresh.{IsFresh-IsAccounted}
use shared_deposit_monad.Escrow.Solvency.Start.{create_agreement-IsFresh}
use shared_deposit_monad.Escrow.Closing.{pending_one, is_used, IsTallied, closing}
use shared_deposit_monad.Escrow.Closing.Tally.{put_self, put_other, claim_sum_zero}
use shared_deposit_monad.Escrow.Closing.Pending.{not_pending_values}
use shared_deposit_monad.Escrow.Closing.Calls.{
  perform-IsTallied, run_ledger-IsTallied, IsFresh-IsTallied,
}
use shared_deposit_monad.Escrow.Closing.Resolved.{IsParticipant, Ends, finalize_pending_claim_total}

-- After the deadline, with a participant as the sender, only the claims up to an ID are pending.
abbrev IsClosing : Msg → ℕ → State → Type 0
IsClosing msg n s =
    IsAccounted s
    × IsTallied s
    × (is_active s.agreement.status ≡ true)
    × (s.agreement.settlement_deadline < msg.timestamp)
    × IsParticipant msg.sender s
    × ((id : ℕ) → (ltb n id && is_pending (s.claims id).status) ≡ false)

-- One claim less is pending.
pending_less :
    (claims : ℕ → Claim) (n : ℕ) (c : Claim)
    → is_pending c.status ≡ false
    → ((id : ℕ) → (ltb (suc n) id && is_pending (claims id).status) ≡ false)
    → (id : ℕ) → (ltb n id && is_pending (put claims (suc n) c id).status) ≡ false
pending_less claims n c ended h id = elim (Bool-cases (id == suc n)) [
  | inl k ↦
      let same : id ≡ suc n = (==_iff id (suc n)).0 k in
      rw (same, put_self claims (suc n) c, ended) (ground arith)
  | inr k ↦ let old = h id in rw (put_other claims (suc n) c id k) (ground arith)
]

pending_skip :
    (claims : ℕ → Claim) (n : ℕ)
    → is_pending (claims (suc n)).status ≡ false
    → ((id : ℕ) → (ltb (suc n) id && is_pending (claims id).status) ≡ false)
    → (id : ℕ) → (ltb n id && is_pending (claims id).status) ≡ false
pending_skip claims n ended h id = elim (Bool-cases (id == suc n)) [
  | inl k ↦ let same : id ≡ suc n = (==_iff id (suc n)).0 k in rw (same, ended) (ground arith)
  | inr k ↦ let old = h id in ground arith
]

none_used :
    (pending : Bool) (count id : ℕ)
    → (pending && not (is_used count id)) ≡ false
    → (ltb 0 id && pending) ≡ false
    → pending ≡ false
none_used pending count id h k = ground arith

used_over :
    (pending : Bool) (count id : ℕ)
    → (pending && not (is_used count id)) ≡ false
    → (ltb count id && pending) ≡ false
used_over pending count id h = ground arith

IsParticipant-Ends :
    (a : ℕ) (s s2 : State)
    → s2.agreement.recipient ≡ s.agreement.recipient
    → (s2.tenants a).exists ≡ (s.tenants a).exists
    → IsParticipant a s
    → IsParticipant a s2
IsParticipant-Ends a s s2 h k here = rw (h, k) here

ended-IsClosing :
    (msg : Msg) (n : ℕ) (s : State) (d : Done) (status : ClaimStatus)
    → IsClosing msg (suc n) s
    → is_pending status ≡ false
    → finalize_pending_claim msg (suc n) s ≡ ok d
    → Ends (suc n) status s d.state
    → IsClosing msg n d.state
unfolding perform
ended-IsClosing msg n s d status (kept, tally, active, late, here, up_to) ended e
      (same_status, same_deadline, same_recipient, same_claims, same_exists) =
    let c = record (s.claims (suc n)) { status = status } in
    (
      (perform-Conserves (finalizing_claim (suc n)) msg s d kept e).0,
      perform-IsTallied (finalizing_claim (suc n)) msg s d kept tally e,
      rw same_status active,
      rw same_deadline late,
      IsParticipant-Ends msg.sender s d.state same_recipient (same_exists msg.sender) here,
      rw same_claims (pending_less s.claims n c ended up_to),
    )

ledger_ok :
    (c : EscrowCall) (msg : Msg) (s : State) (balance : ℕ) (d : Done)
    → perform c msg s ≡ ok d
    → (ledger (c, msg) (s, balance)).0 ≡ d.state
unfolding ledger
ledger_ok c msg s balance d e = rw (e, ledger) refl

IsClosing-ledger :
    (msg : Msg) (n : ℕ) (s : State) (balance : ℕ)
    → IsClosing msg (suc n) s
    → IsClosing msg n (ledger (finalizing_claim (suc n), msg) (s, balance)).0
unfolding ledger perform
IsClosing-ledger msg n s balance (kept, tally, active, late, here, up_to) =
    elim (Bool-cases (is_pending (s.claims (suc n)).status)) [
      | inl k ↦
          let (d, e, status, ended, ends) =
            finalize_pending_claim_total msg (suc n) s kept tally active late here k in
          rw (ledger_ok (finalizing_claim (suc n)) msg s balance d e)
            (ended-IsClosing msg n s d status (kept, tally, active, late, here, up_to) ended e ends)
      | inr k ↦ skipped (finalize_pending_claim msg (suc n) s) refl k
    ]
  where
    skipped :
        (r : Call Done)
        → finalize_pending_claim msg (suc n) s ≡ r
        → is_pending (s.claims (suc n)).status ≡ false
        → IsClosing msg n (ledger (finalizing_claim (suc n), msg) (s, balance)).0
    skipped (ok d) e k =
        let (running, pending, sent, rest) = finalize_pending_claim_ok msg (suc n) s d e in
        absurd (cc)
    skipped (reverted x) e k =
        rw (e, ledger) (kept, tally, active, late, here, pending_skip s.claims n k up_to)

-- With no claim left, the agreement is finalized.
closing_last :
    (msg : Msg) (s : State) (balance : ℕ)
    → IsClosing msg 0 s
    → is_finalized (ledger (finalizing, msg) (s, balance)).0.agreement.status ≡ true
unfolding perform with_status is_finalized
closing_last msg s balance (kept, tally, active, late, here, up_to) =
    let none_pending : (id : ℕ) → pending_one (s.claims id) ≡ 0 =
      λ id. (not_pending_values (s.claims id) (none_used _ _ id (tally.3 id) (up_to id))).1 in
    let resolved : s.agreement.unresolved_claim_count ≡ 0 =
      tally.1 ∙ claim_sum_zero pending_one s.claims s.agreement.claim_count none_pending in
    let (d, e, sums) = (finalize_agreement_iff msg s kept).1 (active, late, resolved) in
    let (running, (tenants, shares, shape, rest, rest2)) = finalize_agreement_ok msg s d kept e in
    rw (ledger_ok finalizing msg s balance d e, shape) refl

closing_ends :
    (msg : Msg) (n : ℕ) (s : State) (balance : ℕ)
    → IsClosing msg n s
    → is_finalized (run_ledger (closing msg n) (s, balance)).0.agreement.status ≡ true
unfolding closing run_ledger
closing_ends msg zero s balance h = closing_last msg s balance h
closing_ends msg (suc n) s balance h =
    let next = IsClosing-ledger msg n s balance h in
    closing_ends msg n (ledger (finalizing_claim (suc n), msg) (s, balance)).0
      (ledger (finalizing_claim (suc n), msg) (s, balance)).1 next

-- No agreement gets stuck: from its creation on, with amounts that fit a uint128, and after any calls
-- whatsoever, an agreement that is then active is finalized by the calls of one participant, a tenant or
-- the recipient, after the settlement deadline: one for each claim ID, of which there are at most 32 and
-- which may revert where the claim is resolved, and then the finalization.
pub created-closing :
    (msg : Msg) (t : Terms) (s : State) (cs : List (EscrowCall × Msg)) (last : Msg)
    → All (λ n. n < u128) t.required_amounts
    → create_agreement msg t ≡ ok s
    → is_active (run_ledger cs (s, 0)).0.agreement.status ≡ true
    → (run_ledger cs (s, 0)).0.agreement.settlement_deadline < last.timestamp
    → IsParticipant last.sender (run_ledger cs (s, 0)).0
    → ((run_ledger cs (s, 0)).0.agreement.claim_count ≤ max_claims)
      × (is_finalized
            (run_ledger
              (closing last (run_ledger cs (s, 0)).0.agreement.claim_count)
              (run_ledger cs (s, 0))).0.agreement.status
          ≡ true)
created-closing msg t s cs last small h active late here =
    let fresh = create_agreement-IsFresh msg t s small h in
    let (kept, tally) =
      run_ledger-IsTallied cs s 0 (IsFresh-IsAccounted s fresh).0 (IsFresh-IsTallied s fresh) in
    let reached = (run_ledger cs (s, 0)).0 in
    (
      tally.4,
      closing_ends last reached.agreement.claim_count reached (run_ledger cs (s, 0)).1
          (kept, tally, active, late, here, (λ id. used_over _ _ id (tally.3 id))),
    )
