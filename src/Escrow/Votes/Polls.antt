-- ===== src/Escrow/Votes/Polls.antt =====
-- A vote of contracts/contracts/SharedDepositEscrow.sol and the counts of its claim.
use shared_deposit_monad.Base.{
  ℕ, ◌+◌, ◌≤◌, ◌≡◌, refl, ◌∙◌, sym, inl, inr, Bool, true, false, if◌then◌else◌, ◌==◌, List, any,
  arith, Bool-cases, ==_iff,
}
use shared_deposit_monad.Escrow.Types.{Claim, ClaimStatus, is_pending}
use shared_deposit_monad.Escrow.Storage.{State, Msg, ok, Done, put, set_claim, bind_ok, ok_inj}
use shared_deposit_monad.Escrow.Sums.{IsDistinct, put_each}
use shared_deposit_monad.Escrow.Claims.{count_vote, resolve_vote, vote_claim}
use shared_deposit_monad.Escrow.Solvency.{IsAccounted}
use shared_deposit_monad.Escrow.Solvency.Claims.Calls.{vote_guards}
use shared_deposit_monad.Escrow.Closing.{is_used, IsTallied}
use shared_deposit_monad.Escrow.Closing.Tally.{put_self, put_other}
use shared_deposit_monad.Escrow.Closing.Pending.{pending_used}
use shared_deposit_monad.Escrow.Votes.{cast, outcome, is_overdue, IsCast, IsPolled}
use shared_deposit_monad.Escrow.Votes.Counts.{cast-put}
use shared_deposit_monad.Escrow.Votes.Kept.{close_claim-IsPolled, approve_claim-IsPolled}
use shared_deposit_monad.Escrow.Votes.Outcome.{
  ballot, yes_of, no_of, after_vote, count_vote_lem, resolve_vote_lem,
}

-- The first vote of a tenant counts once.
cast_yes :
    (votes : ℕ → ℕ) (a : ℕ) (support : Bool) (l : List ℕ)
    → IsDistinct l
    → any (λ b. b == a) l ≡ true
    → votes a ≡ 0
    → cast 1 (put votes a (ballot support)) l ≡ cast 1 votes l + yes_of support
cast_yes votes a support l d h none =
    let sums = rw none at (cast-put 1 votes a (ballot support) l d h) in ground arith

cast_no :
    (votes : ℕ → ℕ) (a : ℕ) (support : Bool) (l : List ℕ)
    → IsDistinct l
    → any (λ b. b == a) l ≡ true
    → votes a ≡ 0
    → cast 2 (put votes a (ballot support)) l ≡ cast 2 votes l + no_of support
cast_no votes a support l d h none =
    let sums = rw none at (cast-put 2 votes a (ballot support) l d h) in ground arith

used_zero : (n id m k : ℕ) → 1 ≤ id → id ≤ n → (if is_used n id then 0 else m) ≡ 0
used_zero n id m k low high = ground arith

pub after_vote-IsCast :
    (id sender : ℕ) (support : Bool) (s : State)
    → IsCast s
    → IsDistinct s.tenant_list
    → any (λ b. b == sender) s.tenant_list ≡ true
    → s.votes id sender ≡ 0
    → 1 ≤ id
    → id ≤ s.agreement.claim_count
    → IsCast (after_vote id sender support s)
unfolding set_claim
after_vote-IsCast id sender support s
      (yes_counts, no_counts, unused, majority, size, some_tenant, few) distinct listed none low
      high =
    let n = s.agreement.claim_count in
    let l = s.tenant_list in
    let c = record (s.claims id) {
      yes_votes = (s.claims id).yes_votes + yes_of support;
      no_votes = (s.claims id).no_votes + no_of support;
    } in
    let v = put (s.votes id) sender (ballot support) in
    let yes_sum = cast_yes (s.votes id) sender support l distinct listed none in
    let no_sum = cast_no (s.votes id) sender support l distinct listed none in
    (
      (λ x. elim (Bool-cases (x == id)) [
        | inl k ↦
            let same : x ≡ id = (==_iff x id).0 k in
            rw (same, put_self s.claims id c, put_self s.votes id v) (omega (arith, yes_counts id))
        | inr k ↦ rw (put_other s.claims id c x k, put_other s.votes id v x k) (yes_counts x)
      ]),
      (λ x. elim (Bool-cases (x == id)) [
        | inl k ↦
            let same : x ≡ id = (==_iff x id).0 k in
            rw (same, put_self s.claims id c, put_self s.votes id v) (omega (arith, no_counts id))
        | inr k ↦ rw (put_other s.claims id c x k, put_other s.votes id v x k) (no_counts x)
      ]),
      put_each (λ x e. (if is_used n x then 0 else e.yes_votes + e.no_votes) ≡ 0) s.claims id c
          (used_zero n id _ 0 low high) unused,
      majority,
      size,
      some_tenant,
      few,
    )

pub vote_claim_lem :
    (msg : Msg) (id : ℕ) (support : Bool) (s : State) (d : Done)
    → vote_claim msg id support s ≡ ok d
    → ((s.tenants msg.sender).exists ≡ true)
      × (is_pending (s.claims id).status ≡ true)
      × (s.votes id msg.sender ≡ 0)
      × (resolve_vote id (after_vote id msg.sender support s) ≡ ok d.state)
unfolding vote_claim
vote_claim_lem msg id support s d h =
    let (active, early, there, pending, none, h1) = vote_guards msg id s _ d h in
    let (s2, e2, h2) = bind_ok (count_vote msg id support s) _ d h1 in
    let (s3, e3, h3) = bind_ok (resolve_vote id s2) _ d h2 in
    let same = count_vote_lem msg id support s s2 e2 in
    let e : s3 ≡ d.state = rw (← (ok_inj h3)) refl in (there, pending, none, rw (← same, ← e) e3)

undecided_lem :
    (n : ℕ) (c : Claim)
    → outcome n c.yes_votes c.no_votes ≡ ClaimStatus.pending
    → is_overdue n c ≡ false
unfolding outcome is_pending
undecided_lem n c h = ground arith

-- A vote keeps the counts.
pub voting-IsPolled :
    (msg : Msg) (id : ℕ) (support : Bool) (s : State) (d : Done)
    → IsAccounted s
    → IsTallied s
    → IsPolled s
    → vote_claim msg id support s ≡ ok d
    → IsPolled d.state
unfolding set_claim is_pending
voting-IsPolled msg id support s d kept tally (casts, undecided) h =
    let (there, pending, none, e) = vote_claim_lem msg id support s d h in
    let (low, high) = pending_used _ _ id (tally.3 id) pending in
    let s2 = after_vote id msg.sender support s in
    let c = record (s.claims id) {
      yes_votes = (s.claims id).yes_votes + yes_of support;
      no_votes = (s.claims id).no_votes + no_of support;
    } in
    let listed = sym (kept.0.0 msg.sender) ∙ there in
    let casts2 : IsCast s2 =
      after_vote-IsCast id msg.sender support s casts kept.0.1 listed none low high in
    let others : (x : ℕ)
        → (x == id) ≡ false
        → is_overdue s2.agreement.tenant_count (s2.claims x) ≡ false =
      λ x k. rw (put_other s.claims id c x k) (undecided x) in
    elim (resolve_vote_lem id s2 d.state casts2.3 e) [
      | inl (same, left) ↦
          let left2 = rw (put_self s.claims id c) at left in
          rw same (
            casts2,
            put_each (λ x e. is_overdue s.agreement.tenant_count e ≡ false) s.claims id c
                (undecided_lem s.agreement.tenant_count c left2) undecided,
          )
      | inr (inl (q, left)) ↦ approve_claim-IsPolled id s2 d.state casts2 others q
      | inr (inr (q, left)) ↦
          close_claim-IsPolled ClaimStatus.rejected id s2 d.state refl casts2 others q
    ]
