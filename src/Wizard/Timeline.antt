-- ===== src/Wizard/Timeline.antt =====
-- The dates and participants of frontend/src/pages/NewAgreement.tsx against the checks of the contract.
use shared_deposit_monad.Base.{
  ℕ, suc, ◌*◌, ◌≤◌, ◌<◌, ◌≡◌, refl, ap, subst, Bool, true, false, Option, none, some, List, [], ◌∷◌,
  Text, ltb, length, All, arith,
}
use shared_deposit_monad.Wizard.{
  Wizard, first_problem, problem_if, basics_problems, participants_problems, is_le, is_gt, is_past,
  others, lower_all, all_tenant_wallets, validate_basics, validate_participants,
}
use shared_deposit_monad.Escrow.Storage.{Msg, ok}
use shared_deposit_monad.Escrow.Creation.{Terms, check_terms}

first_problem_none : (ps : List (Option Text)) → first_problem ps ≡ none → All (λ p. p ≡ none) ps
unfolding first_problem
first_problem_none [] h = tt
first_problem_none (none ∷ ps) h = (refl, first_problem_none ps h)
first_problem_none (some p ∷ ps) h = absurd (cc)

pub problem_if_none : (b : Bool) (m : Text) → problem_if b m ≡ none → b ≡ false
unfolding problem_if
problem_if_none true m h = absurd (cc)
problem_if_none false m h = refl

-- The dates of the wizard are those of the terms.
abbrev pub HasDates : (Text → Option ℕ) → Wizard → Terms → Type 0
HasDates to_unix w t =
    (to_unix w.lease_start ≡ some t.lease_start)
    × ((to_unix w.lease_end ≡ some t.lease_end)
        × ((to_unix w.funding_deadline ≡ some t.funding_deadline)
            × ((to_unix w.claim_deadline ≡ some t.claim_deadline)
                × (to_unix w.settlement_deadline ≡ some t.settlement_deadline))))

-- The order of dates that the contract asks for.
abbrev pub IsTimeline : Terms → ℕ → Type 0
IsTimeline t now =
    (now < t.funding_deadline)
    × ((t.lease_start ≤ t.lease_end)
        × ((t.funding_deadline ≤ t.lease_end)
            × ((t.lease_end < t.claim_deadline) × (t.claim_deadline < t.settlement_deadline))))

validate_basics-IsTimeline :
    (to_unix : Text → Option ℕ) (now_ms now : ℕ) (w : Wizard) (t : Terms)
    → validate_basics to_unix now_ms w ≡ none
    → HasDates to_unix w t
    → now * 1000 ≤ now_ms
    → IsTimeline t now
unfolding validate_basics basics_problems
validate_basics-IsTimeline to_unix now_ms now w t h (d1, (d2, (d3, (d4, d5)))) k =
    let (a0, (a1, (a2, (a3, (a4, (a5, (p1, (p2, (p3, (p4, (p5, u))))))))))) =
      first_problem_none (basics_problems to_unix now_ms w) h in
    let q1 = subst (λ x. is_past x now_ms ≡ false) d3 (problem_if_none _ _ p1) in
    let q2 =
      subst (λ x. is_gt x (some t.lease_end) ≡ false) d1
        (subst (λ x. is_gt (to_unix w.lease_start) x ≡ false) d2 (problem_if_none _ _ p2)) in
    let q3 =
      subst (λ x. is_gt x (some t.lease_end) ≡ false) d3
        (subst (λ x. is_gt (to_unix w.funding_deadline) x ≡ false) d2 (problem_if_none _ _ p3)) in
    let q4 =
      subst (λ x. is_le x (some t.lease_end) ≡ false) d4
        (subst (λ x. is_le (to_unix w.claim_deadline) x ≡ false) d2 (problem_if_none _ _ p4)) in
    let q5 =
      subst (λ x. is_le x (some t.claim_deadline) ≡ false) d5
        (subst (λ x. is_le (to_unix w.settlement_deadline) x ≡ false) d4
          (problem_if_none _ _ p5)) in
    (
      ground (arith, q1),
      (ground (arith, q2), (ground (arith, q3), (ground (arith, q4), ground (arith, q5)))),
    )

validate_participants_count :
    (is_address : Text → Bool) (w : Wizard)
    → validate_participants is_address w ≡ none
    → (1 ≤ length (others w.tenants)) × (length (others w.tenants) ≤ 7)
unfolding validate_participants participants_problems
validate_participants_count is_address w h =
    let (a0, (a1, (a2, rest))) = first_problem_none (participants_problems is_address w) h in
    let q1 : ltb (length (others w.tenants)) 1 ≡ false = problem_if_none _ _ a1 in
    let q2 : ltb 7 (length (others w.tenants)) ≡ false = problem_if_none _ _ a2 in
    (ground (arith, q1), ground (arith, q2))

length-lower_all : (ws : List Text) → length (lower_all ws) ≡ length ws
unfolding lower_all
length-lower_all [] = refl
length-lower_all (w ∷ ws) = ap suc (length-lower_all ws)

-- Where the first two steps of the wizard find no problem, the contract's checks of the terms pass,
-- for terms with the wizard's dates, all of them readable, and one tenant for each wallet of the
-- wizard with an amount each, a recipient and a terms hash, in a block that is no later than the
-- validation.
pub validate-check_terms :
    (to_unix : Text → Option ℕ) (is_address : Text → Bool) (now_ms : ℕ) (w : Wizard) (msg : Msg)
    (t : Terms)
    → validate_basics to_unix now_ms w ≡ none
    → validate_participants is_address w ≡ none
    → HasDates to_unix w t
    → msg.timestamp * 1000 ≤ now_ms
    → length t.tenant_addresses ≡ length (all_tenant_wallets w)
    → length t.required_amounts ≡ length t.tenant_addresses
    → 0 < t.recipient
    → 0 < t.terms_hash
    → check_terms msg t ≡ ok tt
unfolding check_terms all_tenant_wallets
validate-check_terms to_unix is_address now_ms w msg t h1 h2 dates clock count same r hash =
    let (l1, (l2, (l3, (l4, l5)))) =
      validate_basics-IsTimeline to_unix now_ms msg.timestamp w t h1 dates clock in
    let (c1, c2) = validate_participants_count is_address w h2 in
    let c3 = length-lower_all (others w.tenants) in
    ground (arith, r, hash, same, count, c1, c2, c3, l1, l2, l3, l4, l5)
