-- ===== src/Wizard/Terms.antt =====
-- The contributions of frontend/src/pages/NewAgreement.tsx, and its 'Continue' button.
use shared_deposit_monad.Base.{
  ℕ, suc, ◌+◌, ◌≤◌, ◌<◌, ◌≡◌, refl, ◌∙◌, ap, ◌↔◌, Option, none, some, List, [], ◌∷◌, ◌++◌, Text,
  txt, if◌then◌else◌, ltb, ◌==◌, length, arith,
}
use shared_deposit_monad.Format.{
  trim, trim_start, trim_end, decimal_input, mon_to_wei, decimal_message,
}
use shared_deposit_monad.ContractTx.Messages.{decimal}
use shared_deposit_monad.Wizard.{
  Wizard, problem_if, contribution_problem, validate_contributions, wei_or_zero, add_wei, total_wei,
  Readers, validate_step, next, last_step,
}
use shared_deposit_monad.Wizard.Timeline.{problem_if_none}

-- The amounts that the step of the contributions accepts, and the total of the page.
pub contribution_none :
    (parse_ether : Text → ℕ) (i : ℕ) (a : Text)
    → contribution_problem parse_ether i a ≡ none
    → (wei : ℕ) × ((mon_to_wei parse_ether a ≡ some wei) × (1 ≤ wei))
unfolding contribution_problem
contribution_none parse_ether i a h = read (mon_to_wei parse_ether a) refl h
  where
    read :
        (m : Option ℕ)
        → mon_to_wei parse_ether a ≡ m
        → (elim m [
          | none ↦ some (txt "Contribution " ++ (decimal i ++ (txt ": " ++ decimal_message)))
          | some wei ↦
              problem_if
                (wei == 0)
                (txt "Contribution " ++ (decimal i ++ txt " must be greater than zero."))
        ])
          ≡ none
        → (wei : ℕ) × ((mon_to_wei parse_ether a ≡ some wei) × (1 ≤ wei))
    read none e q = absurd (cc)
    read (some wei) e q = (wei, (e, let z = problem_if_none (wei == 0) _ q in ground (arith, z)))

pub wei_or_zero_same :
    (parse_ether : Text → ℕ) (a : Text) (n : ℕ)
    → mon_to_wei parse_ether a ≡ some n
    → wei_or_zero parse_ether a ≡ some n
unfolding wei_or_zero mon_to_wei trim trim_start trim_end decimal_input
wei_or_zero_same parse_ether [] n h = absurd (cc)
wei_or_zero_same parse_ether (c ∷ a) n h = h

pub validate_contributions_cons :
    (parse_ether : Text → ℕ) (i : ℕ) (a : Text) (rest : List Text)
    → validate_contributions parse_ether i (a ∷ rest) ≡ none
    → (contribution_problem parse_ether i a ≡ none)
      × (validate_contributions parse_ether (suc i) rest ≡ none)
unfolding validate_contributions
validate_contributions_cons parse_ether i a rest h = split (contribution_problem parse_ether i a) h
  where
    split :
        (p : Option Text)
        → (elim p [
          | none ↦ validate_contributions parse_ether (suc i) rest
          | some problem ↦ some problem
        ])
          ≡ none
        → (p ≡ none) × (validate_contributions parse_ether (suc i) rest ≡ none)
    split none q = (refl, q)
    split (some p) q = absurd (cc)

total_wei_cons :
    (parse_ether : Text → ℕ) (a : Text) (rest : List Text) (m n : ℕ)
    → wei_or_zero parse_ether a ≡ some m
    → total_wei parse_ether rest ≡ some n
    → total_wei parse_ether (a ∷ rest) ≡ some (m + n)
unfolding total_wei add_wei
total_wei_cons parse_ether a rest m n h k =
    ap (λ x. add_wei x (total_wei parse_ether rest)) h ∙ ap (λ x. add_wei (some m) x) k

-- Where the step of the contributions finds no problem, the total that the page shows exists and is
-- at least one wei for each contribution.
pub validate_contributions-total_wei :
    (parse_ether : Text → ℕ) (i : ℕ) (xs : List Text)
    → validate_contributions parse_ether i xs ≡ none
    → (total : ℕ) × ((total_wei parse_ether xs ≡ some total) × (length xs ≤ total))
unfolding total_wei
validate_contributions-total_wei parse_ether i [] h = (0, (refl, omega arith))
validate_contributions-total_wei parse_ether i (a ∷ rest) h =
    let (h1, h2) = validate_contributions_cons parse_ether i a rest h in
    let (wei, (e, k)) = contribution_none parse_ether i a h1 in
    let (total, (e2, k2)) = validate_contributions-total_wei parse_ether (suc i) rest h2 in
    (
      wei + total,
      (
        total_wei_cons parse_ether a rest wei total (wei_or_zero_same parse_ether a wei e) e2,
        omega (arith, k, k2),
      ),
    )

-- 'Continue' moves exactly one step on where the step has no problem, and shows the first problem and
-- stays otherwise.
pub next_iff :
    (r : Readers) (now_ms : ℕ) (w : Wizard)
    → w.step < last_step
    → ((next r now_ms w).step ≡ w.step + 1) ↔ (validate_step r now_ms w.step w ≡ none)
unfolding next
next_iff r now_ms w h = moves (validate_step r now_ms w.step w)
  where
    after : Option Text → Wizard
    after p = elim p [
      | some problem ↦ record w { error = some problem }
      | none ↦ record w {
        error = none;
        step = if ltb (w.step + 1) last_step then w.step + 1 else last_step;
      }
    ]

    moves : (p : Option Text) → ((after p).step ≡ w.step + 1) ↔ (p ≡ none)
    moves none = (λ q. refl, λ q. ground (arith, h))
    moves (some p) = (λ q. absurd (omega (arith, q)), λ q. absurd (cc))
