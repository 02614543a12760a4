-- ===== src/Diagnostics/Readiness.antt =====
-- What `evaluateHealth` of frontend/src/lib/diagnostics.ts requires, and what it ignores.
use shared_deposit_monad.Base.{
  ℕ, ◌≤◌, ◌≡◌, refl, ◌↔◌, ◌⊎◌, inl, inr, Bool, true, false, not, ◌&&◌, Option, none, some, List, [],
  ◌∷◌, ◌++◌, arith, Text, opt_eq_iff, opt_eq_refl, truthy-lower, some_inj, norm, truthy, is_some,
  length, ◌==◌,
}
use shared_deposit_monad.Diagnostics.Health.{
  ProviderReadings, EvaluateOptions, code_ok, same_number, balance_low, network_reasons,
  session_matches, client_matches, identity_reasons_of, evaluate_health, when, monad_chain_id,
}

-- The balance covers the least amount, where both are known.
abbrev pub Covers : Option ℕ → Option ℕ → Type 0
Covers (some least) (some balance) = least ≤ balance
Covers _ _ = Unit

-- The hard requirements of network readiness.
pub record IsReady (wallet app : ProviderReadings) (opts : EvaluateOptions) : Type 0 where
  pub wallet_chain : wallet.chain_id ≡ some monad_chain_id
  pub app_chain : app.chain_id ≡ some monad_chain_id
  pub block : is_some app.latest_block ≡ true
  pub code : code_ok app.contract_code ≡ true
  pub balance : Covers opts.min_balance_wei app.balance_wei

same_number_iff : (o : Option ℕ) (n : ℕ) → (same_number o n ≡ true) ↔ (o ≡ some n)
unfolding same_number
same_number_iff none n = ((λ h. cc), (λ h. cc))
same_number_iff (some m) n = (ground arith, ground arith)

balance_low_iff :
    (least balance : Option ℕ) → (balance_low least balance ≡ false) ↔ Covers least balance
unfolding balance_low
balance_low_iff none balance = ((λ h. tt), (λ h. refl))
balance_low_iff (some least) none = ((λ h. tt), (λ h. refl))
balance_low_iff (some least) (some balance) = (ground arith, ground arith)

not-not : (b : Bool) → not (not b) ≡ b
not-not true = refl
not-not false = refl

when-empty :
    (b : Bool) (r : Text) (xs : List Text)
    → (length (when b r ++ xs) == 0) ≡ (not b && (length xs == 0))
when-empty true r xs = ground arith
when-empty false r xs = refl

last-empty : (b : Bool) (r : Text) → (length (when b r) == 0) ≡ not b
last-empty true r = ground arith
last-empty false r = refl

-- The list of reasons is empty exactly if all the tests pass.
reasons-empty :
    (decimal : ℕ → Text) (wallet app : ProviderReadings) (opts : EvaluateOptions)
    → (length (network_reasons decimal wallet app opts) == 0) ≡ (
        same_number wallet.chain_id monad_chain_id
        && (same_number app.chain_id monad_chain_id
            && (is_some app.latest_block
                && (code_ok app.contract_code
                    && not (balance_low opts.min_balance_wei app.balance_wei)))))
unfolding network_reasons
reasons-empty decimal wallet app opts = simp (when-empty, last-empty, not-not)

and_iff :
    (a b c d e : Bool)
    → ((a && (b && (c && (d && not e)))) ≡ true)
      ↔ ((a ≡ true) × (b ≡ true) × (c ≡ true) × (d ≡ true) × (e ≡ false))
and_iff a b c d e = (ground arith, ground arith)

-- The network is ready exactly if both chains are 10143, the application RPC returns a block and
-- shows the contract, and its balance, where both are known, covers the least amount.
pub network_ready_iff :
    (decimal : ℕ → Text) (wallet app : ProviderReadings) (opts : EvaluateOptions)
    → ((evaluate_health decimal wallet app opts).network_ready ≡ true) ↔ IsReady wallet app opts
unfolding evaluate_health
network_ready_iff decimal wallet app opts = rw (reasons-empty decimal wallet app opts) (to, from)
  where
    to :
        (same_number wallet.chain_id monad_chain_id
            && (same_number app.chain_id monad_chain_id
                && (is_some app.latest_block
                    && (code_ok app.contract_code
                        && not (balance_low opts.min_balance_wei app.balance_wei)))))
          ≡ true
        → IsReady wallet app opts
    to h =
        let (a, b, c, d, e) = (and_iff _ _ _ _ _).0 h in
        record {
          wallet_chain = (same_number_iff _ _).0 a;
          app_chain = (same_number_iff _ _).0 b;
          block = c;
          code = d;
          balance = (balance_low_iff _ _).0 e;
        }

    from :
        IsReady wallet app opts
        → (same_number wallet.chain_id monad_chain_id
            && (same_number app.chain_id monad_chain_id
                && (is_some app.latest_block
                    && (code_ok app.contract_code
                        && not (balance_low opts.min_balance_wei app.balance_wei)))))
          ≡ true
    from r = (and_iff _ _ _ _ _).1 (
      (same_number_iff _ _).1 r.wallet_chain,
      (same_number_iff _ _).1 r.app_chain,
      r.block,
      r.code,
      (balance_low_iff _ _).1 r.balance,
    )

-- No other reading of the wallet and no wallet address bears on the network: two evaluations with
-- the same wallet chain and least balance have the same blocking reasons.
pub network_ready-ignores :
    (decimal : ℕ → Text) (wallet wallet' app : ProviderReadings) (opts opts' : EvaluateOptions)
    → wallet.chain_id ≡ wallet'.chain_id
    → opts.min_balance_wei ≡ opts'.min_balance_wei
    → ((evaluate_health decimal wallet app opts).network_ready
        ≡ (evaluate_health decimal wallet' app opts').network_ready)
      × ((evaluate_health decimal wallet app opts).network_blocking_reasons
          ≡ (evaluate_health decimal wallet' app opts').network_blocking_reasons)
unfolding evaluate_health network_reasons
network_ready-ignores decimal wallet wallet' app opts opts' chain least =
    (rw (chain, least), rw (chain, least))

-- The identities agree: one wallet is connected and signed in, up to case, and the account of the
-- wallet client, if it is known, is that one.
abbrev pub IsOneWallet : EvaluateOptions → Type 0
IsOneWallet opts =
    (c : Text) × (norm opts.connected_wallet ≡ some c)
    × (norm opts.auth_wallet ≡ some c)
    × ((norm opts.wallet_client_account ≡ none) ⊎ (norm opts.wallet_client_account ≡ some c))

abbrev OneOf : Option Text → Option Text → Option Text → Type 0
OneOf o a cl = (c : Text) × (o ≡ some c) × (a ≡ some c) × ((cl ≡ none) ⊎ (cl ≡ some c))

to_one : (o a cl : Option Text) → (session_matches o a && client_matches cl o) ≡ true → OneOf o a cl
unfolding session_matches client_matches
to_one none a cl h = cc
to_one (some c) a none h = (c, refl, ground (arith, opt_eq_iff (some c) a), inl refl)
to_one (some c) a (some d) h = (
  c,
  refl,
  ground (arith, opt_eq_iff (some c) a),
  inr (ground (arith, opt_eq_iff (some d) (some c))),
)

from_one :
    (o a cl : Option Text) (c : Text)
    → truthy (some c) ≡ true
    → o ≡ some c
    → a ≡ some c
    → (cl ≡ none) ⊎ (cl ≡ some c)
    → (session_matches o a && client_matches cl o) ≡ true
unfolding session_matches client_matches
from_one o a cl c full p q (inl r) = rw (p, q, r, opt_eq_refl (some c)) (ground arith)
from_one o a cl c full p q (inr r) = rw (p, q, r, opt_eq_refl (some c)) (ground arith)

norm-truthy : (o : Option Text) (c : Text) → norm o ≡ some c → truthy (some c) ≡ true
unfolding norm
norm-truthy none c h = cc
norm-truthy (some []) c h = cc
norm-truthy (some (x ∷ s)) c h = rw (← some_inj h) (truthy-lower x s)

-- The identity check passes exactly if one wallet is connected and signed in, up to case, and a
-- known account of the wallet client is that one. No network reading takes part.
pub identity_match_iff :
    (decimal : ℕ → Text) (wallet app : ProviderReadings) (opts : EvaluateOptions)
    → ((evaluate_health decimal wallet app opts).identity_match ≡ true) ↔ IsOneWallet opts
unfolding evaluate_health
identity_match_iff decimal wallet app opts = (
  to_one (norm opts.connected_wallet) (norm opts.auth_wallet) (norm opts.wallet_client_account),
  λ h.
      from_one (norm opts.connected_wallet) (norm opts.auth_wallet)
        (norm opts.wallet_client_account) h.0 (norm-truthy _ h.0 h.1) h.1 h.2 h.3,
)

append-empty :
    (xs ys : List Text) → (length (xs ++ ys) == 0) ≡ ((length xs == 0) && (length ys == 0))
append-empty [] ys = refl
append-empty (x ∷ xs) ys = ground arith

identity-empty :
    (session client : Bool)
    → (length (identity_reasons_of session client) == 0) ≡ (session && client)
unfolding identity_reasons_of
identity-empty true true = refl
identity-empty true false = ground arith
identity-empty false true = ground arith
identity-empty false false = ground arith

-- The combined list of failures is empty exactly if the network is ready and the identity matches.
pub failures_empty :
    (decimal : ℕ → Text) (wallet app : ProviderReadings) (opts : EvaluateOptions)
    → let d = evaluate_health decimal wallet app opts in
      (length d.failures == 0) ≡ (d.network_ready && d.identity_match)
unfolding evaluate_health
failures_empty decimal wallet app opts = rw (append-empty, identity-empty)
