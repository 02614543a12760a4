-- ===== src/Readings/Gate.antt =====
-- Which failed reads of frontend/src/hooks/useWalletNetworkDiagnostics.ts block a write.
use shared_deposit_monad.Base.{
  ℕ, ◌≡◌, refl, true, false, Option, none, some, Text, Bool-cases, inl, inr, first_line,
}
use shared_deposit_monad.Diagnostics.Health.{
  ProviderReadings, EvaluateOptions, evaluate_health, code_ok,
}
use shared_deposit_monad.Diagnostics.Readiness.{network_ready_iff}
use shared_deposit_monad.Readings.{Public, Got, got, thrown, read_public, then_read}

then_read-keeps {ℓ} :
    {A : Type ℓ} (P : ProviderReadings → Type 0) (g : Got A) (r : ProviderReadings)
    (next : A → ProviderReadings → ProviderReadings)
    → ((m : Text) → P (record r { error = some m }))
    → ((a : A) → P (next a r))
    → P (then_read g r next)
unfolding then_read
then_read-keeps P (thrown m) r next h k = h (first_line m)
then_read-keeps P (got a) r next h k = k a

then_read-thrown {ℓ} :
    {A : Type ℓ} (P : ProviderReadings → Type 0) (g : Got A) (m : Text) (r : ProviderReadings)
    (next : A → ProviderReadings → ProviderReadings)
    → g ≡ thrown m
    → ((t : Text) → P (record r { error = some t }))
    → P (then_read g r next)
unfolding then_read
then_read-thrown P (thrown m) n r next e h = h (first_line m)
then_read-thrown P (got a) n r next e h = absurd (cc)

no_code : (o : Option Text) → o ≡ none → code_ok o ≡ true → ⊥
unfolding code_ok
no_code none e q = cc
no_code (some c) e q = cc

module _ (decimal : ℕ → Text) (hex_to_number : Text → ℕ) (code_hash : Text → Text) where
  abbrev NoCode : ProviderReadings → Type 0
  NoCode r = r.contract_code ≡ none

  read_public-NoCode :
      (p : Public) (m : Text) → p.latest_nonce ≡ thrown m → NoCode (read_public code_hash p)
  unfolding read_public
  read_public-NoCode p m h =
      then_read-keeps NoCode p.chain_id _ _ (λ t. refl)
        (λ chain.
          then_read-keeps NoCode p.block_number _ _ (λ t. refl)
            (λ block.
              then_read-keeps NoCode p.balance _ _ (λ t. refl)
                (λ balance. then_read-thrown NoCode p.latest_nonce m _ _ h (λ t. refl))))

  -- A failed nonce read of the application's client blocks every write, though the nonce itself is no
  -- requirement: the contract's code is not read any more.
  pub latest_nonce_blocks :
      (wallet : ProviderReadings) (p : Public) (opts : EvaluateOptions) (m : Text)
      → p.latest_nonce ≡ thrown m
      → (evaluate_health decimal wallet (read_public code_hash p) opts).network_ready ≡ false
  latest_nonce_blocks wallet p opts m h =
      elim (Bool-cases
        (evaluate_health decimal wallet (read_public code_hash p) opts).network_ready) [
          | inl k ↦ absurd (
              no_code (read_public code_hash p).contract_code (read_public-NoCode p m h)
                ((network_ready_iff decimal wallet (read_public code_hash p) opts).0 k).code)
          | inr k ↦ k
        ]
