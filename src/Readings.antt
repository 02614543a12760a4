-- ===== src/Readings.antt =====
-- The readings of the two providers: frontend/src/hooks/useWalletNetworkDiagnostics.ts. What a request
-- answers is an argument; `none` is a request that throws, or an answer of another type. The reading of
-- hexadecimal numbers and the hash of a code are parameters.
pub mod Gate
use shared_deposit_monad.Base.{
  ℕ, Bool, true, false, not, ◌&&◌, ◌||◌, Option, none, some, List, [], ◌∷◌, Text, txt, text_eq,
  truthy, or_else, if◌then◌else◌, first_line,
}
use shared_deposit_monad.Diagnostics.Health.{
  ProviderReadings, EvaluateOptions, NetworkDiagnostics, evaluate_health,
}

-- The answers of the wallet's provider, each a hexadecimal text.
pub record Injected : Type 0 where
  pub chain_id : Option Text
  pub block_number : Option Text
  pub balance : Option Text
  pub latest_nonce : Option Text
  pub pending_nonce : Option Text
  pub code : Option Text
  pub call : Option Text

abbrev pub no_readings : ProviderReadings
no_readings = record {
  chain_id = none;
  latest_block = none;
  balance_wei = none;
  latest_nonce = none;
  pending_nonce = none;
  contract_code = none;
  contract_code_hash = none;
  safe_read_ok = false;
  error = none;
}

-- `result !== '0x'` for a result that is there
unfoldable pub is_data : Option Text → Bool
unfolding text_eq txt
is_data none = false
is_data (some result) = not (text_eq result (txt "0x"))

module _ (hex_to_number : Text → ℕ) (code_hash : Text → Text) where
  unfoldable pub hex_or_null : Option Text → Option ℕ
  hex_or_null none = none
  hex_or_null (some hex) = some (hex_to_number hex)

  unfoldable pub hash_or_null : Option Text → Option Text
  hash_or_null none = none
  hash_or_null (some code) = some (code_hash code)

  -- Each request stands for itself: one that throws leaves its own reading empty and no other.
  unfoldable pub read_injected : Injected → ProviderReadings
  unfolding hex_or_null hash_or_null is_data
  read_injected w = record {
    chain_id = hex_or_null w.chain_id;
    latest_block = hex_or_null w.block_number;
    balance_wei = hex_or_null w.balance;
    latest_nonce = hex_or_null w.latest_nonce;
    pending_nonce = hex_or_null w.pending_nonce;
    contract_code = w.code;
    contract_code_hash = hash_or_null w.code;
    safe_read_ok = is_data w.call;
    error = none;
  }

-- An answer of the application's client.
pub data Got {ℓ} (A : Type ℓ) : Type ℓ where
  got : A → Got A
  thrown : (message : Text) → Got A

pub record Public : Type 0 where
  -- `client.chain?.id ?? (await client.getChainId())`
  pub chain_id : Got ℕ
  pub block_number : Got ℕ
  pub balance : Got ℕ
  pub latest_nonce : Got ℕ
  pub pending_nonce : Got ℕ
  -- No code is `undefined`.
  pub code : Got (Option Text)
  pub call : Got (Option Text)

-- One awaited request of the `try`: where it throws, the error ends the reading.
unfoldable pub then_read {ℓ} :
    {A : Type ℓ}
    → Got A
    → ProviderReadings
    → (A → ProviderReadings → ProviderReadings)
    → ProviderReadings
unfolding first_line
then_read (thrown m) r next = record r { error = some (first_line m) }
then_read (got a) r next = next a r

module _ (code_hash : Text → Text) where
  -- The requests follow one another.
  unfoldable pub read_public : Public → ProviderReadings
  unfolding then_read is_data txt
  read_public p = then_read p.chain_id no_readings (λ chain r1.
      then_read p.block_number (record r1 { chain_id = some chain })
        (λ block r2.
          then_read p.balance (record r2 { latest_block = some block })
            (λ balance r3.
              then_read p.latest_nonce (record r3 { balance_wei = some balance })
                (λ latest r4.
                  then_read p.pending_nonce (record r4 { latest_nonce = some latest })
                    (λ pending r5.
                      then_read p.code (record r5 { pending_nonce = some pending })
                        (λ code r6.
                          then_read p.call
                            (record r6 {
                              contract_code = some (or_else code (txt "0x"));
                              contract_code_hash = some (code_hash (or_else code (txt "0x")));
                            })
                            (λ result r7. record r7 {
                              safe_read_ok = truthy result && is_data result;
                            })))))))

-- Without a provider there are no readings of the wallet.
abbrev pub no_provider : ProviderReadings
no_provider = record (no_readings) { error = some (txt "no injected wallet provider") }

-- `run`: the new diagnostics, none without an address and a contract.
module _ (decimal : ℕ → Text) (hex_to_number : Text → ℕ) (code_hash : Text → Text) where
  unfoldable pub run_diagnostics :
      (has_contract : Bool) → Option Injected → Public → EvaluateOptions → Option NetworkDiagnostics
  unfolding read_injected read_public evaluate_health
  run_diagnostics has_contract wallet app opts =
      if not (truthy opts.connected_wallet) || not has_contract
      then none
      else some (
          evaluate_health decimal
            (elim wallet [ none ↦ no_provider | some w ↦ read_injected hex_to_number code_hash w ])
            (read_public code_hash app) opts)
