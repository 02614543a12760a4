-- ===== src/Diagnostics/Health.antt =====
-- `evaluateHealth` of frontend/src/lib/diagnostics.ts. Numbers are naturals, and a balance in wei is
-- the number that its decimal text stands for.
use shared_deposit_monad.Base.{
  ℕ, ◌-◌, Bool, false, not, ◌&&◌, ◌||◌, Option, none, some, List, [], ◌∷◌, ◌++◌, Text, txt, text_eq,
  opt_eq, norm, truthy, is_some, if◌then◌else◌, ltb, ◌==◌, length,
}

-- `MONAD_CHAIN_ID`, and `monadTestnet.id` of frontend/src/lib/chain.ts
abbrev pub monad_chain_id : ℕ
monad_chain_id = 10143

pub record ProviderReadings : Type 0 where
  pub chain_id : Option ℕ
  pub latest_block : Option ℕ
  pub balance_wei : Option ℕ
  pub latest_nonce : Option ℕ
  pub pending_nonce : Option ℕ
  pub contract_code : Option Text
  pub contract_code_hash : Option Text
  pub safe_read_ok : Bool
  pub error : Option Text

pub record EvaluateOptions : Type 0 where
  pub connected_wallet : Option Text
  pub auth_wallet : Option Text
  pub wallet_client_account : Option Text
  pub required_recipient : Option Text
  pub min_balance_wei : Option ℕ

pub record NetworkDiagnostics : Type 0 where
  pub wallet : ProviderReadings
  pub app : ProviderReadings
  pub connected_wallet : Option Text
  pub auth_wallet : Option Text
  pub wallet_client_account : Option Text
  pub block_difference : Option ℕ
  pub contract_code_matches : Bool
  pub safe_read_matches : Bool
  pub wallet_matches_session : Bool
  pub wallet_client_matches : Bool
  pub identity_match : Bool
  pub identity_reasons : List Text
  pub connected_is_recipient : Option Bool
  pub network_ready : Bool
  pub network_blocking_reasons : List Text
  -- `overallHealth === 'healthy'`
  pub is_healthy : Bool
  pub failures : List Text

-- `code && code !== '0x'`
unfoldable pub code_ok : Option Text → Bool
unfolding text_eq txt
code_ok none = false
code_ok (some code) = truthy (some code) && not (text_eq code (txt "0x"))

-- `a === b` for numbers that may be null
unfoldable pub same_number : Option ℕ → ℕ → Bool
same_number none n = false
same_number (some m) n = m == n

-- `if (wrong) reasons.push(reason)`
abbrev pub when : Bool → Text → List Text
when wrong reason = if wrong then reason ∷ [] else []

-- The balance is checked only where both numbers are there.
unfoldable pub balance_low : Option ℕ → Option ℕ → Bool
balance_low none balance = false
balance_low (some least) none = false
balance_low (some least) (some balance) = ltb balance least

unfoldable pub wrong_chain_reason : (decimal : ℕ → Text) → Text → Option ℕ → Text
wrong_chain_reason decimal provider chain =
    provider
    ++ (txt " chain ID is "
        ++ ((elim chain [ none ↦ txt "unknown" | some n ↦ decimal n ]) ++ txt ", expected 10143"))

-- The printing of a number in a message is a parameter.
module _ (decimal : ℕ → Text) where
  unfoldable pub network_reasons : ProviderReadings → ProviderReadings → EvaluateOptions → List Text
  network_reasons wallet app opts =
      when (not (same_number wallet.chain_id monad_chain_id))
        (wrong_chain_reason decimal (txt "Wallet") wallet.chain_id)
      ++ (when (not (same_number app.chain_id monad_chain_id))
            (wrong_chain_reason decimal (txt "Application RPC") app.chain_id)
          ++ (when (not (is_some app.latest_block))
                (txt "Application RPC did not return a latest block")
              ++ (when (not (code_ok app.contract_code))
                    (txt "Deployed contract code is not visible through the application RPC")
                  ++ when (balance_low opts.min_balance_wei app.balance_wei)
                      (txt "Wallet balance (via application RPC) is below the estimated gas"))))

-- Both wallets are there, and they are one.
unfoldable pub session_matches : Option Text → Option Text → Bool
session_matches connected auth = truthy connected && (truthy auth && opt_eq connected auth)

-- An unknown account is no mismatch.
unfoldable pub client_matches : Option Text → Option Text → Bool
client_matches client connected =
    not (is_some client) || (not (is_some connected) || opt_eq client connected)

unfoldable pub identity_reasons_of : Bool → Bool → List Text
identity_reasons_of session client =
    when (not session) (txt "Connected wallet does not match the signed-in session")
    ++ when (not client) (txt "Wallet client account differs from the connected wallet")

unfoldable pub recipient_check : Option Text → Option Text → Option Bool
recipient_check connected required =
    if truthy required then some (is_some connected && opt_eq connected (norm required)) else none

-- `Math.abs(a - b)`
unfoldable pub difference : Option ℕ → Option ℕ → Option ℕ
difference none b = none
difference (some a) none = none
difference (some a) (some b) = some (if ltb a b then b - a else a - b)

module _ (decimal : ℕ → Text) where
  unfoldable pub evaluate_health :
      ProviderReadings → ProviderReadings → EvaluateOptions → NetworkDiagnostics
  evaluate_health wallet app opts =
      let reasons = network_reasons decimal wallet app opts in
      let ready = length reasons == 0 in
      let connected = norm opts.connected_wallet in
      let session = session_matches connected (norm opts.auth_wallet) in
      let client = client_matches (norm opts.wallet_client_account) connected in
      let identity = identity_reasons_of session client in
      record {
        wallet = wallet;
        app = app;
        connected_wallet = opts.connected_wallet;
        auth_wallet = opts.auth_wallet;
        wallet_client_account = opts.wallet_client_account;
        block_difference = difference wallet.latest_block app.latest_block;
        contract_code_matches =
            code_ok wallet.contract_code
            && (code_ok app.contract_code
                && opt_eq wallet.contract_code_hash app.contract_code_hash);
        safe_read_matches = wallet.safe_read_ok && app.safe_read_ok;
        wallet_matches_session = session;
        wallet_client_matches = client;
        identity_match = session && client;
        identity_reasons = identity;
        connected_is_recipient = recipient_check connected opts.required_recipient;
        network_ready = ready;
        network_blocking_reasons = reasons;
        is_healthy = ready;
        failures = reasons ++ identity;
      }
