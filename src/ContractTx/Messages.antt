-- ===== src/ContractTx/Messages.antt =====
-- The error texts of frontend/src/hooks/useContractTx.ts, and its reading of errors.
use shared_deposit_monad.Base.{
  ℕ, zero, suc, ◌+◌, ◌/◌, ◌%◌, Bool, Option, none, some, List, [], ◌∷◌, ◌++◌, Text, txt, mentions,
  first_line, if◌then◌else◌, ltb,
}

-- Decimal digits, on fuel: `String(n)`.
digits_from : ℕ → ℕ → Text → Text
digits_from zero n acc = acc
digits_from (suc fuel) n acc =
    let digit = (b'0' + n % 10) ∷ acc in
    let rest = digits_from fuel (n / 10) digit in if ltb n 10 then digit else rest

unfoldable pub decimal : ℕ → Text
unfolding digits_from
decimal n = digits_from (suc n) n []

pub reverted_text : Text
reverted_text = txt "transaction reverted onchain"

pub blocked_text : ℕ → ℕ → Text
blocked_text nonce latest =
    txt "waiting behind an earlier wallet transaction (this nonce "
    ++ (decimal nonce
        ++ (txt ", wallet at "
            ++ (decimal latest
                ++ txt "). Resolve or cancel the earlier transaction in your wallet.")))

pub not_found_text : Text
not_found_text =
    txt
      "the wallet returned a hash but the network never received the transaction. This usually means the wallet is on a broken Monad RPC - set it to https://testnet-rpc.monad.xyz, then try again."

pub pending_text : Text
pending_text = txt "still pending - retry status to re-check, or view on the explorer."

pub unobserved_text : Text
unobserved_text = txt "mined, but the expected contract state change was not observed"

pub not_propagated_text : Text
not_propagated_text =
    txt
      "your wallet returned a transaction hash, but the transaction was not broadcast to Monad Testnet (neither the official RPC nor the wallet provider can see it). Your wallet's saved Monad Testnet RPC is broken - recheck the network panel and switch to Monad Testnet, or remove and re-add the network with https://testnet-rpc.monad.xyz."

pub diverged_text : Text
diverged_text =
    txt
      "the wallet broadcast to a different node than the official Monad RPC, which cannot see the transaction. Retry status to re-check, or fix the wallet network."

pub would_revert_text : Text → Text
would_revert_text revert = txt "would revert: " ++ (revert ++ txt " - not submitted")

no_gas_text : Text
no_gas_text =
    txt
      "this wallet has no MON to pay gas. Fund it with a little Monad Testnet MON and try again. (Deposit recipients do not deposit funds, but every wallet still needs a little MON for gas.)"

wrong_network_text : Text
wrong_network_text =
    txt "the wallet is not on Monad Testnet (chain 10143). Switch networks and try again."

no_funds_words : List Text
no_funds_words = txt "insufficient funds" ∷ []

wrong_chain_words : List Text
wrong_chain_words = txt "does not match" ∷ txt "chain id" ∷ txt "wrong chain" ∷ []

rejection_words : List Text
rejection_words = txt "reject" ∷ txt "denied" ∷ []

unfoldable pub friendly_write_error : Text → Text
unfolding no_funds_words wrong_chain_words no_gas_text wrong_network_text
friendly_write_error message =
    if mentions no_funds_words message
    then no_gas_text
    else if mentions wrong_chain_words message
    then wrong_network_text
    else first_line message

-- `/reject|denied/i.test(message)`
unfoldable pub is_rejection : Text → Bool
unfolding rejection_words mentions txt
is_rejection message = mentions rejection_words message

-- What `decodeRevert` reads of an error: it is no `BaseError`, or it is one with the revert that
-- `walk` finds in it.
pub record Revert : Type 0 where
  pub error_name : Option Text
  pub reason : Option Text
  pub short_message : Text

pub data WriteError : Type 0 where
  other : WriteError
  base : (revert : Option Revert) → (message short_message : Text) → WriteError

unfoldable pub revert_name : Revert → Text
revert_name r = elim r.error_name [
  | some name ↦ name
  | none ↦ elim r.reason [ some reason ↦ reason | none ↦ r.short_message ]
]

unfoldable pub decode_revert : WriteError → Option Text
unfolding revert_name no_funds_words
decode_revert other = none
decode_revert (base (some r) message short_message) = some (revert_name r)
decode_revert (base none message short_message) =
    if mentions no_funds_words message then none else some short_message
