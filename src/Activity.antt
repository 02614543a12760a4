-- ===== src/Activity.antt =====
-- The stored transactions as a timeline: frontend/src/lib/activity.ts. `localeCompare` is a parameter:
-- does the first text come after the second. `sort` is stable.
pub mod Order
pub mod Times
use shared_deposit_monad.Base.{
  ℕ, zero, suc, Bool, true, false, not, ◌&&◌, ◌||◌, Option, none, some, List, [], ◌∷◌, Text, txt,
  text_eq, or_else, if◌then◌else◌, ltb,
}
use shared_deposit_monad.Stored.{DecodedEvent, StoredTransaction}

pub record ActivityRow : Type 0 where
  pub title : Text
  pub wallet : Text
  pub amount_wei : Option Text
  pub tx_hash : Text
  pub block_number : Option ℕ
  pub timestamp : Text
  pub receipt_status : Option ℕ
  pub status : Text
  pub verified : Bool
  pub explorer_tx_url : Text

abbrev pub function_titles : List (Text × Text)
function_titles =
    (txt "createAgreement", txt "Agreement created")
    ∷ (txt "acceptAsTenant", txt "Tenant accepted the terms")
    ∷ (txt "acceptAsRecipient", txt "Recipient accepted the terms")
    ∷ (txt "deposit", txt "Contribution deposited")
    ∷ (txt "withdrawFundingBeforeActivation", txt "Pre-activation contribution withdrawn")
    ∷ (txt "cancelExpiredFunding", txt "Expired funding cancelled")
    ∷ (txt "withdrawCancelledFunding", txt "Cancelled-funding refund withdrawn")
    ∷ (txt "submitClaim", txt "Claim submitted")
    ∷ (txt "voteClaim", txt "Vote cast on a claim")
    ∷ (txt "withdrawPendingClaim", txt "Claim withdrawn")
    ∷ (txt "finalizePendingClaim", txt "Pending claim finalized")
    ∷ (txt "finalizeAgreement", txt "Agreement finalized")
    ∷ (txt "withdrawTenantRefund", txt "Tenant refund withdrawn")
    ∷ (txt "withdrawRecipientPayout", txt "Recipient payout withdrawn")
    ∷ []

-- `table[name] ?? name`
unfoldable pub title_in : List (Text × Text) → Text → Text
unfolding text_eq
title_in [] name = name
title_in ((key, title) ∷ table) name =
    let rest = title_in table name in if text_eq key name then title else rest

-- `tx.decoded_events ?? []`
abbrev pub events_of : StoredTransaction → List DecodedEvent
events_of tx = or_else tx.decoded_events []

unfoldable pub has_event : Text → List DecodedEvent → Bool
unfolding text_eq
has_event name [] = false
has_event name (e ∷ es) = text_eq e.event_name name || has_event name es

unfoldable pub activity_title : StoredTransaction → Text
unfolding title_in has_event txt
activity_title tx =
    let activated = has_event (txt "AgreementActivated") (events_of tx) in
    if text_eq tx.function_name (txt "acceptAsRecipient") && activated
    then txt "Recipient accepted - deposit fully funded, agreement activated"
    else if text_eq tx.function_name (txt "deposit") && activated
    then txt "Contribution deposited - deposit fully funded, agreement activated"
    else title_in function_titles tx.function_name

-- `event.payload['amount'] ?? event.payload['totalRequired']`, where it is a string other than '0'.
unfoldable pub event_amount : DecodedEvent → Option Text
unfolding text_eq txt
event_amount e =
    let name = if e.has_value (txt "amount") then txt "amount" else txt "totalRequired" in
    elim (e.payload name) [
      | none ↦ none
      | some amount ↦ if text_eq amount (txt "0") then none else some amount
    ]

unfoldable pub first_amount : List DecodedEvent → Option Text
unfolding event_amount
first_amount [] = none
first_amount (e ∷ es) =
    let rest = first_amount es in elim (event_amount e) [ none ↦ rest | some a ↦ some a ]

unfoldable pub activity_amount_wei : StoredTransaction → Option Text
unfolding first_amount text_eq txt
activity_amount_wei tx =
    if not (text_eq tx.value_wei (txt "0")) then some tx.value_wei else first_amount (events_of tx)

unfoldable pub to_activity_row : StoredTransaction → ActivityRow
unfolding activity_title activity_amount_wei
to_activity_row tx = record {
  title = activity_title tx;
  wallet = tx.wallet_address;
  amount_wei = activity_amount_wei tx;
  tx_hash = tx.tx_hash;
  block_number = tx.block_number;
  timestamp = or_else tx.mined_at tx.submitted_at;
  receipt_status = tx.receipt_status;
  status = tx.status;
  verified = text_eq tx.status (txt "VERIFIED");
  explorer_tx_url = tx.explorer_tx_url;
}

unfoldable pub to_rows : List StoredTransaction → List ActivityRow
unfolding to_activity_row
to_rows [] = []
to_rows (tx ∷ txs) = to_activity_row tx ∷ to_rows txs

module _ (comes_after : Text → Text → Bool) where
  -- Does the comparison put the first row after the second.
  unfoldable pub is_after : ActivityRow → ActivityRow → Bool
  is_after a b = elim a.block_number [
    | some m ↦ elim b.block_number [ some n ↦ ltb n m | none ↦ false ]
    | none ↦ elim b.block_number [ some n ↦ true | none ↦ comes_after a.timestamp b.timestamp ]
  ]

  unfoldable pub insert : ActivityRow → List ActivityRow → List ActivityRow
  unfolding is_after
  insert x [] = x ∷ []
  insert x (y ∷ ys) = let rest = insert x ys in if is_after x y then y ∷ rest else x ∷ y ∷ ys

  unfoldable pub sort : List ActivityRow → List ActivityRow
  unfolding insert
  sort [] = []
  sort (x ∷ xs) = insert x (sort xs)

  unfoldable pub to_timeline : List StoredTransaction → List ActivityRow
  unfolding to_rows sort
  to_timeline transactions = sort (to_rows transactions)
