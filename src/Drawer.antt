-- ===== src/Drawer.antt =====
-- The transaction drawer and the wallet picker: frontend/src/components/TransactionDrawer.tsx and
-- frontend/src/components/WalletPicker.tsx.
pub mod Dismissal
pub mod Picker
use shared_deposit_monad.Base.{
  ℕ, zero, suc, Bool, true, false, not, ◌&&◌, ◌||◌, Option, none, some, List, [], ◌∷◌, ◌++◌, Text,
  txt, text_eq, lower, truthy, if◌then◌else◌, filter, take,
}
use shared_deposit_monad.Tx.{is_terminal}
use shared_deposit_monad.Tx.Entry.{TxStatus, TxEntry, TxOp}

-- `RESOLVING_STATUSES.includes(status)`
unfoldable pub is_resolving : TxStatus → Bool
is_resolving TxStatus.broadcast_requested = true
is_resolving TxStatus.broadcast = true
is_resolving TxStatus.pending_onchain = true
is_resolving TxStatus.application_rpc_delayed = true
is_resolving TxStatus.wallet_rpc_diverged = true
is_resolving TxStatus.refreshing_contract_state = true
is_resolving _ = false

unfoldable pub is_timeout : TxStatus → Bool
is_timeout TxStatus.timeout_or_rpc_error = true
is_timeout _ = false

unfoldable pub is_hidden : TxEntry → Bool
is_hidden e = elim e.hidden [ none ↦ false | some b ↦ b ]

-- The entries that the drawer shows.
unfoldable pub shown : List TxEntry → List TxEntry
unfolding is_hidden
shown entries = take 4 (filter (λ e. not (is_hidden e)) entries)

-- Is there the button 'Check again', which re-queries the hash.
unfoldable pub can_check_again : TxEntry → Bool
unfolding is_resolving is_timeout
can_check_again e = truthy e.hash && (is_timeout e.status || is_resolving e.status)

-- The button 'Dismiss': a terminal entry is removed, any other only hidden.
unfoldable pub dismiss : TxEntry → TxOp
unfolding is_terminal
dismiss e = if is_terminal e.status then TxOp.remove e.id else TxOp.hide e.id

-- A connector of the wallet picker.
pub record Connector : Type 0 where
  pub id : Text
  pub name : Text

-- `byName.set(key, connector)` where the key is there already: its place is kept.
unfoldable pub replace : Text → Connector → List Connector → List Connector
unfolding text_eq
replace key c [] = []
replace key c (d ∷ ds) =
    let rest = replace key c ds in if text_eq (lower d.name) key then c ∷ ds else d ∷ rest

unfoldable pub lookup : Text → List Connector → Option Connector
unfolding text_eq
lookup key [] = none
lookup key (d ∷ ds) =
    let rest = lookup key ds in if text_eq (lower d.name) key then some d else rest

-- One step of the loop over the connectors.
unfoldable pub add_connector : Connector → List Connector → List Connector
unfolding replace lookup txt
add_connector c by_name = elim (lookup (lower c.name) by_name) [
  | none ↦ by_name ++ c ∷ []
  | some existing ↦
      if text_eq existing.id (txt "injected") then replace (lower c.name) c by_name else by_name
]

unfoldable pub add_connectors : List Connector → List Connector → List Connector
unfolding add_connector
add_connectors [] by_name = by_name
add_connectors (c ∷ cs) by_name = add_connectors cs (add_connector c by_name)

unfoldable pub dedupe_connectors : List Connector → List Connector
unfolding add_connectors
dedupe_connectors connectors = add_connectors connectors []
