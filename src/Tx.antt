-- ===== src/Tx.antt =====
-- The transaction list of the browser client: frontend/src/app/TxContext.tsx. The types are in
-- `Tx.Entry`, the operations here, and the proofs in the other children.
pub mod Entry
pub mod Locks
pub mod Sessions
use shared_deposit_monad.Base.{
  ℕ, Bool, true, false, not, ◌&&◌, Option, none, some, List, [], ◌∷◌, map, Text, text_eq, opt_eq,
  truthy, if◌then◌else◌, take, any, filter,
}
use Entry.{TxStatus, TxEntry, Draft, Patch, TxOp, named, apply_patch}

-- `TERMINAL_STATUSES.includes(status)`
unfoldable pub is_terminal : TxStatus → Bool
is_terminal TxStatus.user_rejected = true
is_terminal TxStatus.mined_reverted = true
is_terminal TxStatus.verified = true
is_terminal TxStatus.replaced = true
is_terminal TxStatus.not_found = true
is_terminal TxStatus.broadcast_failed_not_propagated = true
is_terminal _ = false

-- The bound on the list, `.slice(0, 12)`.
abbrev pub max_entries : ℕ
max_entries = 12

-- The new identifier of `crypto.randomUUID()` is an argument.
unfoldable pub track : Text → Draft → List TxEntry → List TxEntry
track id d current = take max_entries (named id d ∷ current)

unfoldable pub update : Text → Patch → List TxEntry → List TxEntry
update id p [] = []
update id p (e ∷ es) = (if text_eq e.id id then apply_patch p e else e) ∷ update id p es

unfoldable pub remove : Text → List TxEntry → List TxEntry
remove id = filter (λ e. not (text_eq e.id id))

unfoldable pub hide : Text → List TxEntry → List TxEntry
hide id [] = []
hide id (e ∷ es) = (if text_eq e.id id then record e { hidden = some true } else e) ∷ hide id es

unfoldable pub clear : List TxEntry → List TxEntry
clear = filter (λ e. not (is_terminal e.status))

-- The entry holds the single-flight lock of the key.
unfoldable pub holds : Text → TxEntry → Bool
holds key e = opt_eq e.action_key (some key) && not (is_terminal e.status)

unfoldable pub is_action_locked : Text → List TxEntry → Bool
is_action_locked key = any (holds key)

-- A non-terminal entry with a hash is worth restoring.
unfoldable pub persistable : TxEntry → Bool
persistable e = truthy e.hash && not (is_terminal e.status)

-- What `sessionStorage` may hold under the key of the list: no access, nothing, a value that is
-- no list of entries, or the entries that `persist` has written.
pub data Storage : Type 0 where
  unavailable absent garbled : Storage
  stored : List TxEntry → Storage

-- The public facts of an entry: neither `error` nor `hidden` is written.
unfoldable pub public_facts : TxEntry → TxEntry
public_facts e = record e { error = none; hidden = none }

unfoldable pub persist : List TxEntry → Storage → Storage
persist entries Storage.unavailable = Storage.unavailable
persist entries _ = Storage.stored (map public_facts (filter persistable entries))

unfoldable pub load_persisted : Storage → List TxEntry
load_persisted (Storage.stored es) = filter persistable es
load_persisted _ = []

unfoldable pub run_op : TxOp → List TxEntry → List TxEntry
run_op (TxOp.track id d) = track id d
run_op (TxOp.update id p) = update id p
run_op (TxOp.remove id) = remove id
run_op (TxOp.hide id) = hide id
run_op TxOp.clear = clear

-- React applies the queued state updates in the order of the calls.
unfoldable pub run : List TxOp → List TxEntry → List TxEntry
run [] es = es
run (op ∷ ops) es = run ops (run_op op es)
