-- ===== src/Tx/Sessions.antt =====
-- Runs of the operations of frontend/src/app/TxContext.tsx, and the reload of the page.
use shared_deposit_monad.Base.{
  suc, ◌+◌, ◌≤◌, ◌≡◌, refl, ap, Bool, true, List, [], ◌∷◌, arith, Text, All, length, length-take_le,
  length-take_le_length, take_all, filter,
}
use shared_deposit_monad.Tx.{
  track, update, remove, hide, clear, is_action_locked, run_op, run, max_entries,
}
use shared_deposit_monad.Tx.Entry.{TxEntry, Draft, Patch, TxOp, named}
use shared_deposit_monad.Tx.Locks.{
  IsHeld, Spares, tracks, hide-IsHeld, clear-IsHeld, remove-IsHeld, update-IsHeld, IsHeld-locked,
}

length-filter_le {ℓ} : {A : Type ℓ} (p : A → Bool) (xs : List A) → length (filter p xs) ≤ length xs
length-filter_le p [] = omega arith
length-filter_le p (x ∷ xs) = ground (arith, length-filter_le p xs)

length-update : (id : Text) (p : Patch) (es : List TxEntry) → length (update id p es) ≡ length es
unfolding update
length-update id p [] = refl
length-update id p (e ∷ es) = ap suc (length-update id p es)

length-hide : (id : Text) (es : List TxEntry) → length (hide id es) ≡ length es
unfolding hide
length-hide id [] = refl
length-hide id (e ∷ es) = ap suc (length-hide id es)

-- One operation adds an entry at most, and only by tracking.
length-run_op_le :
    (op : TxOp) (es : List TxEntry) → length (run_op op es) ≤ length es + tracks (op ∷ [])
unfolding run_op track remove clear
length-run_op_le (TxOp.track id d) es = omega (arith, length-take_le_length 12 (named id d ∷ es))
length-run_op_le (TxOp.update id p) es = omega (arith, length-update id p es)
length-run_op_le (TxOp.remove id) es = omega (arith, length-filter_le {0} _ es)
length-run_op_le (TxOp.hide id) es = omega (arith, length-hide id es)
length-run_op_le TxOp.clear es = omega (arith, length-filter_le {0} _ es)

-- No operation takes a list past the bound.
length-run_op_max :
    (op : TxOp) (es : List TxEntry) → length es ≤ max_entries → length (run_op op es) ≤ max_entries
unfolding run_op track remove clear
length-run_op_max (TxOp.track id d) es h = length-take_le 12 (named id d ∷ es)
length-run_op_max (TxOp.update id p) es h = omega (arith, length-update id p es)
length-run_op_max (TxOp.remove id) es h = omega (arith, length-filter_le {0} _ es)
length-run_op_max (TxOp.hide id) es h = omega (arith, length-hide id es)
length-run_op_max TxOp.clear es h = omega (arith, length-filter_le {0} _ es)

length-run_max :
    (ops : List TxOp) (es : List TxEntry)
    → length es ≤ max_entries
    → length (run ops es) ≤ max_entries
unfolding run
length-run_max [] es h = h
length-run_max (op ∷ ops) es h = length-run_max ops (run_op op es) (length-run_op_max op es h)

track-IsHeld :
    (id key j : Text) (d : Draft) (es : List TxEntry)
    → length es + 1 ≤ max_entries
    → IsHeld id key es
    → IsHeld id key (track j d es)
unfolding track
track-IsHeld id key j d es room h = rw (take_all 11 es (omega arith)) (ground arith)

run_op-IsHeld :
    (id key : Text) (op : TxOp) (es : List TxEntry)
    → length es + tracks (op ∷ []) ≤ max_entries
    → Spares id op
    → IsHeld id key es
    → IsHeld id key (run_op op es)
unfolding run_op
run_op-IsHeld id key (TxOp.track j d) es room s h = track-IsHeld id key j d es (omega arith) h
run_op-IsHeld id key (TxOp.update j p) es room s h = update-IsHeld id key j p es s h
run_op-IsHeld id key (TxOp.remove j) es room s h = remove-IsHeld id key j es s h
run_op-IsHeld id key (TxOp.hide j) es room s h = hide-IsHeld id key j es h
run_op-IsHeld id key TxOp.clear es room s h = clear-IsHeld id key es h

tracks-cons : (op : TxOp) (ops : List TxOp) → tracks (op ∷ ops) ≡ tracks (op ∷ []) + tracks ops
tracks-cons (TxOp.track id d) ops = omega arith
tracks-cons (TxOp.update id p) ops = omega arith
tracks-cons (TxOp.remove id) ops = omega arith
tracks-cons (TxOp.hide id) ops = omega arith
tracks-cons TxOp.clear ops = omega arith

run-IsHeld :
    (id key : Text) (ops : List TxOp) (es : List TxEntry)
    → length es + tracks ops ≤ max_entries
    → All (Spares id) ops
    → IsHeld id key es
    → IsHeld id key (run ops es)
unfolding run
run-IsHeld id key [] es room s h = h
run-IsHeld id key (op ∷ ops) es room s h =
    run-IsHeld id key ops (run_op op es) (omega (arith, length-run_op_le op es, tracks-cons op ops))
      s.1 (run_op-IsHeld id key op es (omega (arith, tracks-cons op ops)) s.0 h)

-- An unresolved entry keeps the lock of its key through any run of operations that neither
-- removes it nor makes it terminal, as long as the entries do not outnumber the bound.
pub run_keeps_lock :
    (id key : Text) (ops : List TxOp) (es : List TxEntry)
    → length es + tracks ops ≤ max_entries
    → All (Spares id) ops
    → IsHeld id key es
    → is_action_locked key (run ops es) ≡ true
run_keeps_lock id key ops es room s h =
    IsHeld-locked id key (run ops es) (run-IsHeld id key ops es room s h)

-- From an empty session the list never holds more than twelve entries.
pub length-run_from_empty : (ops : List TxOp) → length (run ops []) ≤ max_entries
length-run_from_empty ops = length-run_max ops [] (omega arith)
