-- ===== src/Tx/Locks.antt =====
-- The single-flight lock of frontend/src/app/TxContext.tsx under the operations of the context.
use shared_deposit_monad.Base.{
  ℕ, suc, ◌<◌, ◌≡◌, refl, ◌⊎◌, inl, inr, Bool, true, false, ◌&&◌, ◌||◌, some, List, [], ◌∷◌, ◌++◌,
  arith, Text, text_eq, text_eq_iff, opt_eq_refl, All, Bool-cases, length, take_all, take-append,
  any,
}
use shared_deposit_monad.Tx.{
  is_terminal, track, update, remove, hide, clear, holds, is_action_locked, max_entries,
}
use shared_deposit_monad.Tx.Entry.{TxEntry, Draft, Patch, TxOp, named, apply_patch}

-- Hiding an entry changes no lock.
pub is_action_locked-hide :
    (key id : Text) (es : List TxEntry)
    → is_action_locked key (hide id es) ≡ is_action_locked key es
unfolding is_action_locked hide holds
is_action_locked-hide key id [] = refl
is_action_locked-hide key id (e ∷ es) = ground (arith, is_action_locked-hide key id es)

-- Clearing keeps every lock, and what it leaves is not terminal.
pub clear_lem :
    (key : Text) (es : List TxEntry)
    → (is_action_locked key (clear es) ≡ is_action_locked key es)
      × All (λ e. is_terminal e.status ≡ false) (clear es)
unfolding is_action_locked clear holds
clear_lem key [] = (refl, tt)
clear_lem key (e ∷ es) =
    let (kept, live) = clear_lem key es in
    elim (Bool-cases (is_terminal e.status)) [
      | inl h ↦ (ground arith, rw h live)
      | inr h ↦ (ground arith, rw h (h, live))
    ]

-- A tracked entry that is not terminal holds the lock of its key at once.
pub is_action_locked-track :
    (id key : Text) (d : Draft) (es : List TxEntry)
    → d.action_key ≡ some key
    → is_terminal d.status ≡ false
    → is_action_locked key (track id d es) ≡ true
unfolding is_action_locked track holds named
is_action_locked-track id key d es k live = rw (k, live, opt_eq_refl (some key))

-- Below the bound of twelve entries tracking releases no lock.
pub is_action_locked-track_room :
    (id key : Text) (d : Draft) (es : List TxEntry)
    → length es < max_entries
    → is_action_locked key (track id d es) ≡ (holds key (named id d) || is_action_locked key es)
unfolding is_action_locked track
is_action_locked-track_room id key d es room = rw (take_all 11 es (omega arith))

-- At the bound the oldest entry falls out: its lock is gone, though it is not terminal.
pub is_action_locked-track_full :
    (id key : Text) (d : Draft) (es : List TxEntry) (oldest : TxEntry)
    → suc (length es) ≡ max_entries
    → holds key (named id d) ≡ false
    → is_action_locked key es ≡ false
    → holds key oldest ≡ true
    → (is_action_locked key (es ++ oldest ∷ []) ≡ true)
      × (is_action_locked key (track id d (es ++ oldest ∷ [])) ≡ false)
unfolding is_action_locked track
is_action_locked-track_full id key d es oldest full fresh rest held =
    (held_last es, rw (take-append 11 es (oldest ∷ []) (omega arith), fresh) rest)
  where
    held_last : (xs : List TxEntry) → any (holds key) (xs ++ oldest ∷ []) ≡ true
    held_last [] = rw held
    held_last (x ∷ xs) = ground (arith, held_last xs)

-- An update to a terminal status has the effect of a removal on every lock.
pub is_action_locked-update_terminal :
    (key id : Text) (p : Patch) (es : List TxEntry)
    → is_terminal p.status ≡ true
    → is_action_locked key (update id p es) ≡ is_action_locked key (remove id es)
unfolding is_action_locked update remove holds apply_patch
is_action_locked-update_terminal key id p [] h = refl
is_action_locked-update_terminal key id p (e ∷ es) h =
    ground (arith, is_action_locked-update_terminal key id p es)

-- The entry with the identifier holds the lock of the key.
abbrev pub holds_as : Text → Text → TxEntry → Bool
holds_as id key e = text_eq e.id id && holds key e

abbrev pub IsHeld : Text → Text → List TxEntry → Type 0
IsHeld id key es = any (holds_as id key) es ≡ true

-- The operation neither removes the entry nor makes it terminal.
abbrev pub Spares : Text → TxOp → Type 0
Spares id (TxOp.update j p) = (text_eq id j ≡ false) ⊎ (is_terminal p.status ≡ false)
Spares id (TxOp.remove j) = text_eq id j ≡ false
Spares id _ = Unit

-- How many entries the operations add.
abbrev pub tracks : List TxOp → ℕ
tracks [] = 0
tracks (TxOp.track id d ∷ ops) = suc (tracks ops)
tracks (_ ∷ ops) = tracks ops

module _ (id key : Text) where
  pub IsHeld-locked : (es : List TxEntry) → IsHeld id key es → is_action_locked key es ≡ true
  unfolding is_action_locked
  IsHeld-locked [] h = h
  IsHeld-locked (e ∷ es) h = ground (arith, IsHeld-locked es)

  pub hide-IsHeld : (j : Text) (es : List TxEntry) → IsHeld id key es → IsHeld id key (hide j es)
  unfolding hide holds
  hide-IsHeld j [] h = h
  hide-IsHeld j (e ∷ es) h = ground (arith, hide-IsHeld j es)

  pub clear-IsHeld : (es : List TxEntry) → IsHeld id key es → IsHeld id key (clear es)
  unfolding clear holds
  clear-IsHeld [] h = h
  clear-IsHeld (e ∷ es) h = ground (arith, clear-IsHeld es)

  pub remove-IsHeld :
      (j : Text) (es : List TxEntry)
      → text_eq id j ≡ false
      → IsHeld id key es
      → IsHeld id key (remove j es)
  unfolding remove holds
  remove-IsHeld j [] ne h = h
  remove-IsHeld j (e ∷ es) ne h =
      ground (arith, remove-IsHeld j es, text_eq_iff e.id id, text_eq_iff e.id j, text_eq_iff id j)

  pub update-IsHeld :
      (j : Text) (p : Patch) (es : List TxEntry)
      → Spares id (TxOp.update j p)
      → IsHeld id key es
      → IsHeld id key (update j p es)
  unfolding update holds apply_patch
  update-IsHeld j p [] s h = h
  update-IsHeld j p (e ∷ es) s h =
      ground
        (arith, update-IsHeld j p es, text_eq_iff e.id id, text_eq_iff e.id j, text_eq_iff id j)
