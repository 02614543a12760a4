-- ===== src/Stored/Merge.antt =====
-- What `mergeBackendTransactions` of frontend/src/lib/txPersistence.ts restores.
use shared_deposit_monad.Base.{
  ℕ, ◌≡◌, refl, sym, ◌∙◌, ap, subst, inl, inr, Bool, true, false, not, ◌&&◌, ◌||◌, Option, none,
  some, List, [], ◌∷◌, ◌++◌, Text, text_eq, text_eq_refl, opt_eq, lower, truthy, if◌then◌else◌,
  has_text, All, arith, Bool-cases, any,
}
use shared_deposit_monad.Tx.Entry.{Draft, named}
use shared_deposit_monad.Diagnostics.{monad_chain_id}
use shared_deposit_monad.Stored.{
  StoredTransaction, backend_unresolved, is_known, restored_entry, restore_rows,
  merge_backend_transactions,
}
use shared_deposit_monad.Recovery.{
  is_resumable, is_stale_for_session, should_resume, wallets_differ,
}

-- The hashes of entries, as the merge reads them.
abbrev pub hashes : List Draft → List (Option Text)
hashes [] = []
hashes (d ∷ ds) = d.hash ∷ hashes ds

wallets_differ_refl : (w : Text) → wallets_differ (some w) (some w) ≡ false
unfolding wallets_differ
wallets_differ_refl w = ground (arith, text_eq_refl (lower w))

-- A restored entry of the app's chain is resumed for the wallet that it was restored for.
abbrev pub IsOwn : Text → Draft → Type 0
IsOwn wallet d =
    (id : Text)
    → d.chain_id ≡ monad_chain_id
    → truthy d.hash ≡ true
    → should_resume (named id d) (some wallet) monad_chain_id ≡ true

-- A row that the merge takes: unresolved, recorded by the wallet, and with a hash not tracked yet.
abbrev pub is_wanted : List (Option Text) → Text → StoredTransaction → Bool
is_wanted existing wallet row =
    has_text backend_unresolved row.status
    && (text_eq (lower row.wallet_address) (lower wallet) && not (is_known existing row.tx_hash))

abbrev pub has_hash : Text → List Draft → Bool
has_hash hash ds = any (λ d. opt_eq d.hash (some hash)) ds

module _ (date_parse : Text → Option ℕ) where
  restored_entry-IsOwn :
      (w : Text) (row : StoredTransaction) → IsOwn w (restored_entry date_parse w row)
  unfolding restored_entry named should_resume is_stale_for_session is_resumable
  restored_entry-IsOwn w row id h1 h2 = ground (arith, wallets_differ_refl w)

  restore_rows_step :
      (existing : List (Option Text)) (w : Text) (row : StoredTransaction)
      (rows : List StoredTransaction)
      → restore_rows date_parse existing w (row ∷ rows) ≡ (
          if is_wanted existing w row
          then restored_entry date_parse w row ∷ restore_rows date_parse existing w rows
          else restore_rows date_parse existing w rows)
  unfolding restore_rows
  restore_rows_step existing w row rows = ground arith

  restore_rows_by :
      (existing : List (Option Text)) (w : Text) (row : StoredTransaction)
      (rows : List StoredTransaction) {b : Bool}
      → is_wanted existing w row ≡ b
      → restore_rows date_parse existing w (row ∷ rows) ≡ (
          if b
          then restored_entry date_parse w row ∷ restore_rows date_parse existing w rows
          else restore_rows date_parse existing w rows)
  restore_rows_by existing w row rows h =
      restore_rows_step existing w row rows
      ∙ ap
          (λ c.
            if c
            then restored_entry date_parse w row ∷ restore_rows date_parse existing w rows
            else restore_rows date_parse existing w rows)
          h

  restore_rows-All :
      (P : Draft → Type 0) (existing : List (Option Text)) (w : Text)
      (rows : List StoredTransaction)
      → ((row : StoredTransaction)
          → is_wanted existing w row ≡ true
          → P (restored_entry date_parse w row))
      → All P (restore_rows date_parse existing w rows)
  unfolding restore_rows
  restore_rows-All P existing w [] h = tt
  restore_rows-All P existing w (row ∷ rows) h = elim (Bool-cases (is_wanted existing w row)) [
    | inl yes1 ↦
        rw (restore_rows_step existing w row rows, yes1)
          (h row yes1, restore_rows-All P existing w rows h)
    | inr no1 ↦
        rw (restore_rows_step existing w row rows, no1) (restore_rows-All P existing w rows h)
  ]

  -- Every entry that the merge restores for a wallet is resumed in a session of that wallet on the
  -- app's chain, where it has a hash and the app's chain, and its hash was not tracked.
  pub merge-IsOwn :
      (existing : List (Option Text)) (rows : List StoredTransaction) (wallet : Text)
      → All
          (λ d. IsOwn wallet d × ((h : Text) → d.hash ≡ some h → is_known existing h ≡ false))
          (merge_backend_transactions date_parse existing rows (some wallet))
  unfolding merge_backend_transactions restored_entry
  merge-IsOwn existing rows [] = tt
  merge-IsOwn existing rows (c ∷ wallet) =
      restore_rows-All
        (λ d. IsOwn (c ∷ wallet) d × ((h : Text) → d.hash ≡ some h → is_known existing h ≡ false))
        existing (c ∷ wallet) rows
        (λ row h. (restored_entry-IsOwn (c ∷ wallet) row, λ t e. ground arith))

  restore_rows-has_hash :
      (existing : List (Option Text)) (w hash : Text) (rows : List StoredTransaction)
      → has_hash hash (restore_rows date_parse existing w rows)
        ≡ any (λ row. is_wanted existing w row && text_eq row.tx_hash hash) rows
  unfolding restore_rows restored_entry opt_eq
  restore_rows-has_hash existing w hash [] = refl
  restore_rows-has_hash existing w hash (row ∷ rows) =
      rw (restore_rows_step existing w row rows)
        (ground (arith, restore_rows-has_hash existing w hash rows))

  -- For a connected wallet, a hash is restored exactly where some row of the backend has it, is
  -- unresolved, was recorded by the wallet, and is not tracked yet.
  pub merge-has_hash :
      (existing : List (Option Text)) (rows : List StoredTransaction) (wallet hash : Text)
      → truthy (some wallet) ≡ true
      → has_hash hash (merge_backend_transactions date_parse existing rows (some wallet))
        ≡ any (λ row. is_wanted existing wallet row && text_eq row.tx_hash hash) rows
  unfolding merge_backend_transactions
  merge-has_hash existing rows wallet hash h =
      rw h (restore_rows-has_hash existing wallet hash rows)

  is_known-append :
      (xs ys : List (Option Text)) (h : Text)
      → is_known (xs ++ ys) h ≡ (is_known xs h || is_known ys h)
  unfolding is_known
  is_known-append [] ys h = refl
  is_known-append (none ∷ xs) ys h = is_known-append xs ys h
  is_known-append (some x ∷ xs) ys h = ground (arith, is_known-append xs ys h)

  -- Rows that add nothing to what is known.
  restore_rows_none :
      (known : List (Option Text)) (w : Text) (rows : List StoredTransaction)
      → All (λ row. is_wanted known w row ≡ false) rows
      → restore_rows date_parse known w rows ≡ []
  unfolding restore_rows
  restore_rows_none known w [] h = refl
  restore_rows_none known w (row ∷ rows) h =
      rw (restore_rows_step known w row rows, h.0) (restore_rows_none known w rows h.1)

  abbrev HasHashes : List StoredTransaction → Type 0
  HasHashes rows = All (λ row. truthy (some row.tx_hash) ≡ true) rows

  -- The wanted rows of a list are known once the hashes `hs` are.
  abbrev Known : List (Option Text) → Text → List (Option Text) → List StoredTransaction → Type 0
  Known existing w hs rows =
      All (λ row. is_wanted existing w row ≡ true → is_known hs row.tx_hash ≡ true) rows

  is_known-cons :
      (h : Option Text) (hs : List (Option Text)) (t : Text)
      → is_known hs t ≡ true
      → is_known (h ∷ hs) t ≡ true
  unfolding is_known
  is_known-cons none hs t k = k
  is_known-cons (some h) hs t k = ground (arith, k)

  is_known_self :
      (hs : List (Option Text)) (t : Text)
      → truthy (some t) ≡ true
      → is_known (some t ∷ hs) t ≡ true
  unfolding is_known
  is_known_self hs t k = rw (k, text_eq_refl (lower t)) refl

  Known-cons :
      (existing : List (Option Text)) (w : Text) (h : Option Text) (hs : List (Option Text))
      (rows : List StoredTransaction)
      → Known existing w hs rows
      → Known existing w (h ∷ hs) rows
  Known-cons existing w h hs [] k = tt
  Known-cons existing w h hs (row ∷ rows) k =
      (λ r. is_known-cons h hs row.tx_hash (k.0 r), Known-cons existing w h hs rows k.1)

  restore_rows-Known :
      (existing : List (Option Text)) (w : Text) (rows : List StoredTransaction)
      → HasHashes rows
      → Known existing w (hashes (restore_rows date_parse existing w rows)) rows
  unfolding restored_entry
  restore_rows-Known existing w [] k = tt
  restore_rows-Known existing w (row ∷ rows) k = elim (Bool-cases (is_wanted existing w row)) [
    | inl yes1 ↦
        subst (λ x. Known existing w (hashes x) (row ∷ rows))
          (sym (restore_rows_by existing w row rows yes1))
          (
            λ r. is_known_self (hashes (restore_rows date_parse existing w rows)) row.tx_hash k.0,
            Known-cons existing w (some row.tx_hash)
                (hashes (restore_rows date_parse existing w rows)) rows
                (restore_rows-Known existing w rows k.1),
          )
    | inr no1 ↦
        subst (λ x. Known existing w (hashes x) (row ∷ rows))
          (sym (restore_rows_by existing w row rows no1))
          (λ r. absurd (cc), restore_rows-Known existing w rows k.1)
  ]

  Known-unwanted :
      (existing hs : List (Option Text)) (w : Text) (rows : List StoredTransaction)
      → Known existing w hs rows
      → All (λ row. is_wanted (existing ++ hs) w row ≡ false) rows
  Known-unwanted existing hs w [] k = tt
  Known-unwanted existing hs w (row ∷ rows) k =
      (unwanted row k.0, Known-unwanted existing hs w rows k.1)
    where
      unwanted :
          (row : StoredTransaction)
          → (is_wanted existing w row ≡ true → is_known hs row.tx_hash ≡ true)
          → is_wanted (existing ++ hs) w row ≡ false
      unwanted row q = elim (Bool-cases (is_wanted existing w row)) [
        | inl h ↦ rw (is_known-append existing hs row.tx_hash, q h) (ground arith)
        | inr h ↦ rw (is_known-append existing hs row.tx_hash) (ground (arith, h))
      ]

  -- The restore is idempotent: once its entries are tracked, the same rows, each with a hash, restore
  -- nothing more for the same connected wallet.
  pub merge_again :
      (existing : List (Option Text)) (rows : List StoredTransaction) (wallet : Text)
      → truthy (some wallet) ≡ true
      → HasHashes rows
      → merge_backend_transactions date_parse
          (existing ++ hashes (merge_backend_transactions date_parse existing rows (some wallet)))
          rows
          (some wallet)
        ≡ []
  unfolding merge_backend_transactions
  merge_again existing rows wallet h k = rw h (
      restore_rows_none (existing ++ hashes (restore_rows date_parse existing wallet rows)) wallet
        rows
        (Known-unwanted existing (hashes (restore_rows date_parse existing wallet rows)) wallet rows
          (restore_rows-Known existing wallet rows k)))
