-- ===== src/Auth/Status.antt =====
-- The derived status and the failures of frontend/src/app/AuthContext.tsx.
use shared_deposit_monad.Base.{
  ◌≡◌, refl, ◌↔◌, inl, inr, Bool, true, false, not, ◌&&◌, Option, none, some, Text, text_eq_iff,
  lower, truthy, is_some, mentions, arith, Bool-cases,
}
use shared_deposit_monad.ContractTx.Messages.{is_rejection}
use shared_deposit_monad.Auth.{
  AuthStatus, AuthState, Thrown, Try, got, thrown, effective_status, account_mismatch, is_other,
  is_authenticated, SignInWorld, sign_in, sign_in_session, sign_in_failed, message_of, chain_words,
}

-- Whenever a connected address is known and the provider holds a wallet, the page counts as
-- authenticated exactly where the session is and both are one wallet, up to the case of letters.
pub effective_status_iff :
    (s : AuthState) (a w : Text)
    → truthy (some a) ≡ true
    → truthy (some w) ≡ true
    → s.wallet ≡ some w
    → (is_authenticated (effective_status s true (some a)) ≡ true)
      ↔ ((is_authenticated s.status ≡ true) × (lower a ≡ lower w))
unfolding effective_status is_other is_authenticated
effective_status_iff s a w ha hw h = rw h ground (arith, ha, hw, text_eq_iff (lower a) (lower w))

-- An account mismatch is reported exactly where the session is authenticated and a wallet is
-- connected, but the page does not count as authenticated.
pub account_mismatch_iff :
    (s : AuthState) (is_connected : Bool) (address : Option Text)
    → account_mismatch s is_connected address ≡ (
        is_connected
        && (is_authenticated s.status
            && not (is_authenticated (effective_status s is_connected address))))
unfolding account_mismatch effective_status is_authenticated
account_mismatch_iff s c address = ground arith

-- A state where no sign-in is in progress; an error text stands for a failure and for no other state.
abbrev pub is_settled : AuthState → Bool
is_settled s = elim s.status [
  | AuthStatus.authenticated ↦ true
  | AuthStatus.anonymous ↦ not (is_some s.error)
  | AuthStatus.error ↦ is_some s.error
  | _ ↦ false
]

sign_in_failed-is_settled : (e : Thrown) (s : AuthState) → is_settled (sign_in_failed e s) ≡ true
unfolding sign_in_failed
sign_in_failed-is_settled e s = elim (Bool-cases (is_rejection (message_of e))) [
  | inl h ↦ rw h refl
  | inr h ↦ rw h (elim (Bool-cases (mentions chain_words (message_of e))) [
    | inl k ↦ rw k refl
    | inr k ↦ rw k refl
  ])
]

-- A call of `signIn` with an address resolves, and leaves no sign-in in progress: it ends
-- authenticated, anonymous without an error, or failed with an error.
pub sign_in_ends :
    (address : Option Text) (w : SignInWorld) (s : AuthState)
    → truthy address ≡ true
    → ((sign_in address w s).1 ≡ false) × (is_settled (sign_in address w s).0 ≡ true)
unfolding sign_in
sign_in_ends address w s h = rw h (refl, ending (sign_in_session w))
  where
    ending :
        (t : Try (Option Text × Option Text))
        → is_settled (elim t [
          | got (wallet, token) ↦ record s {
            status = AuthStatus.authenticated;
            wallet = wallet;
            error = none;
            csrf_token = token;
          }
          | thrown e ↦ sign_in_failed e (record s { error = none; status = AuthStatus.signing })
        ])
          ≡ true
    ending (got (wallet, token)) = refl
    ending (thrown e) =
        sign_in_failed-is_settled e (record s { error = none; status = AuthStatus.signing })
