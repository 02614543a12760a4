-- ===== src/Auth/Laws.antt =====
-- What frontend/src/app/AuthContext.tsx promises of the session.
use shared_deposit_monad.Base.{
  ℕ, ◌≡◌, refl, inl, inr, Bool, true, false, not, ◌||◌, Option, none, some, [], ◌∷◌, Text, subst,
  if◌then◌else◌, ◌==◌, mentions, Bool-cases,
}
use shared_deposit_monad.Diagnostics.{monad_chain_id}
use shared_deposit_monad.ContractTx.Messages.{is_rejection}
use shared_deposit_monad.Api.{api_error}
use shared_deposit_monad.Auth.{
  AuthStatus, AuthState, MeResponse, Thrown, Try, got, thrown, refresh, is_authenticated,
  SignInWorld, sign_in, sign_in_session, sign_in_failed, sign_out, sign_in_as_connected, object,
  no_session, has_session, ◌>>=◌, ◌>>◌, message_of, ensure_chain, undefined_text, chain_words,
  verified_of, session_of, no_cookie_message,
}

bind_got {ℓ κ} :
    {A : Type ℓ} {B : Type κ} (m : Try A) (f : A → Try B) (r : B)
    → (m >>= f) ≡ got r
    → (a : A) × ((m ≡ got a) × (f a ≡ got r))
bind_got (got a) f r h = (a, (refl, h))
bind_got (thrown e) f r h = absurd (cc)

then_got {ℓ κ} :
    {A : Type ℓ} {B : Type κ} (m : Try A) (n : Try B) (r : B)
    → (m >> n) ≡ got r
    → (a : A) × ((m ≡ got a) × (n ≡ got r))
then_got (got a) n r h = (a, (refl, h))
then_got (thrown e) n r h = absurd (cc)

thrown_chain :
    (b : Bool) (e : Thrown) (u : Unit {0}) → b ≡ false → (if b then got u else thrown e) ≡ got u → ⊥
thrown_chain true e u k q = cc
thrown_chain false e u k q = cc

ensure_chain-right :
    (w : SignInWorld)
    → ensure_chain w ≡ got tt
    → ((w.chain_id == monad_chain_id) || w.switch_works) ≡ true
unfolding ensure_chain
ensure_chain-right w h = elim (Bool-cases ((w.chain_id == monad_chain_id) || w.switch_works)) [
  | inl k ↦ k
  | inr k ↦ absurd (thrown_chain ((w.chain_id == monad_chain_id) || w.switch_works) _ tt k h)
]

session_of-confirmed :
    (v : Option MeResponse) (c : MeResponse) (r : Option Text × Option Text)
    → session_of v c ≡ got r
    → has_session c ≡ true
unfolding session_of
session_of-confirmed v c r h = elim (Bool-cases (has_session c)) [
  | inl k ↦ k
  | inr k ↦ absurd (
      let q =
        subst
          (λ b.
            (if not b then thrown (Thrown.error no_cookie_message) else elim v [
              | none ↦ thrown (Thrown.error undefined_text)
              | some x ↦
                  got
                    (x.wallet_address, elim c.csrf_token [ none ↦ x.csrf_token | some t ↦ some t ])
            ])
            ≡ got r)
          k h in
      cc)
]

-- A wallet is signed in only once the backend has confirmed the session: where the body of `signIn`
-- succeeds, `/auth/me` answered with an authenticated session of some wallet, and the wallet is on the
-- app's chain or was switched to it.
pub sign_in_session-confirmed :
    (w : SignInWorld) (r : Option Text × Option Text)
    → sign_in_session w ≡ got r
    → (((w.chain_id == monad_chain_id) || w.switch_works) ≡ true)
      × ((c : MeResponse) × ((object no_session w.confirm ≡ got c) × (has_session c ≡ true)))
unfolding sign_in_session
sign_in_session-confirmed w r h =
    let (u, (chain, h1)) = then_got (ensure_chain w) _ r h in
    let (message, (a1, h2)) = bind_got (object none w.nonce) _ r h1 in
    let (signature, (a2, h3)) = bind_got (w.sign message) _ r h2 in
    let (verified, (a3, h4)) = bind_got (verified_of w.verify) _ r h3 in
    let (confirmed, (a4, h5)) = bind_got (object no_session w.confirm) _ r h4 in
    (ensure_chain-right w chain, (confirmed, (a4, session_of-confirmed verified confirmed r h5)))

sign_in_failed_keeps :
    (e : Thrown) (s : AuthState)
    → ((sign_in_failed e s).csrf_token ≡ s.csrf_token) × ((sign_in_failed e s).wallet ≡ s.wallet)
unfolding sign_in_failed
sign_in_failed_keeps e s = elim (Bool-cases (is_rejection (message_of e))) [
  | inl h ↦ rw h (refl, refl)
  | inr h ↦ rw h (elim (Bool-cases (mentions chain_words (message_of e))) [
    | inl k ↦ rw k (refl, refl)
    | inr k ↦ rw k (refl, refl)
  ])
]

pub sign_in_failed_refuses :
    (e : Thrown) (s : AuthState) → is_authenticated (sign_in_failed e s).status ≡ false
unfolding sign_in_failed is_authenticated
sign_in_failed_refuses e s = elim (Bool-cases (is_rejection (message_of e))) [
  | inl h ↦ rw h refl
  | inr h ↦ rw h (elim (Bool-cases (mentions chain_words (message_of e))) [
    | inl k ↦ rw k refl
    | inr k ↦ rw k refl
  ])
]

-- A sign-in that does not end authenticated leaves the wallet and the token that it found.
sign_in_keeps :
    (address : Option Text) (w : SignInWorld) (s : AuthState)
    → is_authenticated s.status ≡ false
    → is_authenticated (sign_in address w s).0.status ≡ false
    → ((sign_in address w s).0.csrf_token ≡ s.csrf_token)
      × ((sign_in address w s).0.wallet ≡ s.wallet)
unfolding sign_in is_authenticated
sign_in_keeps none w s a h = (refl, refl)
sign_in_keeps (some []) w s a h = (refl, refl)
sign_in_keeps (some (c ∷ t)) w s a h = ending (sign_in_session w) h
  where
    after : Try (Option Text × Option Text) → AuthState
    after t = elim t [
      | got (wallet, token) ↦ record s {
        status = AuthStatus.authenticated;
        wallet = wallet;
        error = none;
        csrf_token = token;
      }
      | thrown e ↦ sign_in_failed e (record s { error = none; status = AuthStatus.signing })
    ]

    ending :
        (t : Try (Option Text × Option Text))
        → is_authenticated (after t).status ≡ false
        → ((after t).csrf_token ≡ s.csrf_token) × ((after t).wallet ≡ s.wallet)
    ending (got (wallet, token)) h = absurd (cc)
    ending (thrown e) h =
        sign_in_failed_keeps e (record s { error = none; status = AuthStatus.signing })

-- Signing in as the connected wallet never keeps the old session: where it does not end
-- authenticated, no token and no wallet are left.
pub sign_in_as_connected_forgets :
    (address : Option Text) (w : SignInWorld) (s : AuthState)
    → is_authenticated (sign_in_as_connected address w s).0.status ≡ false
    → ((sign_in_as_connected address w s).0.csrf_token ≡ none)
      × ((sign_in_as_connected address w s).0.wallet ≡ none)
unfolding sign_in_as_connected sign_out is_authenticated
sign_in_as_connected_forgets address w s h = sign_in_keeps address w (sign_out s) refl h

-- A failed `/auth/me` leaves the CSRF token of the forgotten session in the client.
pub refresh_failed :
    (s : AuthState) (status : ℕ) (detail token : Text)
    → s.csrf_token ≡ some token
    → ((refresh (api_error status detail) s).wallet ≡ none)
      × ((refresh (api_error status detail) s).csrf_token ≡ some token)
unfolding refresh object
refresh_failed s status detail token h = (refl, h)
