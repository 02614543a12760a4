-- ===== src/Auth.antt =====
-- Wallet-signature authentication of the client: frontend/src/app/AuthContext.tsx. The state is that of
-- the provider, with the CSRF token that frontend/src/lib/api.ts keeps for it.
pub mod Status
pub mod Laws
use shared_deposit_monad.Base.{
  ℕ, Bool, true, false, not, ◌&&◌, ◌||◌, Option, none, some, List, [], ◌∷◌, Text, txt, text_eq,
  lower, truthy, or_else, if◌then◌else◌, ◌==◌, mentions,
}
use shared_deposit_monad.Diagnostics.{monad_chain_id}
use shared_deposit_monad.ContractTx.Messages.{is_rejection}
use shared_deposit_monad.Api.{Answer, ApiResult, returned, api_error}

pub data AuthStatus : Type 0 where
  loading anonymous signing verifying authenticated error : AuthStatus

pub record MeResponse : Type 0 where
  pub authenticated : Bool
  pub wallet_address : Option Text
  pub display_name : Option Text
  pub session_expires_at : Option Text
  pub csrf_token : Option Text

pub record AuthState : Type 0 where
  pub status : AuthStatus
  pub wallet : Option Text
  pub error : Option Text
  pub csrf_token : Option Text

-- The fields that are read of an empty object.
abbrev pub no_session : MeResponse
no_session = record {
  authenticated = false;
  wallet_address = none;
  display_name = none;
  session_expires_at = none;
  csrf_token = none;
}

-- What an awaited call throws: an `Error` with its message, or any other value.
pub data Thrown : Type 0 where
  error : Text → Thrown
  other : Thrown

pub data Try {ℓ} (A : Type ℓ) : Type ℓ where
  got : A → Try A
  thrown : Thrown → Try A

module _ {ℓ κ} {A : Type ℓ} {B : Type κ} where
  infixl 5 ◌>>◌ ◌>>=◌
  -- What is thrown ends the body of the `try`.
  abbrev pub ◌>>=◌ : Try A → (A → Try B) → Try B
  thrown e >>= next = thrown e
  got a >>= next = next a

  abbrev pub ◌>>◌ : Try A → Try B → Try B
  thrown e >> next = thrown e
  got a >> next = next

-- Reading a property of `undefined` throws; the text is the engine's.
abbrev pub undefined_text : Text
undefined_text = txt "Cannot read properties of undefined"

-- The object that `api` resolves to, where its properties are read.
unfoldable pub object {ℓ} : {A : Type ℓ} → A → ApiResult A → Try A
object empty (returned (Answer.value a)) = got a
object empty (returned Answer.empty_object) = got empty
object empty (returned Answer.nothing) = thrown (Thrown.error undefined_text)
object empty (api_error status detail) = thrown (Thrown.error detail)

-- `me.authenticated && me.wallet_address`
unfoldable pub has_session : MeResponse → Bool
has_session me = me.authenticated && truthy me.wallet_address

-- A failed request forgets the wallet and the status, and leaves the token.
unfoldable pub refresh : ApiResult MeResponse → AuthState → AuthState
unfolding object has_session
refresh answer s = elim (object no_session answer) [
  | got me ↦
      if has_session me
      then record s {
        status = AuthStatus.authenticated;
        wallet = me.wallet_address;
        csrf_token = me.csrf_token;
      }
      else record s { status = AuthStatus.anonymous; wallet = none; csrf_token = none }
  | thrown e ↦ record s { status = AuthStatus.anonymous; wallet = none }
]

-- `address && wallet && address.toLowerCase() !== wallet.toLowerCase()`
unfoldable pub is_other : Option Text → Option Text → Bool
is_other none wallet = false
is_other (some a) none = false
is_other (some a) (some w) =
    truthy (some a) && (truthy (some w) && not (text_eq (lower a) (lower w)))

unfoldable pub is_authenticated : AuthStatus → Bool
is_authenticated AuthStatus.authenticated = true
is_authenticated _ = false

unfoldable pub effective_status : AuthState → (is_connected : Bool) → Option Text → AuthStatus
unfolding is_other is_authenticated
effective_status s is_connected address =
    if is_authenticated s.status && (not is_connected || is_other address s.wallet)
    then AuthStatus.anonymous
    else s.status

unfoldable pub account_mismatch : AuthState → (is_connected : Bool) → Option Text → Bool
unfolding is_other is_authenticated
account_mismatch s is_connected address =
    is_authenticated s.status && (is_connected && is_other address s.wallet)

-- What a call of `signIn` meets. The wallet is asked to sign the nonce's message.
pub record SignInWorld : Type 0 where
  pub chain_id : ℕ
  pub switch_works : Bool
  pub nonce : ApiResult (Option Text)
  pub sign : Option Text → Try Text
  pub verify : ApiResult MeResponse
  pub confirm : ApiResult MeResponse

abbrev pub wrong_chain_message : Text
wrong_chain_message =
    txt
      "Your wallet must be on Monad Testnet (chain 10143) to sign in. This wallet could not switch to Monad Testnet - some wallets (for example Phantom) do not support it. Please use MetaMask or Rabby, which can add and switch to Monad Testnet."

abbrev pub no_cookie_message : Text
no_cookie_message =
    txt "the browser did not accept the session cookie - reload the page and sign in again"

unfoldable pub ensure_chain : SignInWorld → Try (Unit {0})
ensure_chain w =
    if w.chain_id == monad_chain_id || w.switch_works
    then got tt
    else thrown (Thrown.error wrong_chain_message)

-- The response of `/auth/verify`; `none` is `undefined`, which is not read before the confirmation.
unfoldable pub verified_of : ApiResult MeResponse → Try (Option MeResponse)
verified_of (returned Answer.nothing) = got none
verified_of (returned Answer.empty_object) = got (some no_session)
verified_of (returned (Answer.value v)) = got (some v)
verified_of (api_error status detail) = thrown (Thrown.error detail)

-- The wallet of the first response, and the token of the second where it has one.
unfoldable pub session_of : Option MeResponse → MeResponse → Try (Option Text × Option Text)
unfolding has_session
session_of verified confirmed =
    if not (has_session confirmed) then thrown (Thrown.error no_cookie_message) else elim verified [
      | none ↦ thrown (Thrown.error undefined_text)
      | some v ↦
          got
            (v.wallet_address, elim confirmed.csrf_token [ none ↦ v.csrf_token | some t ↦ some t ])
    ]

-- The body of the `try` of `signIn`: the new wallet and token.
unfoldable pub sign_in_session : SignInWorld → Try (Option Text × Option Text)
unfolding ensure_chain object verified_of session_of
sign_in_session w = do
  ensure_chain w
  message ← object none w.nonce
  signature ← w.sign message
  verified ← verified_of w.verify
  confirmed ← object no_session w.confirm
  session_of verified confirmed

abbrev pub chain_words : List Text
chain_words = txt "chain id" ∷ txt "does not match" ∷ txt "unsupported chain" ∷ txt "4361" ∷ []

unfoldable pub message_of : Thrown → Text
message_of (Thrown.error m) = m
message_of Thrown.other = txt "sign-in failed"

-- The `catch` of `signIn`: a rejected signature is no failure.
unfoldable pub sign_in_failed : Thrown → AuthState → AuthState
unfolding message_of
sign_in_failed e s =
    let message = message_of e in
    if is_rejection message
    then record s { error = none; status = AuthStatus.anonymous }
    else if mentions chain_words message
    then record s { error = some wrong_chain_message; status = AuthStatus.error }
    else record s { error = some message; status = AuthStatus.error }

-- The state where `signIn` ends, and does its promise reject; that is the case without an address only.
unfoldable pub sign_in : Option Text → SignInWorld → AuthState → AuthState × Bool
unfolding sign_in_session sign_in_failed
sign_in address w s = if not (truthy address) then (s, true) else (
  elim (sign_in_session w) [
    | got (wallet, token) ↦ record s {
      status = AuthStatus.authenticated;
      wallet = wallet;
      error = none;
      csrf_token = token;
    }
    | thrown e ↦ sign_in_failed e (record s { error = none; status = AuthStatus.signing })
  ],
  false,
)

-- Whatever the backend answers, the local state is cleared.
unfoldable pub sign_out : AuthState → AuthState
sign_out s = record s { status = AuthStatus.anonymous; wallet = none; csrf_token = none }

unfoldable pub sign_in_as_connected : Option Text → SignInWorld → AuthState → AuthState × Bool
unfolding sign_out sign_in
sign_in_as_connected address w s = sign_in address w (sign_out s)
