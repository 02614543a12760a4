-- ===== src/Api/Laws.antt =====
-- What frontend/src/lib/api.ts promises of the CSRF header and of errors.
use shared_deposit_monad.Base.{
  ℕ, ◌≡◌, refl, inl, inr, Bool, true, false, ◌&&◌, Option, none, some, List, Text, txt, text_eq,
  truthy, or_else, if◌then◌else◌, leb, ltb, has_text, any, any-append, arith, ◌∙◌, Bool-cases,
}
use shared_deposit_monad.Api.{
  Options, Fields, mutating, content_type, csrf_header, request, Fetched, answered, unreachable,
  ApiResult, returned, api_error, is_success, response,
}

abbrev pub has_header : Text → List (Text × Text) → Bool
has_header name headers = any (λ h. text_eq h.0 name) headers

abbrev pub is_returned {ℓ} : {A : Type ℓ} → ApiResult A → Bool
is_returned (returned a) = true
is_returned (api_error status detail) = false

content_type_csrf :
    (body : Option Fields) → has_header (txt "X-CSRF-Token") (content_type body) ≡ false
unfolding content_type txt text_eq
content_type_csrf none = refl
content_type_csrf (some b) = refl

csrf_header_csrf :
    (method : Text) (token : Option Text)
    → has_header (txt "X-CSRF-Token") (csrf_header method token)
      ≡ (has_text mutating method && truthy token)
unfolding csrf_header txt text_eq
csrf_header_csrf method none = ground arith
csrf_header_csrf method (some token) =
    elim (Bool-cases (has_text mutating method && truthy (some token))) [
      | inl h ↦ rw h refl
      | inr h ↦ rw h refl
    ]

-- A request carries the CSRF header exactly where its method mutates and the client holds a token
-- that is not empty.
pub request-csrf :
    (token : Option Text) (path : Text) (options : Options)
    → has_header (txt "X-CSRF-Token") (request token path options).headers
      ≡ (has_text mutating (or_else options.method (txt "GET")) && truthy token)
unfolding request
request-csrf token path options =
    let method = or_else options.method (txt "GET") in
    any-append (λ h. text_eq h.0 (txt "X-CSRF-Token")) (content_type options.body)
      (csrf_header method token)
    ∙ rw (content_type_csrf options.body) (csrf_header_csrf method token)

-- The status of an answer; 0 where there is none.
abbrev pub status_of {ℓ} : {A : Type ℓ} → Fetched A → ℕ
status_of unreachable = 0
status_of (answered status body) = status

abbrev pub error_status {ℓ} : {A : Type ℓ} → ApiResult A → Option ℕ
error_status (returned a) = none
error_status (api_error status detail) = some status

-- The client resolves exactly where the backend answered with a status of 2xx. Otherwise it throws
-- an `ApiError` with the status of the answer, or with 0 where no answer came.
pub error_status-response {ℓ} :
    {A : Type ℓ} (decimal : ℕ → Text) (f : Fetched A)
    → error_status (response decimal f)
      ≡ (if leb 200 (status_of f) && ltb (status_of f) 300 then none else some (status_of f))
unfolding response is_success
error_status-response decimal unreachable = refl
error_status-response decimal (answered status body) = ground arith
