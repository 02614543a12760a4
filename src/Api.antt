-- ===== src/Api.antt =====
-- The backend client: frontend/src/lib/api.ts. The answer of `fetch` is an argument.
pub mod Laws
use shared_deposit_monad.Base.{
  ℕ, Bool, true, false, not, ◌&&◌, ◌||◌, Option, none, some, List, [], ◌∷◌, ◌++◌, Text, txt,
  text_eq, truthy, is_some, or_else, if◌then◌else◌, leb, ◌==◌, has_text,
}

-- A scalar of a request body.
pub data Field : Type 0 where
  number : ℕ → Field
  string : Text → Field
  null : Field

abbrev pub Fields : Type 0
Fields = List (Text × Field)

-- `options`
pub record Options : Type 0 where
  pub method : Option Text
  pub body : Option Fields

-- The arguments of `fetch`; `credentials` is always 'include'.
pub record Request : Type 0 where
  pub path : Text
  pub method : Text
  pub headers : List (Text × Text)
  pub body : Option Fields

abbrev pub mutating : List Text
mutating = txt "POST" ∷ txt "PATCH" ∷ txt "PUT" ∷ txt "DELETE" ∷ []

unfoldable pub content_type : Option Fields → List (Text × Text)
content_type none = []
content_type (some body) = (txt "Content-Type", txt "application/json") ∷ []

-- The header is set for a mutation while there is a token; an empty token counts as none.
unfoldable pub csrf_header : Text → Option Text → List (Text × Text)
unfolding has_text txt text_eq
csrf_header method none = []
csrf_header method (some token) =
    if has_text mutating method && truthy (some token) then (txt "X-CSRF-Token", token) ∷ [] else []

unfoldable pub request : Option Text → Text → Options → Request
unfolding content_type csrf_header txt
request csrf_token path options =
    let method = or_else options.method (txt "GET") in
    record {
      path = path;
      method = method;
      headers = content_type options.body ++ csrf_header method csrf_token;
      body = options.body;
    }

-- A response body: no JSON, or a value with the text of its property `detail`, where it has one.
pub data Body {ℓ} (A : Type ℓ) : Type ℓ where
  no_json : Body A
  json : A → (detail : Option Text) → Body A

pub data Fetched {ℓ} (A : Type ℓ) : Type ℓ where
  unreachable : Fetched A
  answered : (status : ℕ) → Body A → Fetched A

-- What `api` resolves to: nothing for 204, the empty object for a body that is no JSON, or a value.
pub data Answer {ℓ} (A : Type ℓ) : Type ℓ where
  nothing empty_object : Answer A
  value : A → Answer A

pub data ApiResult {ℓ} (A : Type ℓ) : Type ℓ where
  returned : Answer A → ApiResult A
  api_error : (status : ℕ) → (detail : Text) → ApiResult A

-- `response.ok`
unfoldable pub is_success : ℕ → Bool
is_success status = leb 200 status && leb status 299

unfoldable pub answer_of {ℓ} : {A : Type ℓ} → Body A → Answer A
answer_of no_json = Answer.empty_object
answer_of (json a detail) = Answer.value a

-- The printing of a status in a message is a parameter.
module _ (decimal : ℕ → Text) where
  unfoldable pub detail_of {ℓ} : {A : Type ℓ} → ℕ → Body A → Text
  detail_of status (json a (some detail)) = detail
  detail_of status _ = txt "request failed (" ++ (decimal status ++ txt ")")

  unfoldable pub response {ℓ} : {A : Type ℓ} → Fetched A → ApiResult A
  unfolding is_success detail_of answer_of txt
  response unreachable = api_error 0 (txt "backend unavailable")
  response (answered status body) =
      if status == 204
      then returned Answer.nothing
      else if is_success status
      then returned (answer_of body)
      else api_error status (detail_of status body)
