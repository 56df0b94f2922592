-- ===== src/Handlers/Replies.antt =====
-- internal/handlers: requests, answers, the checks that the handlers share, and the authentication
-- of requests. The JSON encoding and the headers of responses are left to the libraries.
use goph_keeper.Base.{
  ℕ, Bool, not, ◌&&◌, ◌||◌, Option, none, some, List, [], ◌∷◌, Text, Bytes, codes, text_eq, ◌==◌,
  is_empty, is_blank, trim_space, Unicode, to_lower, if◌then◌else◌, Outcome, ok, err, Error, Run,
}
use goph_keeper.Models.{Time, Meta, Payload, Secret}
use goph_keeper.Auth.Tokens.{Claims, Jwt, parse_token}
use goph_keeper.Client.ParseMeta.{split, cut}

-- `registerRequest` and `loginRequest`.
pub record AuthRequest : Type 0 where
  pub email : Text
  pub password : Text

pub record SecretRequest : Type 0 where
  pub type : Text
  pub payload : Payload
  pub meta : Meta

-- A request: `authorization` and `content_type` are empty where the header is not there, `since`
-- is the query of a pull, parsed, `id` the parameter of the path, and the last three are what
-- `decodeJSON` makes of the body as each type.
pub record Incoming : Type 0 where
  pub method : Text
  pub authorization : Text
  pub content_type : Text
  pub since : Option (Outcome Time)
  pub id : Text
  pub credentials : Outcome AuthRequest
  pub secret : Outcome SecretRequest
  pub items : Outcome (List Secret)

pub data Content : Type 0 where
  error_text : Text → Content
  secret_content : Secret → Content
  secrets_content : List Secret → Content
  items_content : List Secret → Content
  applied_content : ℕ → Content
  token_content : Text → Content
  me_content : Text → Text → Content
  no_content : Content

pub record Answer : Type 0 where
  pub status : ℕ
  pub content : Content

-- `writeError`.
abbrev pub refusal : ℕ → Text → Answer
refusal status text = record { status = status; content = error_text text }

abbrev first_part : List Text → Text
first_part [] = []
first_part (part ∷ _) = part

-- `isJSONContentType`.
abbrev pub is_json_content_type : Unicode → Text → Bool
is_json_content_type u content_type =
    not (is_empty content_type)
    && trim_space (to_lower u (first_part (split b';' content_type))) == codes "application/json"

-- The token of a header: the scheme is `bearer` in any case, and something follows it.
abbrev bearer_of : Unicode → Text × Option Text → Option Text
bearer_of u (scheme, none) = none
bearer_of u (scheme, some rest) =
    if not (to_lower u scheme == codes "bearer") || is_blank rest
    then none
    else some (trim_space rest)

unfoldable pub bearer : Unicode → Text → Option Text
bearer u header = bearer_of u (cut b' ' header)

-- What a service's result makes of an answer.
abbrev pub outcome_answer : {A : Type 0} → (A → Answer) → (Error → Answer) → Outcome A → Answer
outcome_answer success failed (ok a) = success a
outcome_answer success failed (err e) = failed e

abbrev pub success : ℕ → Content → Answer
success status content = record { status = status; content = content }

-- A handler: it answers, and may change the state.
abbrev pub Handler : Type 0 → Type 0
Handler W = W → Answer × W

abbrev pub refuse : {W : Type 0} → ℕ → Text → Handler W
refuse status text w = (refusal status text, w)

abbrev pub replied : {W A : Type 0} → (A → Answer) → (Error → Answer) → Run W A → Handler W
replied success failed m w = let (x, w') = m w in (outcome_answer success failed x, w')

-- `ClaimsFromContext`.
abbrev pub with_claims : {W : Type 0} → Option Claims → (Claims → Handler W) → Handler W
with_claims none next = refuse 401 (codes "unauthorized")
with_claims (some claims) next = next claims

-- `decodeJSON`.
abbrev pub with_body : {W A : Type 0} → Outcome A → (A → Handler W) → Handler W
with_body (err e) next = refuse 400 (codes "invalid json")
with_body (ok body) next = next body

abbrev pub with_method : {W : Type 0} → Text → Incoming → Handler W → Handler W
with_method method r next =
    if not (r.method == method) then refuse 405 (codes "method not allowed") else next

abbrev pub with_json : {W : Type 0} → Unicode → Incoming → Handler W → Handler W
with_json u r next =
    if not (is_json_content_type u r.content_type)
    then refuse 415 (codes "content type must be application/json")
    else next

abbrev pub with_id : {W : Type 0} → Incoming → Handler W → Handler W
with_id r next = if is_blank r.id then refuse 400 (codes "id is required") else next

-- `since` is the zero time where the query is empty.
abbrev pub with_since : {W : Type 0} → Option (Outcome Time) → (Time → Handler W) → Handler W
with_since none next = next 0
with_since (some (ok since)) next = next since
with_since (some (err e)) next = refuse 400 (codes "invalid since")

abbrev pub let_in : {W : Type 0} → (Option Claims → Handler W) → Outcome Claims → Handler W
let_in next (err e) = refuse 401 (codes "invalid token")
let_in next (ok claims) = next (some claims)

abbrev pub with_token :
    {W : Type 0} → Jwt → Bytes → Time → (Option Claims → Handler W) → Option Text → Handler W
with_token j secret now next none = refuse 401 (codes "invalid authorization header")
with_token j secret now next (some token) = let_in next (parse_token j secret token now)

-- `AuthMiddleware`, at a time.
unfoldable pub auth_middleware :
    {W : Type 0} → Unicode → Jwt → Bytes → Time → Incoming → (Option Claims → Handler W) → Handler W
auth_middleware u j secret now r next =
    if is_empty r.authorization
    then refuse 401 (codes "missing authorization header")
    else with_token j secret now next (bearer u r.authorization)
