-- ===== src/Auth/Tokens.antt =====
-- auth/jwt.go: `JWTService` over the library github.com/golang-jwt/jwt/v5.
pub mod Parsing
use goph_keeper.Base.{
  ℕ, ◌+◌, ◌*◌, ◌/◌, ◌≡◌, Bool, true, false, not, ◌<◌, Text, Bytes, codes, is_empty, if◌then◌else◌,
  Option, none, some, Outcome, ok, err, Error, failure, Run, ◌>>=◌, ◌>>◌, return,
}
use goph_keeper.Models.{Time}
use goph_keeper.Repository.Users.{UserStore}

-- The claims of the server with the registered ones that it sets.
pub record Claims : Type 0 where
  pub user_id : Text
  pub email : Text
  pub issued_at : Time
  pub expires_at : Time

-- The signing method that a token's header names.
pub data Method : Type 0 where
  hs256 : Method
  other_method : Text → Method

-- `*jwt.Token` after parsing: its claims, if they are of the type `*Claims`, and `Valid`.
pub record Token : Type 0 where
  pub claims : Option Claims
  pub valid : Bool

-- `jwt.NewNumericDate` keeps seconds.
abbrev pub numeric_date : Time → Time
numeric_date t = t / 1000000000 * 1000000000

-- The library: signing with HS256, and parsing at a time with a function that gives the key for
-- the method of the token. What it relies on: a token that was signed with the key that the
-- function gives for HS256 parses, before it expires, to the claims that were signed; and a token
-- is refused if the function gives no key for its method.
pub record Jwt : Type 0 where
  pub signed_string : Bytes → Claims → Outcome Text
  pub method_of : Text → Method
  pub parse_with_claims : Text → (Method → Outcome Bytes) → Time → Outcome Token
  pub method_of-signed_string :
      (key : Bytes) (c : Claims) (t : Text) → signed_string key c ≡ ok t → method_of t ≡ hs256
  pub parse-signed_string :
      (key : Bytes) (c : Claims) (t : Text) (key_fn : Method → Outcome Bytes) (now : Time)
      → signed_string key c ≡ ok t
      → key_fn hs256 ≡ ok key
      → now < c.expires_at
      → parse_with_claims t key_fn now ≡ ok (record { claims = some c; valid = true })
  pub parse_no_key :
      (t : Text) (key_fn : Method → Outcome Bytes) (now : Time) (e : Error)
      → key_fn (method_of t) ≡ err e
      → (x : Error) × (parse_with_claims t key_fn now ≡ err x)

-- `NewJWTService`: the service is its secret.
unfoldable pub new_jwt_service : Text → Outcome Bytes
new_jwt_service secret =
    if is_empty secret then err (failure (codes "jwt secret is required")) else ok secret

-- `IssueToken` reads the clock twice.
unfoldable pub issue_token :
    (j : Jwt) (U : UserStore) → Bytes → Text → Text → Time → Run U.State Text
issue_token j U secret user_id email ttl = do
  issued ← U.now_fn
  base ← U.now_fn
  let claims : Claims = record {
    user_id = user_id;
    email = email;
    issued_at = numeric_date issued;
    expires_at = numeric_date (base + ttl);
  }
  λ w. (j.signed_string secret claims, w)

-- The function that `ParseToken` hands to the library.
abbrev pub key_fn : Bytes → Method → Outcome Bytes
key_fn secret hs256 = ok secret
key_fn secret (other_method name) = err (failure (codes "unexpected signing method"))

abbrev checked : Token → Outcome Claims
checked token = elim token.claims [
  | none ↦ err (failure (codes "invalid token"))
  | some claims ↦ if not token.valid then err (failure (codes "invalid token")) else ok claims
]

abbrev parsed : Outcome Token → Outcome Claims
parsed (err e) = err e
parsed (ok token) = checked token

-- `ParseToken` at a time.
unfoldable pub parse_token : Jwt → Bytes → Text → Time → Outcome Claims
parse_token j secret token now = parsed (j.parse_with_claims token (key_fn secret) now)
