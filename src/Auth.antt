-- ===== src/Auth.antt =====
-- internal/auth: tokens, registration and login. bcrypt and the JWT library are not part of the
-- repository; they are the parameters `Bcrypt` and `Jwt`.
pub mod Tokens
pub mod Laws
use goph_keeper.Base.{
  ◌≡◌, ◌||◌, Text, Bytes, codes, is_empty, trim_space, to_lower, Unicode, hex_encode, if◌then◌else◌,
  Option, none, some, Outcome, ok, err, Error, failure, sentinel, err_invalid_credentials, Run,
  ◌>>=◌, ◌>>◌, return, raise,
}
use goph_keeper.Models.{Time, User}
use goph_keeper.Repository.Users.{UserStore}
use goph_keeper.Auth.Tokens.{Jwt, issue_token}

-- golang.org/x/crypto/bcrypt: `GenerateFromPassword` from its random salt, and
-- `CompareHashAndPassword`. A hash matches the password that it was made of.
pub record Bcrypt : Type 0 where
  pub generate : Bytes → Text → Outcome Bytes
  pub compare : Bytes → Text → Option Error
  pub compare-generate :
      (salt hash : Bytes) (password : Text)
      → generate salt password ≡ ok hash
      → compare hash password ≡ none

-- `strings.TrimSpace(strings.ToLower(email))`.
abbrev pub normal_email : Unicode → Text → Text
normal_email u email = trim_space (to_lower u email)

module _ (u : Unicode) (b : Bcrypt) (j : Jwt) (U : UserStore) where
  -- `HashPassword`.
  unfoldable pub hash_password : Text → Run U.State Bytes
  hash_password password = do salt ← U.random_fn; λ w. (b.generate salt password, w)

  -- `newID`.
  unfoldable pub new_id : Run U.State Text
  new_id = do bytes ← U.random_fn; return (hex_encode bytes)

  unfoldable pub register : Text → Text → Run U.State User
  unfolding hash_password new_id
  register email password =
      let email' = normal_email u email in
      if is_empty email' || is_empty password
      then raise (failure (codes "email and password are required"))
      else do
        hash ← hash_password password
        id ← new_id
        now ← U.now_fn
        U.create (record { id = id; email = email'; password_hash = hash; created_at = now })

  -- Any error of the store becomes `ErrInvalidCredentials`.
  abbrev hide : Outcome User × U.State → Outcome User × U.State
  hide (ok user, w) = (ok user, w)
  hide (err e, w) = (err (sentinel err_invalid_credentials), w)

  abbrev compared : Option Error → Run U.State (Unit {0})
  compared none w = (ok tt, w)
  compared (some e) w = (err (sentinel err_invalid_credentials), w)

  unfoldable pub login : Bytes → Time → Text → Text → Run U.State Text
  login secret ttl email password = do
    user ← λ w. hide (U.get_by_email (normal_email u email) w)
    compared (b.compare user.password_hash password)
    issue_token j U secret user.id user.email ttl
