-- ===== src/Handlers/Accounts.antt =====
-- internal/handlers/auth.go: registration, login and the user of a token, over any store of users.
pub mod Sessions
use goph_keeper.Base.{
  ℕ, ◌*◌, Option, some, Text, Bytes, codes, trim_space, Unicode, if◌then◌else◌, Error, message,
  is_error, err_user_exists,
}
use goph_keeper.Models.{Time}
use goph_keeper.Repository.Users.{UserStore}
use goph_keeper.Auth.{Bcrypt, register, login}
use goph_keeper.Auth.Tokens.{Claims, Jwt}
use goph_keeper.Handlers.Replies.{
  AuthRequest, Incoming, Answer, refusal, success, no_content, token_content, me_content, Handler,
  replied, with_claims, with_body, with_method, with_json, auth_middleware,
}

abbrev pub register_failed : Error → Answer
register_failed e =
    if is_error e err_user_exists
    then refusal 409 (codes "user already exists")
    else refusal 400 (message e)

-- The lifetime that `NewRouter` gives to tokens.
abbrev pub token_ttl : Time
token_ttl = 24 * 3600 * 1000000000

module _ (u : Unicode) (b : Bcrypt) (j : Jwt) (U : UserStore) where
  abbrev pub register_reply : AuthRequest → Handler U.State
  register_reply req =
      replied (λ _. success 201 no_content) register_failed
        (register u b j U (trim_space req.email) (trim_space req.password))

  unfoldable pub register_handler : Incoming → Handler U.State
  register_handler r =
      with_method (codes "POST") r (with_json u r (with_body r.credentials register_reply))

  abbrev pub login_reply : Bytes → AuthRequest → Handler U.State
  login_reply secret req =
      replied (λ token. success 200 (token_content token))
        (λ _. refusal 401 (codes "invalid credentials"))
        (login u b j U secret token_ttl (trim_space req.email) (trim_space req.password))

  unfoldable pub login_handler : Bytes → Incoming → Handler U.State
  login_handler secret r =
      with_method (codes "POST") r (with_json u r (with_body r.credentials (login_reply secret)))

abbrev me_reply : {W : Type 0} → Claims → Handler W
me_reply claims w = (success 200 (me_content claims.user_id claims.email), w)

unfoldable pub me_handler : {W : Type 0} → Incoming → Option Claims → Handler W
me_handler r context = with_method (codes "GET") r (with_claims context me_reply)

-- A request to `/api/me`, with the middleware that `NewRouter` puts in front of it.
unfoldable pub serve_me : {W : Type 0} → Unicode → Jwt → Bytes → Time → Incoming → Handler W
serve_me u j secret now r = auth_middleware u j secret now r (me_handler r)
