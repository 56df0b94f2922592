-- ===== src/Handlers/Router.antt =====
-- internal/handlers/router.go: which handler a request reaches, on the Postgres stores.
use goph_keeper.Base.{
  ℕ, ◌++◌, Option, none, some, List, [], ◌∷◌, Text, Bytes, codes, nat_eq, text_eq, ◌==◌, contains,
  Unicode, if◌then◌else◌,
}
use goph_keeper.Models.{Time}
use goph_keeper.Auth.{Bcrypt}
use goph_keeper.Auth.Tokens.{Jwt}
use goph_keeper.Repository.Server.{Server}
use goph_keeper.Repository.PostgresUsers.{postgres_users}
use goph_keeper.Service.Postgres.{postgres_store}
use goph_keeper.Handlers.Replies.{Incoming, success, no_content, Handler, auth_middleware}
use goph_keeper.Handlers.Accounts.{register_handler, login_handler, serve_me}
use goph_keeper.Handlers.{
  Endpoint, create_secret, list_secrets, get_secret, update_secret, delete_secret, pull_items,
  push_items, serve_endpoint,
}

-- Where the router sends a request: to a handler without or behind the middleware, the latter with
-- the parameter `id` of the path, or nowhere, which `guarded` tells behind the middleware only.
pub data Route : Type 0 where
  to_register to_login to_me wrong_method no_route : Route
  to_endpoint : Endpoint → Text → Route
  guarded : ℕ → Route

-- The routes of one path, by their methods.
abbrev by_method : Route → List (Text × Route) → Text → Route
by_method wrong [] method = wrong
by_method wrong ((m, r) ∷ routes) method =
    let rest = by_method wrong routes method in if m == method then r else rest

-- What follows a prefix.
unfoldable pub after : Text → Text → Option Text
after [] s = some s
after (c ∷ prefix) [] = none
after (c ∷ prefix) (x ∷ s) = let rest = after prefix s in if c == x then rest else none

-- The rest of a path under the pattern of a `Route`.
abbrev under : Text → Text → Option Text
under pattern path = if path == pattern then some [] else after (pattern ++ codes "/") path

-- The routes under `/secrets`, where a parameter is one part of a path that is not empty.
abbrev secrets_route : Text → Text → Route
secrets_route method [] =
    by_method (guarded 405)
      ((codes "POST", to_endpoint create_secret [])
        ∷ (codes "GET", to_endpoint list_secrets [])
        ∷ [])
      method
secrets_route method (c ∷ id) =
    if contains (c ∷ id) b'/'
    then guarded 404
    else by_method (guarded 405)
        ((codes "GET", to_endpoint get_secret (c ∷ id))
          ∷ (codes "PUT", to_endpoint update_secret (c ∷ id))
          ∷ (codes "DELETE", to_endpoint delete_secret (c ∷ id))
          ∷ [])
        method

abbrev sync_route : Text → Text → Route
sync_route method [] =
    by_method (guarded 405)
      ((codes "GET", to_endpoint pull_items []) ∷ (codes "POST", to_endpoint push_items []) ∷ [])
      method
sync_route method (c ∷ rest) = guarded 404

-- The routes under `/api`, of a path without escapes.
unfoldable pub route : Text → Text → Route
unfolding after
route method path =
    if path == codes "/api/register"
    then by_method wrong_method ((codes "POST", to_register) ∷ []) method
    else if path == codes "/api/login"
    then by_method wrong_method ((codes "POST", to_login) ∷ []) method
    else if path == codes "/api/me"
    then by_method wrong_method ((codes "GET", to_me) ∷ []) method
    else elim (under (codes "/api/secrets") path) [
      | some id ↦ secrets_route method id
      | none ↦ elim (under (codes "/api/sync") path) [
        | some rest ↦ sync_route method rest
        | none ↦ no_route
      ]
    ]

module _ (u : Unicode) (b : Bcrypt) (j : Jwt) (secret : Bytes) where
  -- The handler of a route, at a time; where there is none the router itself answers.
  unfoldable pub handle : Time → Route → Incoming → Handler Server
  handle now to_register r = register_handler u b j postgres_users r
  handle now to_login r = login_handler u b j postgres_users secret r
  handle now to_me r = serve_me u j secret now r
  handle now (to_endpoint e id) r =
      serve_endpoint u postgres_store j secret now e (record r { id = id })
  handle now (guarded status) r =
      auth_middleware u j secret now r (λ _ w. (success status no_content, w))
  handle now wrong_method r = λ w. (success 405 no_content, w)
  handle now no_route r = λ w. (success 404 no_content, w)
