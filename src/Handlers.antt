-- ===== src/Handlers.antt =====
-- internal/handlers: the handlers of secrets and of the synchronisation, over any store of secrets.
pub mod Replies
pub mod Accounts
pub mod Laws
pub mod Router
use goph_keeper.Base.{
  ℕ, Bool, true, false, not, ◌&&◌, ◌||◌, Option, none, some, List, [], ◌∷◌, map, Text, Bytes, codes,
  text_eq, ◌==◌, is_empty, is_blank, trim_space, Unicode, to_lower, if◌then◌else◌, Outcome, ok, err,
  Error, is_error, sentinel, err_secret_not_found, err_sync_invalid_id, err_sync_invalid_type, Run,
}
use goph_keeper.Models.{Time, Meta, Payload, Secret}
use goph_keeper.Auth.Tokens.{Claims, Jwt, parse_token}
use goph_keeper.Client.ParseMeta.{split, cut}
use goph_keeper.Handlers.Replies.{
  SecretRequest, Incoming, Answer, refusal, success, error_text, secret_content, secrets_content,
  items_content, applied_content, no_content, Handler, refuse, replied, with_claims, with_body,
  with_method, with_json, with_id, with_since, auth_middleware,
}
use goph_keeper.Service.Secrets as SecretService
use goph_keeper.Service.Secrets.{SecretStore}
use goph_keeper.Service.Sync.{pull, push}

-- `ErrSecretNotFound` is 404 and any other error 500.
abbrev not_found_or : Text → Error → Answer
not_found_or text e =
    if is_error e err_secret_not_found then refusal 404 (codes "not found") else refusal 500 text

-- `err.Error()` of the two errors of validation.
abbrev push_failed : Error → Answer
push_failed e =
    if is_error e err_sync_invalid_id
    then refusal 400 (codes "id is required")
    else if is_error e err_sync_invalid_type
    then refusal 400 (codes "type is required")
    else refusal 500 (codes "sync push failed")

abbrev pub is_nil_or_empty : Payload → Bool
is_nil_or_empty none = true
is_nil_or_empty (some b) = is_empty b

-- The items of a request carry no owner.
abbrev unowned : Secret → Secret
unowned s = record s { owner_id = [] }

abbrev pub with_contents : {W : Type 0} → SecretRequest → (Text → Handler W) → Handler W
with_contents req next =
    let type = trim_space req.type in
    if is_empty type || is_nil_or_empty req.payload
    then refuse 400 (codes "type and payload are required")
    else next type

module _ (u : Unicode) (S : SecretStore) where
  abbrev pub create_reply : Claims → SecretRequest → Text → Handler S.State
  create_reply claims req type =
      replied (λ s. success 201 (secret_content s)) (λ e. refusal 500 (codes "create failed"))
        (SecretService.create S claims.user_id type req.payload req.meta)

  unfoldable pub create_handler : Incoming → Option Claims → Handler S.State
  create_handler r context = with_method (codes "POST") r (
      with_json u r (
        with_claims context
          (λ claims. with_body r.secret (λ req. with_contents req (create_reply claims req)))))

  abbrev pub list_reply : Claims → Handler S.State
  list_reply claims =
      replied (λ l. success 200 (secrets_content l)) (λ e. refusal 500 (codes "list failed"))
        (SecretService.list S claims.user_id)

  unfoldable pub list_handler : Incoming → Option Claims → Handler S.State
  list_handler r context = with_method (codes "GET") r (with_claims context list_reply)

  abbrev pub get_reply : Claims → Text → Handler S.State
  get_reply claims id =
      replied (λ s. success 200 (secret_content s)) (not_found_or (codes "get failed"))
        (SecretService.get S claims.user_id id)

  unfoldable pub get_handler : Incoming → Option Claims → Handler S.State
  get_handler r context =
      with_method (codes "GET") r
        (with_claims context (λ claims. with_id r (get_reply claims r.id)))

  abbrev pub update_reply : Claims → Text → SecretRequest → Text → Handler S.State
  update_reply claims id req type =
      replied (λ s. success 200 (secret_content s)) (not_found_or (codes "update failed"))
        (SecretService.update S claims.user_id id type req.payload req.meta)

  unfoldable pub update_handler : Incoming → Option Claims → Handler S.State
  update_handler r context = with_method (codes "PUT") r (
      with_json u r (
        with_claims context (λ claims.
          with_id r
            (with_body r.secret (λ req. with_contents req (update_reply claims r.id req))))))

  abbrev pub delete_reply : Claims → Text → Handler S.State
  delete_reply claims id =
      replied (λ _. success 204 no_content) (not_found_or (codes "delete failed"))
        (SecretService.delete S claims.user_id id)

  unfoldable pub delete_handler : Incoming → Option Claims → Handler S.State
  delete_handler r context =
      with_method (codes "DELETE") r
        (with_claims context (λ claims. with_id r (delete_reply claims r.id)))

  abbrev pub pull_reply : Claims → Time → Handler S.State
  pull_reply claims since =
      replied (λ l. success 200 (items_content l)) (λ e. refusal 500 (codes "sync pull failed"))
        (pull S claims.user_id since)

  unfoldable pub pull_handler : Incoming → Option Claims → Handler S.State
  pull_handler r context =
      with_method (codes "GET") r
        (with_claims context (λ claims. with_since r.since (pull_reply claims)))

  abbrev pub push_reply : Claims → List Secret → Handler S.State
  push_reply claims items =
      replied (λ n. success 200 (applied_content n)) push_failed
        (push S claims.user_id (map unowned items))

  unfoldable pub push_handler : Incoming → Option Claims → Handler S.State
  push_handler r context =
      with_method (codes "POST") r
        (with_json u r (with_claims context (λ claims. with_body r.items (push_reply claims))))

-- The endpoints behind the middleware.
pub data Endpoint : Type 0 where
  create_secret list_secrets get_secret update_secret delete_secret pull_items push_items : Endpoint

module _ (u : Unicode) (S : SecretStore) where
  unfoldable pub handler_of : Endpoint → Incoming → Option Claims → Handler S.State
  handler_of create_secret = create_handler u S
  handler_of list_secrets = list_handler u S
  handler_of get_secret = get_handler u S
  handler_of update_secret = update_handler u S
  handler_of delete_secret = delete_handler u S
  handler_of pull_items = pull_handler u S
  handler_of push_items = push_handler u S

  -- A request to an endpoint, as `NewRouter` puts the middleware in front of it.
  unfoldable pub serve_endpoint : Jwt → Bytes → Time → Endpoint → Incoming → Handler S.State
  serve_endpoint j secret now e r = auth_middleware u j secret now r (handler_of e r)
