-- ===== src/Handlers/Laws.antt =====
-- No request changes what an owner has unless it carries a token of this owner.
use goph_keeper.Base.{
  ◌≡◌, refl, ◌≢◌, Bool, true, false, Option, none, some, map, Text, Bytes, is_empty, if◌then◌else◌,
  Outcome, ok, err, not, ◌||◌, ◌==◌, text_eq, codes, is_blank, trim_space, Unicode, Outcome-cases,
  Option-cases, inl, inr, Bool-cases,
}
use goph_keeper.Models.{Time}
use goph_keeper.Auth.Tokens.{Claims, Jwt, parse_token}
use goph_keeper.Service.Secrets.{SecretStore}
use goph_keeper.Service.Isolation.{
  Isolates, Call, create_call, get_call, list_call, update_call, delete_call, pull_call, push_call,
  call, call-keeps,
}
use goph_keeper.Handlers.Replies.{
  is_json_content_type, Incoming, SecretRequest, bearer, Handler, with_body, with_method, with_json,
  with_id, with_since, auth_middleware,
}
use goph_keeper.Handlers.{
  create_reply, update_reply, list_reply, get_reply, delete_reply, pull_reply, push_reply,
  is_nil_or_empty, unowned, with_contents, create_handler, list_handler, get_handler,
  update_handler, delete_handler, pull_handler, push_handler, Endpoint, create_secret, list_secrets,
  get_secret, update_secret, delete_secret, pull_items, push_items, handler_of, serve_endpoint,
}

module _ (u : Unicode) (S : SecretStore) (L : Isolates S) (o : Text) where
  -- The handler leaves what the owner has as it was.
  abbrev Keeps : Handler S.State → Type 0
  Keeps h = (w : S.State) → L.rows_of o (h w).1 ≡ L.rows_of o w

  if-Keeps : (b : Bool) (h k : Handler S.State) → Keeps h → Keeps k → Keeps (if b then h else k)
  if-Keeps true h k p q = p
  if-Keeps false h k p q = q

  method-Keeps :
      (m : Text) (r : Incoming) (next : Handler S.State) → Keeps next → Keeps (with_method m r next)
  method-Keeps m r next k = if-Keeps (not (r.method == m)) _ next (λ w. refl) k

  json-Keeps : (r : Incoming) (next : Handler S.State) → Keeps next → Keeps (with_json u r next)
  json-Keeps r next k = if-Keeps (not (is_json_content_type u r.content_type)) _ next (λ w. refl) k

  id-Keeps : (r : Incoming) (next : Handler S.State) → Keeps next → Keeps (with_id r next)
  id-Keeps r next k = if-Keeps (is_blank r.id) _ next (λ w. refl) k

  body-Keeps :
      {A : Type 0} (body : Outcome A) (next : A → Handler S.State)
      → ((a : A) → Keeps (next a))
      → Keeps (with_body body next)
  body-Keeps (ok a) next k = k a
  body-Keeps (err e) next k = λ w. refl

  since-Keeps :
      (since : Option (Outcome Time)) (next : Time → Handler S.State)
      → ((t : Time) → Keeps (next t))
      → Keeps (with_since since next)
  since-Keeps none next k = k 0
  since-Keeps (some (ok t)) next k = k t
  since-Keeps (some (err e)) next k = λ w. refl

  contents-Keeps :
      (req : SecretRequest) (next : Text → Handler S.State)
      → ((t : Text) → Keeps (next t))
      → Keeps (with_contents req next)
  contents-Keeps req next k =
      if-Keeps (is_empty (trim_space req.type) || is_nil_or_empty req.payload) _
        (next (trim_space req.type)) (λ w. refl) (k (trim_space req.type))

  module _ (claims : Claims) (other : claims.user_id ≢ o) where
    served : (c : Call) (w : S.State) → L.rows_of o (call S claims.user_id c w) ≡ L.rows_of o w
    served c w = call-keeps S L o claims.user_id other c w

    create-Keeps : (r : Incoming) → Keeps (create_handler u S r (some claims))
    unfolding create_handler call
    create-Keeps r =
        let contents = λ (req : SecretRequest). with_contents req (create_reply u S claims req) in
        let body = with_body r.secret contents in
        method-Keeps (codes "POST") r (with_json u r body) (
          json-Keeps r body (
            body-Keeps r.secret contents (λ req.
              contents-Keeps req (create_reply u S claims req)
                (λ type. served (create_call type req.payload req.meta)))))

    update-Keeps : (r : Incoming) → Keeps (update_handler u S r (some claims))
    unfolding update_handler call
    update-Keeps r =
        let contents =
          λ (req : SecretRequest). with_contents req (update_reply u S claims r.id req) in
        let body = with_body r.secret contents in
        method-Keeps (codes "PUT") r (with_json u r (with_id r body)) (
          json-Keeps r (with_id r body) (
            id-Keeps r body (
              body-Keeps r.secret contents (λ req.
                contents-Keeps req (update_reply u S claims r.id req)
                  (λ type. served (update_call r.id type req.payload req.meta))))))

    handler_of-Keeps : (e : Endpoint) (r : Incoming) → Keeps (handler_of u S e r (some claims))
    unfolding handler_of list_handler get_handler delete_handler pull_handler push_handler call
    handler_of-Keeps create_secret r = create-Keeps r
    handler_of-Keeps list_secrets r =
        method-Keeps (codes "GET") r (list_reply u S claims) (served list_call)
    handler_of-Keeps get_secret r =
        let reply = get_reply u S claims r.id in
        method-Keeps (codes "GET") r (with_id r reply) (id-Keeps r reply (served (get_call r.id)))
    handler_of-Keeps update_secret r = update-Keeps r
    handler_of-Keeps delete_secret r =
        let reply = delete_reply u S claims r.id in
        method-Keeps (codes "DELETE") r (with_id r reply)
          (id-Keeps r reply (served (delete_call r.id)))
    handler_of-Keeps pull_items r =
        let reply = pull_reply u S claims in
        method-Keeps (codes "GET") r (with_since r.since reply)
          (since-Keeps r.since reply (λ since. served (pull_call since)))
    handler_of-Keeps push_items r =
        let reply = push_reply u S claims in
        let body = with_body r.items reply in
        method-Keeps (codes "POST") r (with_json u r body) (
          json-Keeps r body
            (body-Keeps r.items reply (λ items. served (push_call (map unowned items)))))

  -- Whatever a request asks, in whichever state, an owner's rows stay as they are unless the header
  -- of the request has a token that parses to claims of this owner, if the store keeps owners
  -- apart.
  pub serve_endpoint-keeps :
      (j : Jwt) (secret : Bytes) (now : Time) (e : Endpoint) (r : Incoming) (w : S.State)
      → ((token : Text) (claims : Claims)
          → bearer u r.authorization ≡ some token
          → parse_token j secret token now ≡ ok claims
          → claims.user_id ≢ o)
      → L.rows_of o (serve_endpoint u S j secret now e r w).1 ≡ L.rows_of o w
  unfolding serve_endpoint auth_middleware
  serve_endpoint-keeps j secret now e r w foreign = elim (Bool-cases (is_empty r.authorization)) [
    | inl empty ↦ rw empty refl
    | inr given ↦ elim (Option-cases (bearer u r.authorization)) [
      | inl malformed ↦ rw (given, malformed) refl
      | inr (token, found) ↦ elim (Outcome-cases (parse_token j secret token now)) [
        | inr (x, refused) ↦ rw (given, found, refused) refl
        | inl (claims, parsed) ↦
            rw (given, found, parsed)
              (handler_of-Keeps claims (foreign token claims found parsed) e r w)
      ]
    ]
  ]
