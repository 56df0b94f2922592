-- ===== src/Exchange/Requests.antt =====
-- What the server makes of the requests of a synchronisation, over the transport.
use goph_keeper.Base.{
  ℕ, ◌≡◌, ◌≢◌, refl, ap, ◌∙◌, true, false, none, some, List, [], ◌∷◌, ◌++◌, map, keep, sort_by,
  insert_by, All, Text, codes, text_eq, text_beq, text_beq_refl, ltb, ◌==◌, trim_space, to_lower,
  ok, arith, Unicode,
}
use goph_keeper.Models.{Time, Secret, Payload, is_zero}
use goph_keeper.Database.{IsUp}
use goph_keeper.Auth.Tokens.{Claims, parse_token}
use goph_keeper.Repository.Secrets.{
  Secrets, SecretRow, put_row, to_micros, of_micros, is_updated_since,
}
use goph_keeper.Repository.Secrets.Keys.{IsTable, put_row-IsTable}
use goph_keeper.Repository.Server.{Server}
use goph_keeper.Repository.PostgresSecrets.Reads.{
  list_updated_since_lem, synced_secret, meta_of-marshal_meta,
}
use goph_keeper.Repository.PostgresSecrets.Upserts.{row_of, bytes}
use goph_keeper.Service.Sync.{push, push_from, pull}
use goph_keeper.Service.Sync.Push.{IsPushable}
use goph_keeper.Service.Postgres.{postgres_store}
use goph_keeper.Service.Postgres.Pushes.{stamped, pushed, push_item_up}
use goph_keeper.Client.Api.{SyncItem}
use goph_keeper.Client.Http.{push_body, Request}
use goph_keeper.Client.ParseMeta.{split}
use goph_keeper.Handlers.Replies.{
  success, items_content, applied_content, bearer, is_json_content_type, auth_middleware,
}
use goph_keeper.Handlers.{handler_of, serve_endpoint, push_handler, pull_handler}
use goph_keeper.Handlers.Router.{route, handle}
use goph_keeper.Exchange.{Link, transport, to_secret, of_secret, response}

-- At a time the server takes the token for one of the user.
abbrev pub Accepts : Link → Time → Text → Text → Type 0
Accepts l now token user_id =
    (bare : Text) × (claims : Claims) × (bearer l.unicode (codes "Bearer " ++ token) ≡ some bare)
    × (parse_token l.jwt l.secret bare now ≡ ok claims)
    × (claims.user_id ≡ user_id)

abbrev push_request : List SyncItem → Text → Request
push_request items token = record {
  method = codes "POST";
  path = codes "/api/sync";
  since = none;
  body = some (push_body items);
  token = some token;
}

abbrev pull_request : Text → Request
pull_request token = record {
  method = codes "GET";
  path = codes "/api/sync";
  since = none;
  body = none;
  token = some token;
}

json_type : (u : Unicode) → is_json_content_type u (codes "application/json") ≡ true
unfolding to_lower split trim_space text_beq
json_type u = refl

module _ (l : Link) (now : Time) (token user_id : Text)
    (accepted : Accepts l now token user_id) where
  pub push_sent :
      (item : SyncItem) (w w' : Server)
      → l.fits (some (push_body (item ∷ []))) ≡ true
      → push postgres_store user_id (to_secret item ∷ []) w ≡ (ok 1, w')
      → (transport l now).send (push_request (item ∷ []) token) w
        ≡ (ok (response l.json (success 200 (applied_content 1))), w')
  unfolding route handle serve_endpoint auth_middleware handler_of push_handler text_beq
  push_sent item w w' fits done =
      let (bare, claims, held, parsed, same) = accepted in
      rw (held, parsed, json_type l.unicode, fits, same, done) refl

  pub pull_sent :
      (items : List Secret) (w w' : Server)
      → pull postgres_store user_id 0 w ≡ (ok items, w')
      → (transport l now).send (pull_request token) w
        ≡ (ok (response l.json (success 200 (items_content items))), w')
  unfolding route handle serve_endpoint auth_middleware handler_of pull_handler text_beq
  pull_sent items w w' done =
      let (bare, claims, held, parsed, same) = accepted in rw (held, parsed, same, done) refl

pub push_one :
    (user_id : Text) (item : Secret) (w : Server)
    → IsUp w.env
    → IsPushable item
    → item.payload ≢ none
    → push postgres_store user_id (item ∷ []) w ≡ (ok 1, pushed user_id item w)
unfolding push push_from
push_one user_id item w up fine full = rw (push_item_up user_id item w up fine full) refl

-- The rows of other owners and other identifiers.
abbrev pub Foreign : Text → Text → SecretRow → Type 0
Foreign user_id id r = (r.owner_id == user_id ≡ false) × (r.id == id ≡ false)

keep-Foreign :
    (user_id id : Text) (since : Time) (rows : Secrets)
    → All (Foreign user_id id) rows
    → keep (is_updated_since user_id since) rows ≡ []
unfolding keep
keep-Foreign user_id id since [] h = refl
keep-Foreign user_id id since (r ∷ rows) ((owner, other), h) =
    rw (owner, keep-Foreign user_id id since rows h) refl

keep-put_row :
    (user_id : Text) (since : Time) (new : SecretRow) (rows : Secrets)
    → All (Foreign user_id new.id) rows
    → is_updated_since user_id since new ≡ true
    → keep (is_updated_since user_id since) (put_row new rows) ≡ new ∷ []
unfolding keep put_row
keep-put_row user_id since new [] h mine = rw mine refl
keep-put_row user_id since new (r ∷ rows) ((owner, other), h) mine =
    rw (other, owner, keep-put_row user_id since new rows h mine) refl

-- The time passes through the database unchanged: it has whole microseconds and is not zero.
abbrev pub IsKept : Time → Type 0
IsKept t = (of_micros (to_micros t) ≡ t) × (is_zero t ≡ false)

some-bytes : (p : Payload) → p ≢ none → some (bytes p) ≡ p
some-bytes none h = absurd (h refl)
some-bytes (some b) h = refl

returned :
    (user_id : Text) (clock : ℕ → Time) (n : ℕ) (item : SyncItem)
    → IsKept item.created_at
    → IsKept item.updated_at
    → item.payload ≢ none
    → of_secret (synced_secret (row_of (stamped user_id clock n (to_secret item)))) ≡ item
returned user_id clock n item (whole, given) (whole', given') full =
    rw (given, given', whole, whole', some-bytes item.payload full, meta_of-marshal_meta item.meta)
      refl

kept_positive : (t : Time) → IsKept t → ltb (to_micros 0) (to_micros t) ≡ true
kept_positive t (whole, given) = ground arith

-- What `ListUpdatedSince` then finds of the user: the item that was pushed.
pub pull_one :
    (user_id : Text) (item : SyncItem) (w : Server)
    → IsUp w.env
    → IsTable w.secrets
    → All (Foreign user_id item.id) w.secrets
    → IsKept item.created_at
    → IsKept item.updated_at
    → item.payload ≢ none
    → (items : List Secret) × (map of_secret items ≡ item ∷ [])
      × ((pull postgres_store user_id 0 (pushed user_id (to_secret item) w)).0 ≡ ok items)
unfolding pull sort_by insert_by
pull_one user_id item w up table foreign made changed full =
    let row = row_of (stamped user_id w.env.clock w.env.ticks (to_secret item)) in
    let mine : is_updated_since user_id 0 row ≡ true =
      rw (text_beq_refl user_id, changed.1) (kept_positive item.updated_at changed) in
    let table' = put_row-IsTable row w.secrets (item.meta, refl) table in
    let found = list_updated_since_lem user_id 0 (pushed user_id (to_secret item) w) up table' in
    (
      synced_secret row ∷ [],
      ap (λ i. i ∷ []) (returned user_id w.env.clock w.env.ticks item made changed full),
      found ∙ rw (keep-put_row user_id 0 row w.secrets foreign mine) refl,
    )
