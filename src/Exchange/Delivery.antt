-- ===== src/Exchange/Delivery.antt =====
-- What one device pushes, another pulls: both clients of the API against the server.
use mathlib.Core.Option.{none-ne-some}
use goph_keeper.Base.{
  ◌≡◌, ◌≢◌, subst, Option, refl, sym, ap, ◌∙◌, Bool-cases, inl, inr, true, ◌||◌, none, some, List,
  [], ◌∷◌, All, Text, Bytes, codes, text_eq, ok, ok-injective, continue, continue-eq-ok, ◌>>=◌,
  return, Outcome,
}
use goph_keeper.Models.{Time}
use goph_keeper.Database.{IsUp}
use goph_keeper.Repository.Secrets.Keys.{IsTable}
use goph_keeper.Repository.Server.{Server}
use goph_keeper.Service.Sync.{pull}
use goph_keeper.Service.Sync.Push.{IsPushable}
use goph_keeper.Service.Postgres.{postgres_store}
use goph_keeper.Service.Postgres.Pushes.{pushed}
use goph_keeper.Client.Device.{Device}
use goph_keeper.Client.Crypto.{Cipher, encrypt}
use goph_keeper.Client.TokenStore
use goph_keeper.Client.Api.{SyncItem}
use goph_keeper.Client.Http
use goph_keeper.Client.Http.{
  Body, push_body, Request, Response, Http, is_nil_or_empty, encrypt_item, encrypt_items,
  decrypt_items,
}
use goph_keeper.Client.Http.Payloads.{decrypt_items-encrypt_items}
use goph_keeper.Client.Http.Calls.{received, encoding_error, do_request, sync_push, sync_pull}
use goph_keeper.Exchange.{Link, transport, to_secret}
use goph_keeper.Exchange.Requests.{
  Accepts, Foreign, IsKept, push_sent, pull_sent, push_one, pull_one,
}

sealed_fields :
    (c : Cipher) (key : Bytes) (item sealed : SyncItem) (d : Device)
    → (encrypt_item c key item d).0 ≡ ok sealed
    → item.payload ≢ none
    → (record item { payload = sealed.payload } ≡ sealed) × (sealed.payload ≢ none)
sealed_fields c key item sealed d done full =
    elim (Bool-cases (item.deleted || is_nil_or_empty item.payload)) [
      | inl plain ↦
          let same : item ≡ sealed = ok-injective item sealed (rw plain at done) in
          (rw (sym same) refl, λ h. full (ap (λ i. i.payload) same ∙ h))
      | inr closed ↦
          let (text, _, next, _) =
            continue-eq-ok _ (encrypt c key (Http.bytes item.payload) d) (rw closed at done) in
          let same : record item { payload = some text } ≡ sealed = ok-injective _ sealed next in
          (rw (sym same) refl, λ h. none-ne-some text (sym (ap (λ i. i.payload) same ∙ h)))
    ]

encrypt_one :
    (c : Cipher) (key : Bytes) (item sealed : SyncItem) (d : Device)
    → (encrypt_item c key item d).0 ≡ ok sealed
    → encrypt_items c key (item ∷ []) d ≡ (ok (sealed ∷ []), (encrypt_item c key item d).1)
unfolding encrypt_items
encrypt_one c key item sealed d done =
    ap (λ x. continue {B = List SyncItem} (λ s. do rest ← return []; return (s ∷ rest)) x)
      (ap (λ x. (x, (encrypt_item c key item d).1)) done)

-- The transport of an HTTP client that sends: what a call makes of the answer.
answered :
    {A : Type 0} (H : Http) (method path : Text) (body : Option Body)
    (decode : Response → Outcome A) (token : Text) (r : Response) (d : Device) (s s' : H.State)
    → encoding_error H body ≡ none
    → H.new_request path ≡ none
    → (TokenStore.load d).0 ≡ ok token
    → H.send
        (record { method = method; path = path; since = none; body = body; token = some token })
        s
      ≡ (ok r, s')
    → do_request H method path none body true decode (d, s)
      ≡ (received decode r, ((TokenStore.load d).1, s'))
unfolding do_request
answered H method path body decode token r d s s' encodes makes loads sends =
    rw (encodes, makes, loads, sends) refl

-- A secret that one device pushes, encrypted, to an account of the server that has none is what
-- another device with the same key pulls, decrypted: the push counts one item, and the pull from
-- the beginning returns exactly the item as it was. Each device has a token that the server takes
-- for the user at the time of its call, the table is sound and has no row of the user or of the
-- item's identifier, the database answers, the item is one that the push accepts and has a
-- payload, its times have whole microseconds and are not zero, the encryption succeeds, the
-- request can be encoded and fits into the limit.
pub sync_pull-sync_push :
    (l : Link) (c : Cipher) (key : Bytes) (user_id : Text) (item sealed : SyncItem)
    (token token' : Text) (now now' : Time) (d d' : Device) (w : Server)
    → IsUp w.env
    → IsTable w.secrets
    → All (Foreign user_id item.id) w.secrets
    → l.new_request (codes "/api/sync") ≡ none
    → Accepts l now token user_id
    → Accepts l now' token' user_id
    → IsPushable (to_secret item)
    → IsKept item.created_at
    → IsKept item.updated_at
    → item.payload ≢ none
    → (encrypt_item c key item d).0 ≡ ok sealed
    → l.marshal (push_body (sealed ∷ [])) ≡ none
    → l.fits (some (push_body (sealed ∷ []))) ≡ true
    → (TokenStore.load (encrypt_item c key item d).1).0 ≡ ok token
    → (TokenStore.load d').0 ≡ ok token'
    → let pushing = sync_push (transport l now) c (some key) true (item ∷ []) (d, w) in
      (pushing.0 ≡ ok 1)
      × ((sync_pull (transport l now') c (some key) true 0 (d', pushing.1.1)).0 ≡ ok (item ∷ []))
unfolding sync_push sync_pull
sync_pull-sync_push l c key user_id item sealed token token' now now' d d' w up table foreign makes
      accepted accepted' pushable made changed full sealing encodes fits loads loads' =
    let (fields, full') = sealed_fields c key item sealed d sealing full in
    let w' = pushed user_id (to_secret sealed) w in
    let fine' = subst (λ i. IsPushable (to_secret i)) fields pushable in
    let sends =
      push_sent l now token user_id accepted sealed w w' fits
        (push_one user_id (to_secret sealed) w up fine' full') in
    let counted =
      answered (transport l now) (codes "POST") (codes "/api/sync") (some (push_body (sealed ∷ [])))
        (λ r. r.decode_applied) token _ (encrypt_item c key item d).1 w w' encodes makes loads
        sends in
    let (items, same, found) =
      pull_one user_id sealed w up table
        (subst (λ i. All (Foreign user_id i.id) w.secrets) fields foreign)
        (subst (λ i. IsKept i.created_at) fields made)
        (subst (λ i. IsKept i.updated_at) fields changed) full' in
    let w'' = (pull postgres_store user_id 0 w').1 in
    let sends' =
      pull_sent l now' token' user_id accepted' items w' w'' (ap (λ x. (x, w'')) found) in
    let listed =
      answered (transport l now') (codes "GET") (codes "/api/sync") none (λ r. r.decode_items)
        token' _ d' w' w'' refl makes loads' sends' in
    let encrypts = encrypt_one c key item sealed d sealing in
    let opens =
      decrypt_items-encrypt_items c key (item ∷ []) (sealed ∷ []) d (ap (λ x. x.0) encrypts) in
    (rw (encrypts, counted) refl, rw (encrypts, counted, listed, same) opens)
