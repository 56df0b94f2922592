-- ===== src/Client/Http/Calls.antt =====
-- client/api/client.go: `do` and the calls of the client.
pub mod Tokens
use goph_keeper.Base.{
  ℕ, ◌≡◌, Bool, true, false, ◌||◌, Option, none, some, List, [], ◌∷◌, ◌++◌, Text, Bytes, codes, leb,
  is_empty, trim_space, if◌then◌else◌, Outcome, ok, err, Error, failure, Run, ◌>>=◌, ◌>>◌, return,
  raise,
}
use goph_keeper.Models.{Time, Meta, Payload, is_zero}
use goph_keeper.Client.Items.{Stamp, format_time}
use goph_keeper.Client.Device.{Device}
use goph_keeper.Client.Crypto.{Cipher, encrypt, decrypt}
use goph_keeper.Client.Api.{SyncItem}
use goph_keeper.Client.TokenStore
use goph_keeper.Client.Http.{
  SecretRequest, SecretResponse, Body, register_body, login_body, secret_body, push_body, Request,
  Response, Http, is_nil_or_empty, bytes, decrypt_items, encrypt_items,
}

-- What `do` makes of a response, given the decoding of its body.
abbrev pub received : {A : Type 0} → (Response → Outcome A) → Response → Outcome A
received decode r =
    if leb 400 r.status
    then (elim r.read_all [
      | err e ↦ err e
      | ok msg ↦ err (failure (codes "request failed: " ++ trim_space msg))
    ])
    else decode r

-- A call that asks for no body.
abbrev pub ignored : Response → Outcome (Unit {0})
ignored r = ok tt

module _ (H : Http) where
  abbrev pub State : Type 0
  State = Device × H.State

  abbrev pub on_device : {A : Type 0} → Run Device A → Run State A
  on_device m (d, s) = let (x, d') = m d in (x, (d', s))

  abbrev pub sent : Request → Run State Response
  sent request (d, s) = let (x, s') = H.send request s in (x, (d, s'))

  abbrev made : Option Error → Run State (Unit {0})
  made none = return tt
  made (some e) = raise e

  abbrev pub some_token : Outcome Text × Device → Outcome (Option Text) × Device
  some_token (ok token, d) = (ok (some token), d)
  some_token (err e, d) = (err e, d)

  -- The token of a call that needs one.
  abbrev pub token_of : Bool → Run Device (Option Text)
  token_of true d = some_token (TokenStore.load d)
  token_of false d = (ok none, d)

  abbrev pub encoding_error : Option Body → Option Error
  encoding_error none = none
  encoding_error (some body) = H.marshal body

  -- `do`, with the decoding in place of the pointer `out`.
  unfoldable pub do_request :
      {A : Type 0}
      → Text
      → Text
      → Option Stamp
      → Option Body
      → Bool
      → (Response → Outcome A)
      → Run State A
  do_request method path since body auth decode = do
    made (encoding_error body)
    made (H.new_request path)
    token ← on_device (token_of auth)
    r ← sent (record { method = method; path = path; since = since; body = body; token = token })
    λ w. (received decode r, w)

  unfoldable pub register : Text → Text → Run State (Unit {0})
  register email password =
      do_request (codes "POST") (codes "/api/register") none (some (register_body email password))
        false ignored

  abbrev pub save_token : Text → Run State (Unit {0})
  save_token token =
      if is_empty token
      then raise (failure (codes "empty token"))
      else on_device (TokenStore.save token)

  unfoldable pub login : Text → Text → Run State (Unit {0})
  login email password = do
    token ←
        do_request (codes "POST") (codes "/api/login") none (some (login_body email password)) false
          (λ r. r.decode_token)
    save_token token

  module _ (c : Cipher) (crypto : Option Bytes) where
    -- The payload of a request, encrypted if there is a key.
    abbrev sealed_request : Option Bytes → SecretRequest → Run State SecretRequest
    sealed_request none req = return req
    sealed_request (some key) req = if is_nil_or_empty req.payload then return req else do
      sealed ← on_device (encrypt c key (bytes req.payload))
      return (record req { payload = some sealed })

    unfoldable pub create_secret : SecretRequest → Run State SecretResponse
    create_secret req = do
      req' ← sealed_request crypto req
      do_request (codes "POST") (codes "/api/secrets") none (some (secret_body req')) true
          (λ r. r.decode_secret)

    unfoldable pub list_secrets : Run State (List SecretResponse)
    list_secrets =
        do_request (codes "GET") (codes "/api/secrets") none none true (λ r. r.decode_secrets)

    abbrev with_text : SecretResponse → Outcome Bytes → Outcome SecretResponse
    with_text resp (ok text) = ok (record resp { payload = some text })
    with_text resp (err e) = err e

    abbrev opened_response : Option Bytes → SecretResponse → Outcome SecretResponse
    opened_response none resp = ok resp
    opened_response (some key) resp =
        if is_nil_or_empty resp.payload
        then ok resp
        else with_text resp (decrypt c key (bytes resp.payload))

    unfoldable pub get_secret : Text → Run State SecretResponse
    get_secret id = do
      resp ←
          do_request (codes "GET") (codes "/api/secrets/" ++ id) none none true
            (λ r. r.decode_secret)
      λ w. (opened_response crypto resp, w)

    unfoldable pub update_secret : Text → SecretRequest → Run State SecretResponse
    update_secret id req = do
      req' ← sealed_request crypto req
      do_request (codes "PUT") (codes "/api/secrets/" ++ id) none (some (secret_body req')) true
          (λ r. r.decode_secret)

    unfoldable pub delete_secret : Text → Run State (Unit {0})
    delete_secret id =
        do_request (codes "DELETE") (codes "/api/secrets/" ++ id) none none true ignored

    abbrev since_query : Time → Option Stamp
    since_query since = if is_zero since then none else some (format_time since)

    abbrev opened_items : Bool → Option Bytes → List SyncItem → Outcome (List SyncItem)
    opened_items true (some key) items = decrypt_items c key items
    opened_items true none items = ok items
    opened_items false crypto items = ok items

    unfoldable pub sync_pull : Bool → Time → Run State (List SyncItem)
    sync_pull decrypting since = do
      items ←
          do_request (codes "GET") (codes "/api/sync") (since_query since) none true
            (λ r. r.decode_items)
      λ w. (opened_items decrypting crypto items, w)

    abbrev sealed_items : Bool → Option Bytes → List SyncItem → Run State (List SyncItem)
    sealed_items true (some key) items = on_device (encrypt_items c key items)
    sealed_items true none items = return items
    sealed_items false crypto items = return items

    unfoldable pub sync_push : Bool → List SyncItem → Run State ℕ
    sync_push encrypting items = do
      items' ← sealed_items encrypting crypto items
      do_request (codes "POST") (codes "/api/sync") none (some (push_body items')) true
          (λ r. r.decode_applied)
