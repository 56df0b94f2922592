-- ===== src/Client/Http.antt =====
-- client/api/client.go: the client of the server's API, over any transport. Its state is the device
-- with the state of the transport.
pub mod Payloads
pub mod Calls
pub mod Construct
use goph_keeper.Base.{
  ℕ, ◌≡◌, Bool, true, false, ◌||◌, Option, none, some, List, [], ◌∷◌, ◌++◌, Text, Bytes, codes, leb,
  is_empty, trim_space, if◌then◌else◌, Outcome, ok, err, Error, failure, Run, ◌>>=◌, ◌>>◌, return,
  raise,
}
use goph_keeper.Models.{Time, Meta, Payload, is_zero}
use goph_keeper.Client.Items.{Stamp, format_time}
use goph_keeper.Client.Device.{Device}
use goph_keeper.Client.Crypto.{Cipher, encrypt, decrypt}
use goph_keeper.Client.Api.{SyncItem}
use goph_keeper.Client.TokenStore

pub record SecretRequest : Type 0 where
  pub type : Text
  pub payload : Payload
  pub meta : Meta

pub record SecretResponse : Type 0 where
  pub id : Text
  pub type : Text
  pub payload : Payload
  pub meta : Meta
  pub created_at : Time
  pub updated_at : Time

-- The bodies that the client sends, before their JSON encoding.
pub data Body : Type 0 where
  register_body : Text → Text → Body
  login_body : Text → Text → Body
  secret_body : SecretRequest → Body
  push_body : List SyncItem → Body

-- `since` is the query of a pull, `token` that of the header `Authorization`.
pub record Request : Type 0 where
  pub method : Text
  pub path : Text
  pub since : Option Stamp
  pub body : Option Body
  pub token : Option Text

-- A response: its body as a text, and what it decodes to as each type that the client asks for.
pub record Response : Type 0 where
  pub status : ℕ
  pub read_all : Outcome Text
  pub decode_token : Outcome Text
  pub decode_secret : Outcome SecretResponse
  pub decode_secrets : Outcome (List SecretResponse)
  pub decode_items : Outcome (List SyncItem)
  pub decode_applied : Outcome ℕ

-- The error of `json.Marshal`, which a time past the year 9999 has, `http.NewRequestWithContext`,
-- which fails on a path that makes no URL, and `http.Client.Do`.
pub record Http : Type 1 where
  pub State : Type 0
  pub marshal : Body → Option Error
  pub new_request : Text → Option Error
  pub send : Request → Run State Response

abbrev pub is_nil_or_empty : Payload → Bool
is_nil_or_empty none = true
is_nil_or_empty (some b) = is_empty b

abbrev pub bytes : Payload → Bytes
bytes none = []
bytes (some b) = b

module _ (c : Cipher) where
  abbrev pub with_payload : SyncItem → Bytes → SyncItem
  with_payload item text = record item { payload = some text }

  abbrev pub then_item :
      (Bytes → SyncItem) → Outcome Bytes → Outcome (List SyncItem) → Outcome (List SyncItem)
  then_item f (err e) rest = err e
  then_item f (ok text) (err e) = err e
  then_item f (ok text) (ok items) = ok (f text ∷ items)

  -- The loop of `syncPull`: deleted items and empty payloads stay as they are.
  unfoldable pub decrypt_items : Bytes → List SyncItem → Outcome (List SyncItem)
  decrypt_items key [] = ok []
  decrypt_items key (item ∷ items) =
      let rest = decrypt_items key items in
      if item.deleted || is_nil_or_empty item.payload
      then then_item (λ _. item) (ok []) rest
      else then_item (with_payload item) (decrypt c key (bytes item.payload)) rest

  abbrev pub encrypt_item : Bytes → SyncItem → Run Device SyncItem
  encrypt_item key item =
      if item.deleted || is_nil_or_empty item.payload
      then return item
      else do sealed ← encrypt c key (bytes item.payload); return (with_payload item sealed)

  -- The loop of `syncPush`.
  unfoldable pub encrypt_items : Bytes → List SyncItem → Run Device (List SyncItem)
  encrypt_items key [] = return []
  encrypt_items key (item ∷ items) = do
    sealed ← encrypt_item key item
    rest ← encrypt_items key items
    return (sealed ∷ rest)
