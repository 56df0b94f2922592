-- ===== src/Client/Service.antt =====
-- client/service/service.go, over any API client. The service's state is the device with the
-- state of the API client.
pub mod Secrets
pub mod Deletes
use goph_keeper.Base.{
  ℕ, Bool, true, false, not, ◌||◌, Option, none, some, List, [], ◌∷◌, map, Text, Bytes, codes,
  is_empty, is_blank, trim_space, hex_encode, if◌then◌else◌, Outcome, ok, err, Error, failure,
  is_error, err_sync_not_found, Run, continue, ◌>>=◌, ◌>>◌, return, raise,
}
use goph_keeper.Models.{Time, Meta, Payload}
use goph_keeper.Client.Items.{Item}
use goph_keeper.Client.LocalRows.{deleted_type}
use goph_keeper.Client.Device.{Device, now, random_bytes}
use goph_keeper.Client.Crypto.{Cipher, encrypt, decrypt}
use goph_keeper.Client.ParseMeta.{parse_meta}
use goph_keeper.Client.LocalStore
use goph_keeper.Client.LocalStore.{list_dirty, mark_clean, apply_remote}
use goph_keeper.Client.SyncStore

-- `NewID`.
unfoldable pub new_id : Run Device Text
new_id = do b ← random_bytes 16; return (hex_encode b)

-- `NewID` may be replaced in a service; `s.crypto == nil` is a key that is not there.
module _ (c : Cipher) (crypto : Option Bytes) where
  abbrev no_password : Error
  no_password = failure (codes "master password is required")

  -- `s.crypto`, or the error where it is nil.
  abbrev crypto_key : Option Bytes → Run Device Bytes
  crypto_key none = raise no_password
  crypto_key (some key) = return key

  -- The end of `Add` and `Update`: the encryption of the payload and the write.
  abbrev pub put_encrypted : Bytes → Bytes → Item → Run Device Text
  put_encrypted key payload item = do
    sealed ← encrypt c key payload
    LocalStore.upsert (record item { payload = some sealed }) true
    return item.id

  unfoldable pub add : Text → Text → Text → Run Device Text
  unfolding new_id
  add secret_type payload meta =
      let type = trim_space secret_type in
      if is_empty type || is_empty payload
      then raise (failure (codes "type and payload are required"))
      else do
        key ← crypto_key crypto
        id ← new_id
        at ← now
        put_encrypted key payload (record {
          id = id;
          type = type;
          payload = some payload;
          meta = some (parse_meta meta);
          deleted = false;
          created_at = at;
          updated_at = at;
        })

  unfoldable pub list : Run Device (List Item)
  list = LocalStore.list false

  abbrev with_payload : Item → Outcome Bytes → Outcome Item
  with_payload item (ok text) = ok (record item { payload = some text })
  with_payload item (err e) = err e

  abbrev is_nil_or_empty : Payload → Bool
  is_nil_or_empty none = true
  is_nil_or_empty (some b) = is_empty b

  abbrev sealed_of : Payload → Bytes
  sealed_of none = []
  sealed_of (some b) = b

  abbrev pub decrypted : Bytes → Item → Outcome Item
  decrypted key item =
      if is_nil_or_empty item.payload
      then ok item
      else with_payload item (decrypt c key (sealed_of item.payload))

  unfoldable pub get : Text → Run Device Item
  get id =
      if is_blank id
      then raise (failure (codes "id is required"))
      else do secret ← LocalStore.get id; key ← crypto_key crypto; λ d. (decrypted key secret, d)

  -- The time of creation of an item that `Get` finds; any error of it counts as none.
  abbrev pub created_or : Time → Outcome Item → Time
  created_or t (ok item) = item.created_at
  created_or t (err e) = t

  unfoldable pub update : Text → Text → Text → Text → Run Device Text
  update id secret_type payload meta =
      if is_blank id || is_blank secret_type || is_empty payload
      then raise (failure (codes "id, type and payload are required"))
      else do
        key ← crypto_key crypto
        at ← now
        existing ← λ d. let (found, d') = LocalStore.get id d in (ok found, d')
        changed ← now
        put_encrypted key payload (record {
          id = id;
          type = trim_space secret_type;
          payload = some payload;
          meta = some (parse_meta meta);
          deleted = false;
          created_at = created_or at existing;
          updated_at = changed;
        })

-- The item that `Delete` writes over what `Get` found.
abbrev pub removed : Text → Time → Time → Outcome Item → Item
removed id at changed (ok item) = record {
  id = id;
  type = item.type;
  payload = item.payload;
  meta = none;
  deleted = true;
  created_at = item.created_at;
  updated_at = changed;
}
removed id at changed (err e) = record {
  id = id;
  type = deleted_type;
  payload = none;
  meta = none;
  deleted = true;
  created_at = at;
  updated_at = changed;
}

unfoldable pub delete : Text → Run Device (Unit {0})
delete id = if is_blank id then raise (failure (codes "id is required")) else do
  at ← now
  existing ← λ d. let (found, d') = LocalStore.get id d in (ok found, d')
  changed ← now
  LocalStore.upsert (removed id at changed existing) true
