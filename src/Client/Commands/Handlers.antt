-- ===== src/Client/Commands/Handlers.antt =====
-- cmd/client/main.go: the handlers of the commands.
use goph_keeper.Base.{
  Bool, Option, none, some, List, [], ◌∷◌, ◌++◌, map, length, Text, Bytes, codes, trim_space,
  if◌then◌else◌, pos, decimal,
}
use goph_keeper.Client.Items.{Item, format_time}
use goph_keeper.Client.Crypto.{Cipher}
use goph_keeper.Client.Api.{Api, SyncItem}
use goph_keeper.Client.Service
use goph_keeper.Client.Sync
use goph_keeper.Client.Sync.{State, on_device}
use goph_keeper.Client.Flags.{FlagSet, text_value, value_of}
use goph_keeper.Client.Commands.{
  Line, text_line, list_line, secret_line, sync_line, Command, reporting, with_flags,
}

abbrev pub text_flags : List Text → FlagSet
text_flags [] = []
text_flags (name ∷ names) = (name, text_value) ∷ text_flags names

abbrev pub account_flags : FlagSet
account_flags = text_flags (codes "email" ∷ codes "password" ∷ [])

abbrev pub add_flags : FlagSet
add_flags = text_flags (codes "type" ∷ codes "payload" ∷ codes "meta" ∷ [])

abbrev pub id_flags : FlagSet
id_flags = text_flags (codes "id" ∷ [])

abbrev pub update_flags : FlagSet
update_flags = text_flags (codes "id" ∷ codes "type" ∷ codes "payload" ∷ codes "meta" ∷ [])

-- `string(secret.Payload)`.
abbrev pub payload_text : Option Bytes → Text
payload_text none = []
payload_text (some b) = b

abbrev pub list_line_of : Item → Line
list_line_of s = list_line s.id s.type (format_time s.updated_at)

abbrev pub secret_line_of : Item → Line
secret_line_of s =
    secret_line s.id s.type (trim_space (payload_text s.payload)) s.meta (format_time s.updated_at)

abbrev sync_line_of : SyncItem → Line
sync_line_of item =
    sync_line item.id item.type (if item.deleted then codes "deleted" else codes "active")
      (format_time item.updated_at)

abbrev sync_lines : List SyncItem → List Line
sync_lines items =
    map sync_line_of items
    ++ text_line (codes "synced " ++ decimal (pos (length items)) ++ codes " items") ∷ []

module _ (A : Api) where
  unfoldable pub handle_register : List Text → Command A
  handle_register args = with_flags account_flags args (λ values.
      reporting (codes "register error")
        (Sync.register A (value_of values (codes "email")) (value_of values (codes "password")))
        (λ _. text_line (codes "registered") ∷ []))

  unfoldable pub handle_login : List Text → Command A
  handle_login args = with_flags account_flags args (λ values.
      reporting (codes "login error")
        (Sync.login A (value_of values (codes "email")) (value_of values (codes "password")))
        (λ _. text_line (codes "logged in") ∷ []))

  unfoldable pub handle_delete : List Text → Command A
  handle_delete args = with_flags id_flags args (λ values.
      reporting (codes "delete error") (on_device A (Service.delete (value_of values (codes "id"))))
        (λ _. text_line (codes "deleted") ∷ []))

  -- The push and the pull of a synchronisation run at the same time: `push_first` says which of
  -- them the server meets first.
  unfoldable pub handle_sync : Bool → Command A
  handle_sync push_first = reporting (codes "sync error") (Sync.sync A push_first) sync_lines

  module _ (c : Cipher) (crypto : Option Bytes) where
    unfoldable pub handle_add : List Text → Command A
    handle_add args = with_flags add_flags args (λ values.
        reporting (codes "add error")
          (on_device A (
            Service.add c crypto (value_of values (codes "type"))
              (value_of values (codes "payload")) (value_of values (codes "meta"))))
          (λ id. text_line id ∷ []))

    unfoldable pub handle_list : Command A
    handle_list =
        reporting (codes "list error") (on_device A (Service.list c crypto)) (map list_line_of)

    unfoldable pub handle_get : List Text → Command A
    handle_get args = with_flags id_flags args (λ values.
        reporting (codes "get error")
          (on_device A (Service.get c crypto (value_of values (codes "id"))))
          (λ s. secret_line_of s ∷ []))

    unfoldable pub handle_update : List Text → Command A
    handle_update args = with_flags update_flags args (λ values.
        reporting (codes "update error")
          (on_device A (
            Service.update c crypto (value_of values (codes "id")) (value_of values (codes "type"))
              (value_of values (codes "payload")) (value_of values (codes "meta"))))
          (λ id. text_line id ∷ []))
