-- ===== src/Client/Ui.antt =====
-- client/ui/ui.go: what the terminal interface does. The state is what its forms and menu entries
-- share; drawing is left to the library tview. Each handler is one step: the goroutines of the list
-- and of the synchronisation are taken to end before the next handler starts.
pub mod Reachable
pub mod Sealed
pub mod Syncing
use goph_keeper.Base.{
  ℕ, Bool, true, false, Option, none, some, List, [], ◌∷◌, ◌++◌, map, length, Text, Bytes, codes,
  text_eq, ◌==◌, is_empty, trim_space, hex_encode, if◌then◌else◌, ℤ, pos, decimal, Outcome, ok, err,
  Error, message, Run, ◌>>=◌, ◌>>◌, return,
}
use goph_keeper.Models.{Time}
use goph_keeper.Client.Items.{Item}
use goph_keeper.Client.Device.{Device, now, random_bytes}
use goph_keeper.Client.Crypto.{Cipher, new_crypto, encrypt, decrypt}
use goph_keeper.Client.ParseMeta.{parse_meta}
use goph_keeper.Client.LocalStore
use goph_keeper.Client.LocalStore.{list_dirty, mark_clean, apply_remote}
use goph_keeper.Client.SyncStore
use goph_keeper.Client.Api.{Api, SyncItem, to_sync_items, from_sync_items}
use goph_keeper.Client.Sync.{State, on_device, on_api, load_since}

-- What lies over the menu: nothing or a form, the list of secrets, or a secret with the text that
-- is shown of its payload.
pub data Screen : Type 0 where
  menu : Screen
  secrets_screen : List Item → Screen
  secret_screen : Item → Text → Screen

-- `newLocalID`.
unfoldable pub new_local_id : Run Device Text
new_local_id = do b ← random_bytes 16; return (hex_encode b)

-- The item of the button "Add".
abbrev pub new_item : Text → Text → Bytes → Text → Time → Item
new_item id type payload meta at = record {
  id = id;
  type = type;
  payload = some payload;
  meta = some (parse_meta meta);
  deleted = false;
  created_at = at;
  updated_at = at;
}

module _ (c : Cipher) where
  -- The payload as it is stored, and as it is shown: encrypted if there is a key.
  abbrev pub encrypted : Option Bytes → Bytes → Run Device Bytes
  encrypted none payload = return payload
  encrypted (some key) payload = encrypt c key payload

  abbrev pub put_sealed : Option Bytes → Bytes → Item → Run Device Text
  put_sealed crypto payload item = do
    sealed ← encrypted crypto payload
    LocalStore.upsert (record item { payload = some sealed }) true
    return item.id

  -- The handler of the button "Add" after its test.
  unfoldable pub add_item : Option Bytes → Text → Text → Text → Run Device Text
  add_item crypto type payload meta = do
    id ← new_local_id
    at ← now
    put_sealed crypto payload (new_item id type payload meta at)

  abbrev pub payload_of : Item → Bytes
  payload_of item = elim item.payload [ none ↦ [] | some b ↦ b ]

  abbrev with_payload : Item → Outcome Bytes → Outcome Item
  with_payload item (ok text) = ok (record item { payload = some text })
  with_payload item (err e) = err e

  abbrev pub opened : Option Bytes → Item → Outcome Item
  opened none item = ok item
  opened (some key) item =
      if is_empty (payload_of item)
      then ok item
      else with_payload item (decrypt c key (payload_of item))

  -- The handler of the button "Get" after its test.
  unfoldable pub get_item : Option Bytes → Text → Run Device Item
  get_item crypto id = do secret ← LocalStore.get id; λ d. (opened crypto secret, d)

module _ (A : Api) where
  -- The push of `doSync`, which marks what it pushed as clean before the pull.
  unfoldable pub push_dirty : List Item → Run (State A) (Unit {0})
  push_dirty dirty = if is_empty dirty then return tt else do
    on_api A (A.sync_push_encrypted (to_sync_items dirty))
    on_device A (mark_clean (map (λ item. item.id) dirty))

  unfoldable pub apply_pulled : List SyncItem → Run Device ℕ
  apply_pulled items = do
    apply_remote (from_sync_items items)
    at ← now
    SyncStore.save at
    return (length items)

  -- `doSync`, with the number of items that it pulled.
  unfoldable pub do_sync : Run (State A) ℕ
  do_sync = do
    since ← on_device A load_since
    dirty ← on_device A list_dirty
    push_dirty dirty
    items ← on_api A (A.sync_pull_encrypted since)
    on_device A (apply_pulled items)

-- `uiState`, with the device, the API client and its key, the line of status and the screen.
pub record Ui (A : Api) : Type 0 where
  pub state : State A
  pub crypto : Option Bytes
  pub master_password_set : Bool
  pub status : Text
  pub screen : Screen

module _ (c : Cipher) (A : Api) where
  abbrev pub started : State A → Ui A
  started state = record {
    state = state;
    crypto = none;
    master_password_set = false;
    status = codes "GophKeeper UI";
    screen = menu;
  }

  abbrev pub report : Text → Ui A → Ui A
  report text ui = record ui { status = text }

  -- `pages.RemovePage("modal")`.
  abbrev pub close : Ui A → Ui A
  close ui = record ui { screen = menu }

  abbrev pub failed : Error → Ui A → Ui A
  failed e = report (codes "[red]Error: " ++ message e)

  abbrev pub finished : {X : Type 0} → (X → Ui A → Ui A) → Outcome X → Ui A → Ui A
  finished success (ok x) ui = success x ui
  finished success (err e) ui = failed e ui

  -- A run on the state, and what becomes of its result.
  abbrev pub after : {X : Type 0} → (X → Ui A → Ui A) → Run (State A) X → Ui A → Ui A
  after success m ui = let (x, s) = m ui.state in finished success x (record ui { state = s })

  -- The button "Submit" of `showAuthForm`.
  unfoldable pub submit_auth : Text → Text → Text → Ui A → Ui A
  submit_auth mode email password ui =
      let request = if mode == codes "register" then A.register else A.login in
      close (after (λ _. report (codes "OK")) (on_api A (request email password)) ui)

  abbrev pub with_key : Bytes → Ui A → Ui A
  with_key key ui = record ui {
    crypto = some key;
    master_password_set = true;
    status = codes "Master password set";
  }

  -- The button "Set" of `showMasterPasswordForm`.
  unfoldable pub set_master_password : Text → Ui A → Ui A
  set_master_password master ui = close (after with_key (on_device A (new_crypto c master)) ui)

  -- `showList`.
  unfoldable pub show_list : Ui A → Ui A
  show_list ui =
      after (λ items ui. record ui { screen = secrets_screen items })
        (on_device A (LocalStore.list false)) ui

  abbrev pub locked : Ui A → Ui A
  locked ui = close (report (codes "[red]Master password not set") ui)

  -- The button "Add" of `showAddSecret`.
  unfoldable pub add_secret : Text → Text → Text → Ui A → Ui A
  add_secret type payload meta ui =
      if ui.master_password_set
      then close (
          after (λ id. report (codes "Created: " ++ id))
            (on_device A (add_item c ui.crypto type payload meta)) ui)
      else locked ui

  -- The button "Get" of `showGetSecret`, which shows the payload without the spaces around it.
  unfoldable pub get_secret : Text → Ui A → Ui A
  get_secret id ui =
      if ui.master_password_set
      then after
          (λ item ui. record ui { screen = secret_screen item (trim_space (payload_of c item)) })
          (on_device A (get_item c ui.crypto id)) (close ui)
      else locked ui

  unfoldable pub synchronise : Ui A → Ui A
  synchronise ui =
      after (λ n. report (codes "Synced " ++ decimal (pos n) ++ codes " items")) (do_sync A) ui

-- What the user does. The fields of a form are given with its button.
pub data Action : Type 0 where
  submit_form : Text → Text → Text → Action
  set_password : Text → Action
  list_secrets : Action
  add_form : Text → Text → Text → Action
  get_form : Text → Action
  sync_now : Action
  cancel : Action

unfoldable pub perform : (c : Cipher) (A : Api) → Action → Ui A → Ui A
perform c A (submit_form mode email password) ui = submit_auth c A mode email password ui
perform c A (set_password master) ui = set_master_password c A master ui
perform c A list_secrets ui = show_list c A ui
perform c A (add_form type payload meta) ui = add_secret c A type payload meta ui
perform c A (get_form id) ui = get_secret c A id ui
perform c A sync_now ui = synchronise c A ui
perform c A cancel ui = close c A ui
