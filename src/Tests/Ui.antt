-- ===== src/Tests/Ui.antt =====
-- The theorems on the terminal interface, after the master password was set.
use goph_keeper.Base.{
  ◌≡◌, refl, ◌⊎◌, true, false, some, [], ◌∷◌, length, Text, Bytes, codes, ok, trim_space,
  hex_encode, is_blank,
}
use goph_keeper.Database.{IsUp}
use goph_keeper.Client.LocalRows.Views.{IsLocal, find_local}
use goph_keeper.Client.Device.{read_full}
use goph_keeper.Client.Crypto.{new_crypto, load_or_create_salt, encrypt}
use goph_keeper.Client.LocalStore
use goph_keeper.Client.Service.Secrets.{changed_item}
use goph_keeper.Client.Api.{to_sync_item}
use goph_keeper.Client.Sync.{exchange, sync}
use goph_keeper.Client.LocalStore.Reads.{local_item}
use goph_keeper.Client.Ui.{
  Ui, started, perform, set_password, set_master_password, add_secret, add_item, get_secret,
  secret_screen, do_sync, new_local_id,
}
use goph_keeper.Client.Ui.Reachable.{Reach, here, next, IsUnlocked, IsKey, Reach-IsUnlocked}
use goph_keeper.Client.Ui.Sealed.{PutSealed, add_secret-PutSealed, get_secret-add_secret}
use goph_keeper.Client.Ui.Syncing.{do_sync-sync}
use goph_keeper.Tests.Client.{
  cipher, open_api, device, up, sound, writable, loaded, listed, row, item, made_id,
}

abbrev unlocked : Ui open_api
unlocked =
    perform cipher open_api (set_password (codes "pw")) (started cipher open_api (device, tt))

reached : Reach cipher open_api (device, tt) unlocked
reached = next here (set_password (codes "pw"))

Reach-IsUnlocked_example : IsUnlocked cipher open_api unlocked
Reach-IsUnlocked_example = Reach-IsUnlocked cipher open_api reached

add_secret-PutSealed_example :
    let ui' = add_secret cipher open_api (codes "text") (5 ∷ []) [] unlocked in
    (ui'.state.0.rows ≡ unlocked.state.0.rows)
    ⊎ ((key : Bytes) × IsKey cipher open_api key
        × (unlocked.crypto ≡ some key)
        × PutSealed cipher key (5 ∷ []) unlocked.state.0.rows ui'.state.0.rows)
add_secret-PutSealed_example =
    add_secret-PutSealed cipher open_api reached (codes "text") (5 ∷ []) []

is_set : unlocked.master_password_set ≡ true
unfolding perform set_master_password new_crypto load_or_create_salt read_full
is_set = refl

still-IsUp : IsUp unlocked.state.0.env
unfolding perform set_master_password new_crypto load_or_create_salt read_full
still-IsUp n = refl

still-IsLocal : IsLocal unlocked.state.0.rows
unfolding perform set_master_password new_crypto load_or_create_salt read_full
still-IsLocal = sound

trimmed : trim_space (codes "text") ≡ codes "text"
unfolding trim_space
trimmed = refl

named : is_blank made_id ≡ false
unfolding trim_space
named = refl

added : (add_item cipher unlocked.crypto (codes "text") (5 ∷ []) [] unlocked.state.0).0 ≡ ok made_id
unfolding perform set_master_password new_crypto load_or_create_salt read_full add_item new_local_id
    encrypt LocalStore.upsert hex_encode
added = refl

get_secret-add_secret_example :
    let at = unlocked.state.0.env.clock unlocked.state.0.env.ticks in
    (get_secret cipher open_api made_id
      (add_secret cipher open_api (codes "text") (5 ∷ []) [] unlocked)).screen
    ≡ secret_screen (changed_item made_id (codes "text") (5 ∷ []) [] at at) (trim_space (5 ∷ []))
get_secret-add_secret_example =
    get_secret-add_secret cipher open_api reached (codes "text") (5 ∷ []) [] made_id is_set
      still-IsUp still-IsLocal trimmed refl refl named added

exchanged : (exchange open_api true (local_item row ∷ []) 0 tt).0 ≡ ok (to_sync_item item ∷ [])
unfolding exchange
exchanged = refl

do_sync-sync_example :
    ((do_sync open_api (device, tt)).0 ≡ ok (length (to_sync_item item ∷ [])))
    × ((sync open_api true (device, tt)).0 ≡ ok (to_sync_item item ∷ []))
    × ((j : Text)
        → find_local j (do_sync open_api (device, tt)).1.0.rows
          ≡ find_local j (sync open_api true (device, tt)).1.0.rows)
do_sync-sync_example =
    do_sync-sync open_api device tt 0 (local_item row ∷ []) (to_sync_item item ∷ []) up sound
      writable loaded listed exchanged
