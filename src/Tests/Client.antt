-- ===== src/Tests/Client.antt =====
-- The theorems on the client at a device with one dirty row.
use mathlib.Core.Option
use mathlib.Core.List.{Perm}
use goph_keeper.Base.{
  inr, ◌≡◌, refl, ◌≤◌, ◌&&◌, true, false, not, none, some, [], ◌∷◌, map, length, Text, Bytes, codes,
  text_beq, text_eq, ◌==◌, is_space, trim_left, trim_space, is_blank, hex_encode, if◌then◌else◌,
  keep, contains, IsSorted, Outcome, ok, err, failure, arith, is_error, sort_by,
}
use goph_keeper.Database.Rows.{scan_rows}
use goph_keeper.Database.{Env, IsUp, fine, json_null}
use goph_keeper.Client.Items.{Item, rfc3339}
use goph_keeper.Client.LocalRows.{LocalRow, LocalRows, local_row, older_first}
use goph_keeper.Client.LocalRows.Views.{IsLocal, find_local}
use goph_keeper.Client.Device.{Device, IsWritable, read_full}
use goph_keeper.Client.LocalStore
use goph_keeper.Client.LocalStore.Reads.{local_item}
use goph_keeper.Client.LocalStore.Lists.{list_dirty-mark_clean}
use goph_keeper.Client.LocalStore.Remote.{
  settle_all, IsLater, find_local-apply_remote, apply_remote-IsLater,
  apply_remote-upsert_same_second,
}
use goph_keeper.Client.Crypto.{Cipher, nonce_size, encrypt, decrypt}
use goph_keeper.Client.Crypto.Laws.{decrypt-encrypt}
use goph_keeper.Client.Service.{add, get, update, delete}
use goph_keeper.Client.Service.Secrets.{changed_item, get-add, get-update}
use goph_keeper.Client.Service.Secrets.{first_created}
use goph_keeper.Client.Service.Deletes.{tombstone, find_local-delete}
use goph_keeper.Client.SyncStore
use goph_keeper.Client.SyncStore.{load-save_time}
use goph_keeper.Client.Api.{Api, from_sync_items, to_sync_item}
use goph_keeper.Client.Sync.{load_since, exchange, sync}
use goph_keeper.Client.Sync.Dirty.{clean}
use goph_keeper.Client.Sync.Laws.{sync_failed, find_local-sync}

abbrev pub row : LocalRow
row = record {
  id = codes "a";
  type = codes "text";
  payload = 1 ∷ [];
  meta = json_null;
  deleted = false;
  created_at = rfc3339 5;
  updated_at = rfc3339 6;
  dirty = true;
}

abbrev pub env : Env
env = record {
  replies = λ _. fine;
  calls = 0;
  clock = λ n. 9000000001;
  ticks = 0;
  random = λ _. ok (1 ∷ 2 ∷ []);
  draws = 0;
}

abbrev pub device : Device
device = record {
  rows = row ∷ [];
  last_sync = none;
  token = none;
  salt = none;
  disk = record { errors = λ _. none; operations = 0 };
  env = env;
}

pub up : IsUp device.env
up n = refl

pub sound : IsLocal device.rows
unfolding find_local
sound = (
  refl,
  record { meta_decodes = (none, refl); created_decodes = (5, refl); updated_decodes = (6, refl) },
  tt,
)

pub writable : IsWritable device
writable n = refl

-- A later item under the key of the row.
abbrev pub item : Item
item = record {
  id = codes "a";
  type = codes "card";
  payload = some (2 ∷ []);
  meta = none;
  deleted = false;
  created_at = 8000000000;
  updated_at = 8500000000;
}

abbrev upserted : Outcome (Unit {0}) × Device
upserted = LocalStore.upsert item true device

abbrev marked : Outcome (Unit {0}) × Device
marked = LocalStore.mark_clean (codes "a" ∷ []) device

list_dirty-mark_clean_example :
    (marked.0 ≡ ok tt)
    × (rows : LocalRows) × ((LocalStore.list_dirty marked.1).0 ≡ ok (map local_item rows))
    × Perm rows (keep (λ r. r.dirty && not (contains (codes "a" ∷ []) r.id)) device.rows)
    × IsSorted older_first rows
list_dirty-mark_clean_example = list_dirty-mark_clean (codes "a" ∷ []) device up sound

abbrev applied : Outcome (Unit {0}) × Device
applied = LocalStore.apply_remote (item ∷ []) device

find_local-apply_remote_example :
    (applied.0 ≡ ok tt)
    × ((j : Text)
        → find_local j applied.1.rows ≡ settle_all j (item ∷ []) (find_local j device.rows))
    × IsLocal applied.1.rows
find_local-apply_remote_example = find_local-apply_remote (item ∷ []) device up sound

held : find_local (codes "a") device.rows ≡ some row
unfolding find_local text_beq
held = refl

apply_remote-IsLater_example : IsLater 6000000000 (find_local (codes "a") applied.1.rows)
apply_remote-IsLater_example = apply_remote-IsLater (item ∷ []) device (codes "a") row up sound held

abbrev edit : Item
edit = record item { updated_at = 8900000000 }

apply_remote-upsert_same_second_example :
    find_local
      (codes "a")
      (LocalStore.apply_remote (item ∷ []) (LocalStore.upsert edit true device).1).1.rows
    ≡ some (local_row item false)
apply_remote-upsert_same_second_example =
    apply_remote-upsert_same_second edit item device up sound refl refl (omega arith)

-- Encryption that puts one byte in front.
abbrev pub unsealed : Bytes → Outcome Bytes
unsealed [] = err (failure [])
unsealed (_ ∷ text) = ok text

abbrev pub cipher : Cipher
cipher = record {
  scrypt_key = λ password salt size. ok password;
  new_gcm = λ _. none;
  seal = λ key nonce text. 0 ∷ text;
  open_sealed = λ key nonce data_in. unsealed data_in;
  open_sealed-seal = λ key nonce text. refl;
  new_gcm-scrypt_key = λ password salt key h. refl;
}

abbrev sealed : Bytes
sealed = 1 ∷ 2 ∷ 0 ∷ 0 ∷ 0 ∷ 0 ∷ 0 ∷ 0 ∷ 0 ∷ 0 ∷ 0 ∷ 0 ∷ 0 ∷ 5 ∷ []

sealing : (encrypt cipher (7 ∷ []) (5 ∷ []) device).0 ≡ ok sealed
unfolding encrypt read_full
sealing = refl

decrypt-encrypt_example :
    (decrypt cipher (7 ∷ []) sealed ≡ ok (5 ∷ [])) × (nonce_size ≤ length sealed)
decrypt-encrypt_example = decrypt-encrypt cipher (7 ∷ []) (5 ∷ []) device sealed sealing

abbrev key : Bytes
key = 7 ∷ []

abbrev pub made_id : Text
made_id = codes "01020000000000000000000000000000"

adding : (add cipher (some key) (codes "text") (codes "hi") [] device).0 ≡ ok made_id
unfolding add trim_space encrypt LocalStore.upsert hex_encode read_full
adding = refl

named : is_blank made_id ≡ false
unfolding is_space trim_left trim_space
named = refl

get-add_example :
    (get cipher
      (some key)
      made_id
      (add cipher (some key) (codes "text") (codes "hi") [] device).1).0
    ≡ ok (changed_item made_id (codes "text") (codes "hi") [] 9000000001 9000000001)
get-add_example =
    get-add cipher key (codes "text") (codes "hi") [] made_id device up sound adding named

updating :
    (update cipher (some key) (codes "a") (codes "text") (codes "hi") [] device).0 ≡ ok (codes "a")
unfolding update trim_space encrypt LocalStore.get LocalStore.upsert
updating = refl

get-update_example :
    (get cipher
      (some key)
      (codes "a")
      (update cipher (some key) (codes "a") (codes "text") (codes "hi") [] device).1).0
    ≡ ok (
        changed_item
          (codes "a")
          (codes "text")
          (codes "hi")
          []
          (first_created 9000000001 (find_local (codes "a") device.rows))
          9000000001)
get-update_example =
    get-update cipher key (codes "a") (codes "text") (codes "hi") [] (codes "a") device up sound
      updating

a_named : is_blank (codes "a") ≡ false
unfolding is_space trim_left trim_space
a_named = refl

find_local-delete_example :
    ((delete (codes "a") device).0 ≡ ok tt)
    × (find_local (codes "a") (delete (codes "a") device).1.rows ≡ (
        if codes "a" == codes "a"
        then some (tombstone (codes "a") 9000000001 9000000001 (find_local (codes "a") device.rows))
        else find_local (codes "a") device.rows))
find_local-delete_example = find_local-delete (codes "a") (codes "a") device up sound a_named

-- A server that takes everything and gives one item, and one that cannot be reached.
abbrev pub open_api : Api
open_api = record {
  State = Unit {0};
  register = λ email password s. (ok tt, s);
  login = λ email password s. (ok tt, s);
  sync_push_encrypted = λ items s. (ok 1, s);
  sync_pull_encrypted = λ since s. (ok (to_sync_item item ∷ []), s);
}

abbrev closed_api : Api
closed_api = record {
  State = Unit {0};
  register = λ email password s. (err (failure []), s);
  login = λ email password s. (err (failure []), s);
  sync_push_encrypted = λ items s. (err (failure []), s);
  sync_pull_encrypted = λ since s. (ok [], s);
}

pub loaded : (load_since device).0 ≡ ok 0
unfolding SyncStore.load is_error
loaded = refl

pub listed : (LocalStore.list_dirty (load_since device).1).0 ≡ ok (local_item row ∷ [])
unfolding SyncStore.load LocalStore.list_dirty scan_rows sort_by keep LocalStore.decode_row
listed = refl

exchanged : (exchange open_api false (local_item row ∷ []) 0 tt).0 ≡ ok (to_sync_item item ∷ [])
unfolding exchange
exchanged = refl

find_local-sync_example :
    ((sync open_api false (device, tt)).0 ≡ ok (to_sync_item item ∷ []))
    × ((j : Text)
        → find_local j (sync open_api false (device, tt)).1.0.rows
          ≡ Option.map clean
              (settle_all j (from_sync_items (to_sync_item item ∷ [])) (find_local j device.rows)))
find_local-sync_example =
    find_local-sync open_api false device tt 0 (local_item row ∷ []) (to_sync_item item ∷ []) up
      sound writable loaded listed exchanged

sync_failed_example :
    ((sync closed_api false (device, tt)).0 ≡ err (failure []))
    × ((sync closed_api false (device, tt)).1.0.rows ≡ device.rows)
    × ((sync closed_api false (device, tt)).1.0.last_sync ≡ device.last_sync)
sync_failed_example =
    sync_failed closed_api false device tt 0 (local_item row ∷ []) (failure []) loaded listed
      (inr (refl, inr ([], refl, refl)))
