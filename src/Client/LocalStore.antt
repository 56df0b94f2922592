-- ===== src/Client/LocalStore.antt =====
-- client/store/local_store.go: the methods of `LocalStore`.
pub mod Reads
pub mod Lists
pub mod Remote
use goph_keeper.Base.{
  Bool, true, false, not, ◌||◌, Option, none, some, List, [], ◌∷◌, Text, codes, text_eq, ◌==◌, ltb,
  is_empty, if◌then◌else◌, keep, sort_by, contains, Outcome, ok, err, Error, sentinel, is_error,
  err_no_rows, err_not_found, labelled, Run, ◌>>=◌, ◌>>◌, return, raise, check,
}
use goph_keeper.Models.{Time, Meta}
use goph_keeper.Database.{Reply, unmarshal_meta}
use goph_keeper.Database.Rows.{or_err, query_row, Decoded, decoded, refused, Labels, scan_rows}
use goph_keeper.Client.Items.{Item, parse_time}
use goph_keeper.Client.LocalRows.{
  LocalRow, LocalRows, local_row, put_local, newer_first, older_first, clean_rows,
}
use goph_keeper.Client.Device.{Device, next_reply, plain}

unfoldable pub upsert : Item → Bool → Run Device (Unit {0})
upsert item dirty = do
  r ← next_reply
  check (codes "build upsert local") r.build
  check (codes "upsert local") r.exec
  λ d. (ok tt, record d { rows = put_local (local_row item dirty) d.rows })

-- The item of a row, given its decoded columns.
abbrev pub item_of : LocalRow → Meta → Time → Time → Item
item_of row meta created updated = record {
  id = row.id;
  type = row.type;
  payload = some row.payload;
  meta = meta;
  deleted = row.deleted;
  created_at = created;
  updated_at = updated;
}

-- The body of the loops of `List` and `ListDirty`: metadata, then the two instants.
unfoldable pub decode_row : LocalRow → Decoded Item
decode_row row = elim (unmarshal_meta row.meta) [
  | err e ↦ refused (codes "decode") none e
  | ok meta ↦ elim (parse_time row.created_at) [
    | err e ↦ refused (codes "parse") none e
    | ok created ↦ elim (parse_time row.updated_at) [
      | err e ↦ refused (codes "parse") none e
      | ok updated ↦ decoded (item_of row meta created updated)
    ]
  ]
]

-- `Get` decodes in the same order, and returns each error as it is.
abbrev plainly : Decoded Item → Outcome Item
plainly (decoded item) = ok item
plainly (refused stage label e) = err e

abbrev found_item : Outcome LocalRow → Outcome Item
found_item (ok row) = plainly (decode_row row)
found_item (err e) = if is_error e err_no_rows then err (sentinel err_not_found) else err e

unfoldable pub get : Text → Run Device Item
unfolding query_row is_error
get id = do
  r ← next_reply
  plain r.build
  λ d. (found_item (query_row r (keep (λ row. row.id == id) d.rows)), d)

abbrev pub plain_labels : Labels
plain_labels = record { scan = none; iterate = none; close = none }

abbrev selected : Reply → LocalRows → Outcome (List Item)
selected r rows = scan_rows plain_labels decode_row r 0 rows

unfoldable pub list : Bool → Run Device (List Item)
list include_deleted = do
  r ← next_reply
  plain r.build
  plain r.exec
  λ d.
      let shown = keep (λ row. include_deleted || not row.deleted) d.rows in
      (selected r (sort_by newer_first shown), d)

unfoldable pub list_dirty : Run Device (List Item)
list_dirty = do
  r ← next_reply
  plain r.build
  plain r.exec
  λ d. (selected r (sort_by older_first (keep (λ row. row.dirty) d.rows)), d)

unfoldable pub mark_clean : List Text → Run Device (Unit {0})
mark_clean ids = if is_empty ids then return tt else do
  r ← next_reply
  plain r.build
  plain r.exec
  λ d. (ok tt, record d { rows = clean_rows ids d.rows })

-- The body of the loop of `ApplyRemote`: the remote item wins if it is new or later.
abbrev pub decide : Item → Outcome Item → Run Device (Unit {0})
decide item (ok local) =
    if ltb local.updated_at item.updated_at then upsert item false else return tt
decide item (err e) = if is_error e err_not_found then upsert item false else raise e

unfoldable pub apply_item : Item → Run Device (Unit {0})
apply_item item d = let (local, d') = get item.id d in decide item local d'

unfoldable pub apply_remote : List Item → Run Device (Unit {0})
apply_remote [] = return tt
apply_remote (item ∷ items) = do apply_item item; apply_remote items
