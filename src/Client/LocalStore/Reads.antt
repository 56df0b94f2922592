-- ===== src/Client/LocalStore/Reads.antt =====
-- What `Get`, `List` and `ListDirty` return on a local database that answers, also after `Upsert`
-- and `MarkClean`.
use goph_keeper.Base.{
  ◌*◌, ◌≡◌, refl, ap, Bool, Option, none, some, Text, text_eq, ◌==◌, if◌then◌else◌, Bool-cases,
  Option-cases, inl, inr, Outcome, ok, err, sentinel, err_not_found,
}
use goph_keeper.Models.{Time, Meta}
use goph_keeper.Database.{IsUp, MetaJson, json_object}
use goph_keeper.Database.Rows.{decoded}
use goph_keeper.Client.Items.{Item, Stamp, rfc3339, malformed, to_second}
use goph_keeper.Client.LocalRows.{LocalRow, type_of, bytes_of, local_row, put_local}
use goph_keeper.Client.LocalRows.Views.{
  IsRow, IsLocal, find_local, find_local-put_local, put_local-IsLocal, local_row-IsRow,
  find_local-IsRow, keep-find_local,
}
use goph_keeper.Client.Device.{Device}
use goph_keeper.Client.LocalStore.{item_of, upsert, decode_row, get}

abbrev meta_of : MetaJson → Meta
meta_of (json_object m) = some m
meta_of _ = none

abbrev pub instant : Stamp → Time
instant (rfc3339 n) = n * 1000000000
instant (malformed text) = 0

-- The item that a row stands for.
abbrev pub local_item : LocalRow → Item
local_item r = item_of r (meta_of r.meta) (instant r.created_at) (instant r.updated_at)

pub decode_row-IsRow : (r : LocalRow) → IsRow r → decode_row r ≡ decoded (local_item r)
unfolding decode_row
decode_row-IsRow r h =
    let (m, e) = h.meta_decodes in
    let (c, created) = h.created_decodes in
    let (u, updated) = h.updated_decodes in
    elim (Option-cases m) [
      | inl nil ↦ rw (e, created, updated, nil)
      | inr (l, full) ↦ rw (e, created, updated, full)
    ]

-- The answer to `Get` from what the key holds.
abbrev pub answer : Option LocalRow → Outcome Item
answer none = err (sentinel err_not_found)
answer (some r) = ok (local_item r)

pub get_lem :
    (id : Text) (d : Device)
    → IsUp d.env
    → IsLocal d.rows
    → ((get id d).0 ≡ answer (find_local id d.rows))
      × ((get id d).1.rows ≡ d.rows)
      × IsUp (get id d).1.env
unfolding get
get_lem id d up h = (
  rw (up d.env.calls, keep-find_local id d.rows h)
      (elim (Option-cases (find_local id d.rows)) [
        | inl absent ↦ rw absent
        | inr (r, found) ↦
            rw found (rw (decode_row-IsRow r (find_local-IsRow id d.rows r h found)) refl)
      ]),
  rw (up d.env.calls),
  λ n. rw (up d.env.calls) (up n),
)

pub upsert_lem :
    (item : Item) (dirty : Bool) (d : Device)
    → IsUp d.env
    → ((upsert item dirty d).0 ≡ ok tt)
      × ((upsert item dirty d).1.rows ≡ put_local (local_row item dirty) d.rows)
      × IsUp (upsert item dirty d).1.env
unfolding upsert
upsert_lem item dirty d up =
    (rw (up d.env.calls), rw (up d.env.calls), λ n. rw (up d.env.calls) (up n))

-- An item after a write and a read: times cut to the second, a payload in place of none, and the
-- type "deleted" for a deleted item without one.
abbrev pub kept : Item → Item
kept item = record item {
  type = type_of item;
  payload = some (bytes_of item.payload);
  created_at = to_second item.created_at;
  updated_at = to_second item.updated_at;
}

local_item-local_row : (item : Item) (dirty : Bool) → local_item (local_row item dirty) ≡ kept item
unfolding local_row
local_item-local_row item dirty = elim (Option-cases item.meta) [
  | inl nil ↦ rw nil
  | inr (m, full) ↦ rw full
]

-- After `Upsert` of an item, `Get` returns this item under its key, with its times cut to the
-- second, and what it returned before under every other key; `Upsert` succeeds and the rows stay
-- sound. The rows are sound and the database answers.
pub get-upsert :
    (item : Item) (dirty : Bool) (j : Text) (d : Device)
    → IsUp d.env
    → IsLocal d.rows
    → ((upsert item dirty d).0 ≡ ok tt)
      × ((get j (upsert item dirty d).1).0 ≡ (if item.id == j then ok (kept item) else (get j d).0))
      × IsLocal (upsert item dirty d).1.rows
unfolding local_row
get-upsert item dirty j d up h =
    let (done, rows, up') = upsert_lem item dirty d up in
    let sound : IsLocal (upsert item dirty d).1.rows =
      rw rows (put_local-IsLocal (local_row item dirty) d.rows (local_row-IsRow item dirty) h) in
    let (got, _, _) = get_lem j (upsert item dirty d).1 up' sound in
    let (before, _, _) = get_lem j d up h in
    (
      done,
      rw (got, rows, before, find_local-put_local j (local_row item dirty) d.rows)
          (elim (Bool-cases (item.id == j)) [
            | inl same ↦ rw same (ap (λ x. ok x) (local_item-local_row item dirty))
            | inr differ ↦ rw differ
          ]),
      sound,
    )
