-- ===== src/Client/Service/Deletes.antt =====
-- What `Delete` of the client service leaves under each key.
use goph_keeper.Base.{
  ℕ, suc, ◌*◌, ◌/◌, ◌≡◌, refl, true, false, ◌==◌, text_eq, Option, none, some, [], Text, is_empty,
  if◌then◌else◌, is_blank, ok, arith, Option-cases, inl, inr,
}
use goph_keeper.Models.{Time}
use goph_keeper.Database.{IsUp, json_null}
use goph_keeper.Client.Items.{format_time}
use goph_keeper.Client.LocalRows.{LocalRow, LocalRows, deleted_type, local_row, put_local}
use goph_keeper.Client.LocalRows.Views.{
  IsRow, IsLocal, find_local, find_local-put_local, find_local-IsRow,
}
use goph_keeper.Client.Device.{Device, now}
use goph_keeper.Client.LocalStore
use goph_keeper.Client.LocalStore.Reads.{get_lem, upsert_lem, answer}
use goph_keeper.Client.Service.{delete, removed}
use goph_keeper.Client.Service.Secrets.{get_clock}

-- The row that a deletion leaves in place of another, or of none.
abbrev pub tombstone : Text → Time → Time → Option LocalRow → LocalRow
tombstone id at changed none = record {
  id = id;
  type = deleted_type;
  payload = [];
  meta = json_null;
  deleted = true;
  created_at = format_time at;
  updated_at = format_time changed;
  dirty = true;
}
tombstone id at changed (some r) = record {
  id = id;
  type = if is_empty r.type then deleted_type else r.type;
  payload = r.payload;
  meta = json_null;
  deleted = true;
  created_at = r.created_at;
  updated_at = format_time changed;
  dirty = true;
}

whole_second : (n : ℕ) → n * 1000000000 / 1000000000 ≡ n
whole_second n = omega arith

local_row-removed :
    (id : Text) (at changed : Time) (r : LocalRow)
    → IsRow r
    → local_row (removed id at changed (answer (some r))) true ≡ tombstone id at changed (some r)
unfolding local_row
local_row-removed id at changed r k = let (n, e) = k.created_decodes in rw (e, whole_second n) refl

buried :
    (id j : Text) (at changed : Time) (rows : LocalRows)
    → IsLocal rows
    → find_local j
        (put_local (local_row (removed id at changed (answer (find_local id rows))) true) rows)
      ≡ (if id == j then some (tombstone id at changed (find_local id rows)) else find_local j rows)
unfolding local_row
buried id j at changed rows sound = elim (Option-cases (find_local id rows)) [
  | inl absent ↦ rw absent (find_local-put_local j (tombstone id at changed none) rows)
  | inr (r, found) ↦
      rw (found, local_row-removed id at changed r (find_local-IsRow id rows r sound found))
        (find_local-put_local j (tombstone id at changed (some r)) rows)
]

-- `Delete` puts a deleted, dirty row under the identifier, with the type, payload and time of
-- creation of the row that was there and no metadata, and changes no other key; it succeeds if the
-- identifier is not blank. The rows are sound and the database answers.
pub find_local-delete :
    (id j : Text) (d : Device)
    → IsUp d.env
    → IsLocal d.rows
    → is_blank id ≡ false
    → ((delete id d).0 ≡ ok tt)
      × (find_local j (delete id d).1.rows ≡ (
          if id == j
          then some (
              tombstone id
                (d.env.clock d.env.ticks)
                (d.env.clock (suc d.env.ticks))
                (find_local id d.rows))
          else find_local j d.rows))
unfolding delete
find_local-delete id j d up local named =
    let (got, rows, up') = get_lem id (now d).1 up local in
    let (clock, ticks) = get_clock id (now d).1 in
    let d' = (LocalStore.get id (now d).1).1 in
    let item =
      removed id (d.env.clock d.env.ticks) (d'.env.clock d'.env.ticks)
        (LocalStore.get id (now d).1).0 in
    let (done, table, _) = upsert_lem item true (now d').1 up' in
    (
      rw (named, done) refl,
      rw (named, table, clock, ticks, got, rows) (buried id j _ _ d.rows local),
    )
