-- ===== src/Client/LocalRows.antt =====
-- client/store/local_store.go: the table `secrets_local`, and its statements.
pub mod Views
use goph_keeper.Base.{
  ℕ, Bool, true, false, not, ◌&&◌, Option, none, some, List, [], ◌∷◌, Text, Bytes, codes, text_eq,
  ◌==◌, leb, is_empty, if◌then◌else◌, contains,
}
use goph_keeper.Database.{MetaJson, marshal_meta}
use goph_keeper.Models.{Payload}
use goph_keeper.Client.Items.{Item, Stamp, rfc3339, malformed, format_time}

pub record LocalRow : Type 0 where
  pub id : Text
  pub type : Text
  pub payload : Bytes
  pub meta : MetaJson
  pub deleted : Bool
  pub created_at : Stamp
  pub updated_at : Stamp
  pub dirty : Bool

abbrev pub LocalRows : Type 0
LocalRows = List LocalRow

abbrev pub deleted_type : Text
deleted_type = codes "deleted"

-- A deleted item without a type is stored under the type "deleted".
abbrev pub type_of : Item → Text
type_of item = if item.deleted && is_empty item.type then deleted_type else item.type

-- A nil payload is stored as an empty one.
abbrev pub bytes_of : Payload → Bytes
bytes_of none = []
bytes_of (some b) = b

-- The values of `Upsert`.
unfoldable pub local_row : Item → Bool → LocalRow
local_row item dirty = record {
  id = item.id;
  type = type_of item;
  payload = bytes_of item.payload;
  meta = marshal_meta item.meta;
  deleted = item.deleted;
  created_at = format_time item.created_at;
  updated_at = format_time item.updated_at;
  dirty = dirty;
}

-- `INSERT … ON CONFLICT(id) DO UPDATE SET …` of all columns.
unfoldable pub put_local : LocalRow → LocalRows → LocalRows
put_local new [] = new ∷ []
put_local new (old ∷ rows) =
    let rest = put_local new rows in if old.id == new.id then new ∷ rows else old ∷ rest

-- The texts of the column `updated_at` compare as their instants do.
abbrev pub stamp_leb : Stamp → Stamp → Bool
stamp_leb (rfc3339 m) (rfc3339 n) = leb m n
stamp_leb (rfc3339 m) (malformed t) = true
stamp_leb (malformed s) (rfc3339 n) = false
stamp_leb (malformed s) (malformed t) = true

-- `ORDER BY updated_at DESC` and `ORDER BY updated_at ASC`.
abbrev pub newer_first : LocalRow → LocalRow → Bool
newer_first a b = stamp_leb b.updated_at a.updated_at

abbrev pub older_first : LocalRow → LocalRow → Bool
older_first a b = stamp_leb a.updated_at b.updated_at

-- `UPDATE secrets_local SET dirty = 0 WHERE id IN (…)`.
unfoldable pub clean_rows : List Text → LocalRows → LocalRows
clean_rows ids [] = []
clean_rows ids (r ∷ rows) =
    (if contains ids r.id then record r { dirty = false } else r) ∷ clean_rows ids rows
