-- ===== src/Repository/Secrets.antt =====
-- repository/postgres_secret_store.go, over the table `secrets` of
-- migrations/0002_create_secrets.up.sql. A table is a list of rows whose order has no meaning;
-- where `ORDER BY` leaves ties, the model keeps the order of the table.
pub mod Merge
pub mod Owners
pub mod Keys
pub mod Statements
pub mod Views
use goph_keeper.Base.{
  ℕ, ◌*◌, ◌/◌, Bool, true, false, not, ◌&&◌, Option, none, some, List, [], ◌∷◌, Text, Bytes, codes,
  text_eq, ◌==◌, ltb, leb, nat_beq, if◌then◌else◌, keep, sort_by, length, Outcome, ok, err, Error,
  pg_error,
}
use goph_keeper.Models.{Time, Secret, Meta}
use goph_keeper.Database.{MetaJson, marshal_meta}

-- TIMESTAMPTZ keeps microseconds.
abbrev pub to_micros : Time → ℕ
to_micros t = t / 1000

abbrev pub of_micros : ℕ → Time
of_micros m = m * 1000

pub record SecretRow : Type 0 where
  pub id : Text
  pub owner_id : Text
  pub type : Text
  pub payload : Bytes
  pub meta : MetaJson
  pub created_at : ℕ
  pub updated_at : ℕ
  pub deleted : Bool

abbrev pub Secrets : Type 0
Secrets = List SecretRow

-- SQLSTATE 23502 and 23505.
abbrev pub not_null_violation : Error
not_null_violation = pg_error (codes "23502") (codes "null value in a column that is not null")

abbrev pub unique_violation : Error
unique_violation = pg_error (codes "23505") (codes "duplicate key value")

-- The values of an `INSERT`; the payload is given apart.
abbrev pub to_row : Secret → Bytes → SecretRow
to_row s payload = record {
  id = s.id;
  owner_id = s.owner_id;
  type = s.type;
  payload = payload;
  meta = marshal_meta s.meta;
  created_at = to_micros s.created_at;
  updated_at = to_micros s.updated_at;
  deleted = s.deleted;
}

unfoldable pub has_id : Text → Secrets → Bool
has_id id [] = false
has_id id (r ∷ rows) = if r.id == id then true else has_id id rows

-- `INSERT INTO secrets (…) VALUES (…)`: a nil payload is NULL, which the column refuses.
unfoldable pub insert_row : Secret → Secrets → Outcome Secrets
unfolding has_id
insert_row s rows = elim s.payload [
  | none ↦ err not_null_violation
  | some payload ↦ if has_id s.id rows then err unique_violation else ok (to_row s payload ∷ rows)
]

-- `WHERE secrets.owner_id = EXCLUDED.owner_id AND secrets.updated_at < EXCLUDED.updated_at`.
abbrev pub supersedes : SecretRow → SecretRow → Bool
supersedes new old = old.owner_id == new.owner_id && ltb old.updated_at new.updated_at

-- `INSERT … ON CONFLICT (id) DO UPDATE SET … WHERE …` of a complete row.
unfoldable pub put_row : SecretRow → Secrets → Secrets
put_row new [] = new ∷ []
put_row new (old ∷ rows) =
    let rest = put_row new rows in
    if old.id == new.id then (if supersedes new old then new ∷ rows else old ∷ rows) else old ∷ rest

unfoldable pub upsert_row : Secret → Secrets → Outcome Secrets
upsert_row s rows = elim s.payload [
  | none ↦ err not_null_violation
  | some payload ↦ ok (put_row (to_row s payload) rows)
]

-- `UPDATE secrets SET … WHERE …`, and the number of rows that it changes.
unfoldable pub update_where : (SecretRow → Bool) → (SecretRow → SecretRow) → Secrets → Secrets
update_where p f [] = []
update_where p f (r ∷ rows) = let rest = update_where p f rows in (if p r then f r else r) ∷ rest

abbrev pub affected_rows : (SecretRow → Bool) → Secrets → ℕ
affected_rows p rows = length (keep p rows)

-- `WHERE id = $1 AND owner_id = $2 AND deleted = false`.
abbrev pub is_live : Text → Text → SecretRow → Bool
is_live owner_id id r = r.id == id && r.owner_id == owner_id && not r.deleted

abbrev pub set_contents : Secret → Bytes → SecretRow → SecretRow
set_contents s payload r = record r {
  type = s.type;
  payload = payload;
  meta = marshal_meta s.meta;
  updated_at = to_micros s.updated_at;
}

-- A nil payload is NULL, which the column refuses in each row that the statement changes.
unfoldable pub update_contents : Secret → Secrets → Outcome Secrets
unfolding update_where
update_contents s rows =
    let live = is_live s.owner_id s.id in
    elim s.payload [
      | none ↦ if nat_beq (affected_rows live rows) 0 then ok rows else err not_null_violation
      | some payload ↦ ok (update_where live (set_contents s payload) rows)
    ]

abbrev pub set_deleted : Time → SecretRow → SecretRow
set_deleted now r = record r { deleted = true; updated_at = to_micros now }

-- `SELECT … WHERE owner_id = $1 AND deleted = false ORDER BY updated_at DESC`.
abbrev pub is_owned_live : Text → SecretRow → Bool
is_owned_live owner_id r = r.owner_id == owner_id && not r.deleted

abbrev pub newer_first : SecretRow → SecretRow → Bool
newer_first a b = leb b.updated_at a.updated_at

-- `SELECT … WHERE owner_id = $1 AND updated_at > $2 ORDER BY updated_at ASC`.
abbrev pub is_updated_since : Text → Time → SecretRow → Bool
is_updated_since owner_id since r = r.owner_id == owner_id && ltb (to_micros since) r.updated_at

abbrev pub older_first : SecretRow → SecretRow → Bool
older_first a b = leb a.updated_at b.updated_at
