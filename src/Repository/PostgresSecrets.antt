-- ===== src/Repository/PostgresSecrets.antt =====
-- repository/postgres_secret_store.go: the methods of `PostgresSecretStore`.
pub mod Requests
pub mod Upserts
pub mod Reads
pub mod Writes
use goph_keeper.Base.{
  ℕ, Bool, false, Option, none, some, List, Text, codes, nat_beq, if◌then◌else◌, keep, sort_by,
  Outcome, ok, err, sentinel, wrapped, is_error, err_no_rows, err_secret_not_found, Run, continue,
  ◌>>=◌, ◌>>◌, return, raise, check,
}
use goph_keeper.Models.{Time, Secret, Meta}
use goph_keeper.Database.{Reply, unmarshal_meta}
use goph_keeper.Database.Rows.{query_row, Decoded, decoded, refused, Labels, scan_rows}
use goph_keeper.Repository.Secrets.{
  Secrets, SecretRow, of_micros, insert_row, upsert_row, update_where, affected_rows, is_live,
  update_contents, set_deleted, is_owned_live, newer_first, is_updated_since, older_first,
}
use goph_keeper.Repository.Server.{Server, next_reply, now}

abbrev commit : Text → Server → Outcome Secrets → Outcome (Unit {0}) × Server
commit text w (ok rows) = (ok tt, record w { secrets = rows })
commit text w (err e) = (err (wrapped text e), w)

-- `ExecContext`: an error of the driver, or the outcome of the statement.
abbrev exec : Text → Reply → (Secrets → Outcome Secrets) → Run Server (Unit {0})
exec text r statement = do check text r.exec; λ w. commit text w (statement w.secrets)

unfoldable pub create : Secret → Run Server Secret
create s = do
  r ← next_reply
  check (codes "build insert secret") r.build
  exec (codes "create secret") r (insert_row s)
  return s

-- A row as a secret, with its column `meta` decoded.
abbrev pub with_meta : SecretRow → Bool → Meta → Secret
with_meta row deleted meta = record {
  id = row.id;
  owner_id = row.owner_id;
  type = row.type;
  payload = some row.payload;
  meta = meta;
  deleted = deleted;
  created_at = of_micros row.created_at;
  updated_at = of_micros row.updated_at;
}

abbrev found_secret : Outcome SecretRow → Outcome Secret
found_secret (err e) =
    if is_error e err_no_rows
    then err (sentinel err_secret_not_found)
    else err (wrapped (codes "get secret") e)
found_secret (ok row) = elim (unmarshal_meta row.meta) [
  | ok meta ↦ ok (with_meta row false meta)
  | err e ↦ err (wrapped (codes "decode meta") e)
]

unfoldable pub get_by_id : Text → Text → Run Server Secret
unfolding query_row is_error
get_by_id owner_id id = do
  r ← next_reply
  check (codes "build select secret") r.build
  λ w. (found_secret (query_row r (keep (is_live owner_id id) w.secrets)), w)

-- The body of both loops; `deleted` gives the column, or `false` where it is not selected.
abbrev pub decode_row : (SecretRow → Bool) → SecretRow → Decoded Secret
decode_row deleted row = elim (unmarshal_meta row.meta) [
  | ok meta ↦ decoded (with_meta row (deleted row) meta)
  | err e ↦ refused (codes "decode") (some (codes "decode meta")) e
]

abbrev pub list_labels : Labels
list_labels = record {
  scan = some (codes "scan secret");
  iterate = some (codes "iterate secrets");
  close = some (codes "close rows");
}

abbrev pub updated_labels : Labels
updated_labels = record {
  scan = some (codes "scan updated secret");
  iterate = some (codes "iterate updated secrets");
  close = some (codes "close rows");
}

unfoldable pub list_by_owner : Text → Run Server (List Secret)
list_by_owner owner_id = do
  r ← next_reply
  check (codes "build list secrets") r.build
  check (codes "list secrets") r.exec
  λ w.
      let rows = sort_by newer_first (keep (is_owned_live owner_id) w.secrets) in
      (scan_rows list_labels (decode_row (λ _. false)) r 0 rows, w)

unfoldable pub list_updated_since : Text → Time → Run Server (List Secret)
list_updated_since owner_id since = do
  r ← next_reply
  check (codes "build list updated secrets") r.build
  check (codes "list updated secrets") r.exec
  λ w.
      let rows = sort_by older_first (keep (is_updated_since owner_id since) w.secrets) in
      (scan_rows updated_labels (decode_row (λ row. row.deleted)) r 0 rows, w)

-- `UPDATE … WHERE` the row is live, with the test of `RowsAffected`.
unfoldable pub update_live :
    Text → Reply → (SecretRow → Bool) → (Secrets → Outcome Secrets) → Run Server (Unit {0})
update_live text r live statement = do
  n ← λ w. (ok (affected_rows live w.secrets), w)
  exec text r statement
  check text r.affected
  if nat_beq n 0 then raise (sentinel err_secret_not_found) else return tt

unfoldable pub update : Secret → Run Server Secret
update s = do
  r ← next_reply
  check (codes "build update secret") r.build
  update_live (codes "update secret") r (is_live s.owner_id s.id) (update_contents s)
  return s

unfoldable pub delete : Text → Text → Run Server (Unit {0})
delete owner_id id = do
  t ← now
  r ← next_reply
  check (codes "build delete secret") r.build
  let live = is_live owner_id id
  update_live (codes "delete secret") r live (λ rows. ok (update_where live (set_deleted t) rows))

unfoldable pub upsert : Secret → Run Server Secret
upsert s = do
  r ← next_reply
  check (codes "build upsert secret") r.build
  exec (codes "upsert secret") r (upsert_row s)
  return s
