-- ===== src/Repository/PostgresSecrets/Reads.antt =====
-- What `GetByID`, `ListByOwner` and `ListUpdatedSince` return, on a database that answers.
pub mod Rows
use mathlib.Core.List.{Perm}
use mathlib.Core.Option.{some-injective}
use goph_keeper.Base.{
  ◌*◌, ◌/◌, ◌≤◌, leb, text_beq, ◌≡◌, refl, Bool, true, false, not, Option, none, some, [], ◌∷◌, map,
  Text, text_eq, ◌==◌, ◌&&◌, if◌then◌else◌, arith, keep, sort_by, All, All-keep, All-sort_by,
  IsSorted, sort_by-perm, sort_by-IsSorted, Bool-cases, Option-cases, inl, inr, subst, Outcome, ok,
  err, sentinel, err_secret_not_found,
}
use goph_keeper.Models.{Time, Secret, Meta}
use goph_keeper.Database.{IsUp, MetaJson, json_object, unmarshal_meta, marshal_meta}
use goph_keeper.Database.Rows.{decoded}
use goph_keeper.Database.Rows.Scans.{scan_rows-fine}
use goph_keeper.Repository.Secrets.{
  Secrets, SecretRow, is_owned_live, newer_first, is_updated_since, older_first,
}
use goph_keeper.Repository.Secrets.Keys.{IsMeta, IsTable}
use goph_keeper.Repository.Secrets.Merge.{find_row}
use goph_keeper.Repository.Secrets.Views.{keep-is_live}
use goph_keeper.Repository.Server.{Server}
use goph_keeper.Repository.PostgresSecrets.{
  with_meta, decode_row, list_labels, updated_labels, get_by_id, list_by_owner, list_updated_since,
}
use goph_keeper.Repository.PostgresSecrets.Reads.Rows.{
  is_shown, is_sent, LaterFirst, EarlierFirst, keep_congr, newer_first-LaterFirst,
  older_first-EarlierFirst, shown-owned_live, sent-updated_since, total_newer, trans_newer,
  total_older, trans_older,
}

abbrev pub meta_of : MetaJson → Meta
meta_of (json_object m) = some m
meta_of _ = none

pub meta_of-marshal_meta : (m : Meta) → meta_of (marshal_meta m) ≡ m
meta_of-marshal_meta none = refl
meta_of-marshal_meta (some m) = refl

-- A row as the secret that it stands for, with its times in nanoseconds.
abbrev pub synced_secret : SecretRow → Secret
synced_secret r = record {
  id = r.id;
  owner_id = r.owner_id;
  type = r.type;
  payload = some r.payload;
  meta = meta_of r.meta;
  deleted = r.deleted;
  created_at = r.created_at * 1000;
  updated_at = r.updated_at * 1000;
}

-- The same where the column `deleted` is not selected.
abbrev pub live_secret : SecretRow → Secret
live_secret r = record (synced_secret r) { deleted = false }

unmarshal_meta-IsMeta : (j : MetaJson) → IsMeta j → unmarshal_meta j ≡ ok (meta_of j)
unmarshal_meta-IsMeta j (none, e) = rw e
unmarshal_meta-IsMeta j (some m, e) = rw e

All-IsMeta : (rows : Secrets) → IsTable rows → All (λ r. IsMeta r.meta) rows
All-IsMeta [] h = tt
All-IsMeta (r ∷ rows) (u, m, h) = (m, All-IsMeta rows h)

All-decoded :
    (deleted : SecretRow → Bool) (rows : Secrets)
    → All (λ r. IsMeta r.meta) rows
    → All (λ r. decode_row deleted r ≡ decoded (with_meta r (deleted r) (meta_of r.meta))) rows
All-decoded deleted [] h = tt
All-decoded deleted (r ∷ rows) (m, h) =
    (rw (unmarshal_meta-IsMeta r.meta m, decode_row), All-decoded deleted rows h)

-- The answer to `GetByID` from what the key holds.
abbrev pub visible : Text → Option SecretRow → Outcome Secret
visible owner_id none = err (sentinel err_secret_not_found)
visible owner_id (some r) =
    if r.owner_id == owner_id && not r.deleted
    then ok (live_secret r)
    else err (sentinel err_secret_not_found)

find_row-IsMeta :
    (id : Text) (rows : Secrets) (r : SecretRow)
    → IsTable rows
    → find_row id rows ≡ some r
    → IsMeta r.meta
unfolding find_row
find_row-IsMeta id [] r h e = ground arith
find_row-IsMeta id (q ∷ rows) r (u, m, h) e = elim (Bool-cases (q.id == id)) [
  | inl same ↦
      let here : q ≡ r = some-injective q r (rw same at e) in subst (λ x. IsMeta x.meta) here m
  | inr differ ↦ find_row-IsMeta id rows r h (rw differ at e)
]

-- `GetByID` returns the row that the key holds if it is the owner's and not deleted, and
-- `ErrSecretNotFound` in every other case: nothing tells a foreign or deleted row from none.
pub get_by_id-find_row :
    (owner_id id : Text) (w : Server)
    → IsUp w.env
    → IsTable w.secrets
    → (get_by_id owner_id id w).0 ≡ visible owner_id (find_row id w.secrets)
unfolding get_by_id
get_by_id-find_row owner_id id w up t =
    rw (up w.env.calls, keep-is_live owner_id id w.secrets t)
      (elim (Option-cases (find_row id w.secrets)) [
        | inl absent ↦ rw absent
        | inr (r, found) ↦
            let m = unmarshal_meta-IsMeta r.meta (find_row-IsMeta id w.secrets r t found) in
            rw found (ground (arith, m))
      ])

decodable :
    (deleted p : SecretRow → Bool) (before : SecretRow → SecretRow → Bool) (rows : Secrets)
    → IsTable rows
    → All
        (λ r. decode_row deleted r ≡ decoded (with_meta r (deleted r) (meta_of r.meta)))
        (sort_by before (keep p rows))
decodable deleted p before rows t =
    All-decoded deleted _
      (All-sort_by before _ (keep p rows) (All-keep _ p rows (All-IsMeta rows t)))

-- `ListByOwner` returns exactly the owner's rows that are not deleted, each once, the last updated
-- first; on a sound table it does not fail.
pub list_by_owner-perm :
    (owner_id : Text) (w : Server)
    → IsUp w.env
    → IsTable w.secrets
    → (rows : Secrets) × ((list_by_owner owner_id w).0 ≡ ok (map live_secret rows))
      × Perm rows (keep (is_shown owner_id) w.secrets)
      × LaterFirst rows
unfolding list_by_owner
list_by_owner-perm owner_id w up t =
    let live = keep (is_owned_live owner_id) w.secrets in
    (
      sort_by newer_first live,
      rw (up w.env.calls) (
          scan_rows-fine list_labels (decode_row (λ _. false)) live_secret 0 _
            (decodable (λ _. false) (is_owned_live owner_id) newer_first w.secrets t)),
      subst (λ l. Perm (sort_by newer_first live) l)
          (keep_congr _ _ w.secrets (shown-owned_live owner_id)) (sort_by-perm newer_first live),
      newer_first-LaterFirst _ (sort_by-IsSorted newer_first total_newer trans_newer live),
    )

-- What `ListUpdatedSince` returns on a sound table, in the order of the model.
pub list_updated_since_lem :
    (owner_id : Text) (since : Time) (w : Server)
    → IsUp w.env
    → IsTable w.secrets
    → (list_updated_since owner_id since w).0
      ≡ ok (
          map synced_secret
            (sort_by older_first (keep (is_updated_since owner_id since) w.secrets)))
unfolding list_updated_since
list_updated_since_lem owner_id since w up t = rw (up w.env.calls) (
    scan_rows-fine updated_labels (decode_row (λ r. r.deleted)) synced_secret 0 _
      (decodable (λ r. r.deleted) (is_updated_since owner_id since) older_first w.secrets t))

-- `ListUpdatedSince` returns exactly the owner's rows whose time is past `since` in microseconds,
-- deleted ones marked as such, the last updated at the end; on a sound table it does not fail.
pub list_updated_since-perm :
    (owner_id : Text) (since : Time) (w : Server)
    → IsUp w.env
    → IsTable w.secrets
    → (rows : Secrets) × ((list_updated_since owner_id since w).0 ≡ ok (map synced_secret rows))
      × Perm rows (keep (is_sent owner_id since) w.secrets)
      × EarlierFirst rows
list_updated_since-perm owner_id since w up t =
    let changed = keep (is_updated_since owner_id since) w.secrets in
    (
      sort_by older_first changed,
      list_updated_since_lem owner_id since w up t,
      subst (λ l. Perm (sort_by older_first changed) l)
          (keep_congr _ _ w.secrets (sent-updated_since owner_id since))
          (sort_by-perm older_first changed),
      older_first-EarlierFirst _ (sort_by-IsSorted older_first total_older trans_older changed),
    )
