-- ===== src/Repository/PostgresSecrets/Writes.antt =====
-- What `Create`, `Update` and `Delete` do to the view of the table by key, and what a read
-- finds afterwards.
use mathlib.Core.Option
use goph_keeper.Base.{
  ◌≡◌, refl, ◌∙◌, Bool, false, not, Option, none, some, ◌∷◌, Text, text_eq, text_beq_refl,
  text_beq_iff, ◌/◌, ◌==◌, ◌&&◌, ◌≢◌, if◌then◌else◌, arith, Bool-cases, Option-cases, inl, inr,
  Outcome, ok, err, sentinel, err_secret_not_found, codes,
}
use goph_keeper.Models.{Secret}
use goph_keeper.Database.{IsUp, fine, marshal_meta}
use goph_keeper.Repository.Secrets.{
  Secrets, SecretRow, to_micros, of_micros, has_id, is_live, insert_row, update_where,
  update_contents, set_contents, set_deleted,
}
use goph_keeper.Repository.Secrets.Keys.{IsTable}
use goph_keeper.Repository.Secrets.Merge.{find_row, find_row-id}
use goph_keeper.Repository.Secrets.Views.{find_row-update_where, keep-is_live}
use goph_keeper.Repository.Server.{Server, next_reply, now}
use goph_keeper.Repository.PostgresSecrets.{create, get_by_id, update, delete, update_live}
use goph_keeper.Repository.PostgresSecrets.Upserts.{bytes, row_of}
use goph_keeper.Repository.PostgresSecrets.Reads.{visible, live_secret, get_by_id-find_row}

-- A secret after a write and a read: its times are cut to microseconds.
abbrev pub stored : Secret → Secret
stored s = record s {
  created_at = of_micros (to_micros s.created_at);
  updated_at = of_micros (to_micros s.updated_at);
}

create-IsUp :
    (s : Secret) (w : Server)
    → IsUp w.env
    → s.payload ≢ none
    → has_id s.id w.secrets ≡ false
    → ((create s w).0 ≡ ok s)
      × ((create s w).1.secrets ≡ row_of s ∷ w.secrets)
      × IsUp (create s w).1.env
unfolding create insert_row
create-IsUp s w up p fresh = elim (Option-cases s.payload) [
  | inl nil ↦ absurd (p nil)
  | inr (b, e) ↦ (
    rw (up w.env.calls, e, fresh),
    rw (up w.env.calls, e, fresh),
    λ n. rw (up w.env.calls, e, fresh) (up n),
  )
]

live_secret-row_of :
    (s : Secret) → s.payload ≢ none → s.deleted ≡ false → live_secret (row_of s) ≡ stored s
live_secret-row_of s p d = ground arith

-- `Create` under a fresh key returns the secret as given, and `GetByID` of its owner then finds
-- it with its times cut to microseconds; the secret carries a payload and is not deleted, and the
-- database answers.
pub get_by_id-create :
    (s : Secret) (w : Server)
    → IsUp w.env
    → IsTable w.secrets
    → s.payload ≢ none
    → s.deleted ≡ false
    → has_id s.id w.secrets ≡ false
    → ((create s w).0 ≡ ok s) × ((get_by_id s.owner_id s.id (create s w).1).0 ≡ ok (stored s))
unfolding find_row
get_by_id-create s w up t p d fresh =
    let (result, rows, up') = create-IsUp s w up p fresh in
    let found : visible s.owner_id (find_row s.id (create s w).1.secrets) ≡ ok (stored s) =
      rw rows
        (ground (arith, text_beq_refl s.id, text_beq_refl s.owner_id, live_secret-row_of s p d)) in
    (
      result,
      get_by_id-find_row s.owner_id s.id (create s w).1 up' (rw rows (fresh, (s.meta, refl), t))
          ∙ found,
    )

-- The row of a key as an owner's `UPDATE … WHERE deleted = false` leaves it.
abbrev pub change_live : Text → Text → (SecretRow → SecretRow) → Option SecretRow → Option SecretRow
change_live owner_id id f row = Option.map (λ r. if is_live owner_id id r then f r else r) row

-- The owner may change the row that the key holds.
abbrev pub is_visible : Text → Option SecretRow → Bool
is_visible owner_id none = false
is_visible owner_id (some r) = r.owner_id == owner_id && not r.deleted

update_live-fine :
    (text owner_id id : Text) (statement : Secrets → Outcome Secrets) (w : Server) (rows : Secrets)
    → IsTable w.secrets
    → statement w.secrets ≡ ok rows
    → update_live text fine (is_live owner_id id) statement w ≡ (
      if is_visible owner_id (find_row id w.secrets)
          then ok tt
          else err (sentinel err_secret_not_found),
      record w { secrets = rows },
    )
unfolding update_live
update_live-fine text owner_id id statement w rows t done =
    rw (done, keep-is_live owner_id id w.secrets t)
      (elim (Option-cases (find_row id w.secrets)) [
        | inl absent ↦ rw absent
        | inr (r, found) ↦ rw found (elim (Bool-cases (r.owner_id == owner_id && not r.deleted)) [
          | inl live ↦ rw live
          | inr hidden ↦ rw hidden
        ])
      ])

update_contents_ok :
    (s : Secret) (rows : Secrets)
    → s.payload ≢ none
    → update_contents s rows
      ≡ ok (update_where (is_live s.owner_id s.id) (set_contents s (bytes s.payload)) rows)
unfolding update_contents
update_contents_ok s rows p = ground arith

-- `Delete` succeeds if the key holds a row of the owner that is not deleted, and then marks it as
-- deleted at the time of the call; it returns `ErrSecretNotFound` in every other case. Nothing
-- else changes under any key. The table is sound and the database answers.
pub find_row-delete :
    (owner_id id : Text) (w : Server)
    → IsUp w.env
    → IsTable w.secrets
    → ((delete owner_id id w).0 ≡ (
        if is_visible owner_id (find_row id w.secrets)
        then ok tt
        else err (sentinel err_secret_not_found)))
      × ((j : Text)
          → find_row j (delete owner_id id w).1.secrets
            ≡ change_live owner_id id
                (set_deleted (w.env.clock w.env.ticks))
                (find_row j w.secrets))
unfolding delete
find_row-delete owner_id id w up t =
    let live = is_live owner_id id in
    let at = w.env.clock w.env.ticks in
    let e =
      update_live-fine (codes "delete secret") owner_id id
        (λ rows. ok (update_where live (set_deleted at) rows)) (next_reply (now w).1).1
        (update_where live (set_deleted at) w.secrets) t refl in
    (
      rw (up w.env.calls, e),
      λ j.
          rw (up w.env.calls, e)
            (find_row-update_where j live (set_deleted at) w.secrets (λ r. refl)),
    )

-- The row after an update: the type, the payload, the metadata and the time of update are those
-- of the secret.
abbrev pub updated_row : Secret → SecretRow → SecretRow
updated_row s r = record {
  id = r.id;
  owner_id = r.owner_id;
  type = s.type;
  payload = bytes s.payload;
  meta = marshal_meta s.meta;
  created_at = r.created_at;
  updated_at = s.updated_at / 1000;
  deleted = r.deleted;
}

-- What a key holds after an update that its own row lets through.
abbrev pub updated_view : Secret → Option SecretRow → Option SecretRow
updated_view s none = none
updated_view s (some r) = some (if is_visible s.owner_id (some r) then updated_row s r else r)

change_live-updated_view :
    (s : Secret) (j : Text) (rows : Secrets)
    → change_live s.owner_id s.id (set_contents s (bytes s.payload)) (find_row j rows)
      ≡ (if s.id == j then updated_view s (find_row j rows) else find_row j rows)
change_live-updated_view s j rows = elim (Option-cases (find_row j rows)) [
  | inl absent ↦ ground arith
  | inr (r, found) ↦
      rw found
        (ground (arith, find_row-id j rows r found, text_beq_iff r.id s.id, text_beq_iff s.id j))
]

-- `Update` with a payload succeeds if the key holds a row of the owner that is not deleted, and
-- then changes its type, payload, metadata and time of update, and keeps its time of creation; it
-- returns `ErrSecretNotFound` in every other case. Nothing else changes under any key. The table
-- is sound and the database answers.
pub find_row-update :
    (s : Secret) (w : Server)
    → IsUp w.env
    → IsTable w.secrets
    → s.payload ≢ none
    → ((update s w).0 ≡ (
        if is_visible s.owner_id (find_row s.id w.secrets)
        then ok s
        else err (sentinel err_secret_not_found)))
      × ((j : Text)
          → find_row j (update s w).1.secrets
            ≡ (if s.id == j then updated_view s (find_row j w.secrets) else find_row j w.secrets))
unfolding update
find_row-update s w up t p =
    let live = is_live s.owner_id s.id in
    let f = set_contents s (bytes s.payload) in
    let e =
      update_live-fine (codes "update secret") s.owner_id s.id (update_contents s) (next_reply w).1
        (update_where live f w.secrets) t (update_contents_ok s w.secrets p) in
    (
      rw (up w.env.calls, e)
          (elim (Bool-cases (is_visible s.owner_id (find_row s.id w.secrets))) [
            | inl visible ↦ rw visible
            | inr hidden ↦ rw hidden
          ]),
      λ j.
          rw (up w.env.calls, e, ← change_live-updated_view s j w.secrets)
            (elim (Bool-cases (is_visible s.owner_id (find_row s.id w.secrets))) [
              | inl visible ↦ rw visible (find_row-update_where j live f w.secrets (λ r. refl))
              | inr hidden ↦ rw hidden (find_row-update_where j live f w.secrets (λ r. refl))
            ]),
    )
