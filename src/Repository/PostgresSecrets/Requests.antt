-- ===== src/Repository/PostgresSecrets/Requests.antt =====
-- The calls that a client of `SecretStore` can make, in any order and with any replies.
use goph_keeper.Base.{
  ◌≡◌, refl, ◌∙◌, ◌≢◌, List, [], ◌∷◌, Text, arith, All, Outcome, ok, ◌⊎◌, inl, inr, Option-cases,
  Outcome-cases, Bool-cases, nat_beq, codes, Bool,
}
use goph_keeper.Database.{Reply}
use goph_keeper.Models.{Time, Secret}
use goph_keeper.Repository.Secrets.{
  Secrets, SecretRow, insert_row, upsert_row, update_contents, update_where, affected_rows, is_live,
  set_deleted,
}
use goph_keeper.Repository.Secrets.Keys.{IsTable}
use goph_keeper.Repository.Secrets.Owners.{owned_rows}
use goph_keeper.Repository.Secrets.Statements.{
  IsConfined, unchanged-IsConfined, insert_row-IsConfined, upsert_row-IsConfined,
  update_contents-IsConfined, delete_row-IsConfined,
}
use goph_keeper.Repository.Server.{Server, next_reply, now}
use goph_keeper.Repository.PostgresSecrets.{
  create, get_by_id, list_by_owner, list_updated_since, update, delete, upsert, update_live,
}

-- `SecretReadWriter` and `SecretSyncStore`.
pub data Request : Type 0 where
  create_secret : Secret → Request
  get_secret : Text → Text → Request
  list_secrets : Text → Request
  list_updated : Text → Time → Request
  update_secret : Secret → Request
  delete_secret : Text → Text → Request
  upsert_secret : Secret → Request

abbrev pub requester : Request → Text
requester (create_secret s) = s.owner_id
requester (get_secret owner_id id) = owner_id
requester (list_secrets owner_id) = owner_id
requester (list_updated owner_id since) = owner_id
requester (update_secret s) = s.owner_id
requester (delete_secret owner_id id) = owner_id
requester (upsert_secret s) = s.owner_id

-- The state after a call, whatever the call returns.
unfoldable pub serve : Request → Server → Server
unfolding create get_by_id list_by_owner list_updated_since update delete upsert
serve (create_secret s) w = (create s w).1
serve (get_secret owner_id id) w = (get_by_id owner_id id w).1
serve (list_secrets owner_id) w = (list_by_owner owner_id w).1
serve (list_updated owner_id since) w = (list_updated_since owner_id since w).1
serve (update_secret s) w = (update s w).1
serve (delete_secret owner_id id) w = (delete owner_id id w).1
serve (upsert_secret s) w = (upsert s w).1

unfoldable pub serve_all : List Request → Server → Server
unfolding serve
serve_all [] w = w
serve_all (q ∷ qs) w = serve_all qs (serve q w)

create-secrets :
    (s : Secret) (w : Server)
    → ((create s w).1.secrets ≡ w.secrets) ⊎ (insert_row s w.secrets ≡ ok (create s w).1.secrets)
unfolding create
create-secrets s w = ground arith

upsert-secrets :
    (s : Secret) (w : Server)
    → ((upsert s w).1.secrets ≡ w.secrets) ⊎ (upsert_row s w.secrets ≡ ok (upsert s w).1.secrets)
unfolding upsert
upsert-secrets s w = ground arith

update_live-secrets :
    (text : Text) (r : Reply) (live : SecretRow → Bool) (statement : Secrets → Outcome Secrets)
    (w : Server)
    → ((update_live text r live statement w).1.secrets ≡ w.secrets)
      ⊎ (statement w.secrets ≡ ok (update_live text r live statement w).1.secrets)
unfolding update_live
update_live-secrets text r live statement w = elim (Option-cases r.exec) [
  | inr (e, refused) ↦ inl (rw refused)
  | inl sent ↦ elim (Outcome-cases (statement w.secrets)) [
    | inr (e, failed) ↦ inl (rw (sent, failed))
    | inl (rows, done) ↦ inr (
        rw (sent, done)
          (elim (Option-cases r.affected) [
            | inr (e, unknown) ↦ rw unknown
            | inl counted ↦
                rw counted (elim (Bool-cases (nat_beq (affected_rows live w.secrets) 0)) [
                  | inl nothing ↦ rw nothing
                  | inr some_rows ↦ rw some_rows
                ])
          ]))
  ]
]

update-secrets :
    (s : Secret) (w : Server)
    → ((update s w).1.secrets ≡ w.secrets)
      ⊎ (update_contents s w.secrets ≡ ok (update s w).1.secrets)
unfolding update
update-secrets s w = ground (
  arith,
  update_live-secrets (codes "update secret") (w.env.replies w.env.calls) (is_live s.owner_id s.id)
      (update_contents s) (next_reply w).1,
)

delete-secrets :
    (owner_id id : Text) (w : Server)
    → ((delete owner_id id w).1.secrets ≡ w.secrets)
      ⊎ ((delete owner_id id w).1.secrets
          ≡ update_where (is_live owner_id id) (set_deleted (w.env.clock w.env.ticks)) w.secrets)
unfolding delete
delete-secrets owner_id id w =
    let live = is_live owner_id id in
    let t = w.env.clock w.env.ticks in
    ground (
      arith,
      update_live-secrets (codes "delete secret") (w.env.replies w.env.calls) live
          (λ rows. ok (update_where live (set_deleted t) rows)) (next_reply (now w).1).1,
    )

pub get_by_id-secrets :
    (owner_id id : Text) (w : Server) → (get_by_id owner_id id w).1.secrets ≡ w.secrets
unfolding get_by_id
get_by_id-secrets owner_id id w = ground arith

pub list_by_owner-secrets :
    (owner_id : Text) (w : Server) → (list_by_owner owner_id w).1.secrets ≡ w.secrets
unfolding list_by_owner
list_by_owner-secrets owner_id w = ground arith

pub list_updated_since-secrets :
    (owner_id : Text) (since : Time) (w : Server)
    → (list_updated_since owner_id since w).1.secrets ≡ w.secrets
unfolding list_updated_since
list_updated_since-secrets owner_id since w = ground arith

serve-IsConfined :
    (q : Request) (w : Server) → IsConfined (requester q) w.secrets (serve q w).secrets
unfolding serve
serve-IsConfined (create_secret s) w = elim (create-secrets s w) [
  | inl same ↦ rw same (unchanged-IsConfined s.owner_id w.secrets)
  | inr done ↦ insert_row-IsConfined s w.secrets _ done
]
serve-IsConfined (get_secret owner_id id) w =
    rw (get_by_id-secrets owner_id id w) (unchanged-IsConfined owner_id w.secrets)
serve-IsConfined (list_secrets owner_id) w =
    rw (list_by_owner-secrets owner_id w) (unchanged-IsConfined owner_id w.secrets)
serve-IsConfined (list_updated owner_id since) w =
    rw (list_updated_since-secrets owner_id since w) (unchanged-IsConfined owner_id w.secrets)
serve-IsConfined (update_secret s) w = elim (update-secrets s w) [
  | inl same ↦ rw same (unchanged-IsConfined s.owner_id w.secrets)
  | inr done ↦ update_contents-IsConfined s w.secrets _ done
]
serve-IsConfined (delete_secret owner_id id) w = elim (delete-secrets owner_id id w) [
  | inl same ↦ rw same (unchanged-IsConfined owner_id w.secrets)
  | inr done ↦ rw done (delete_row-IsConfined owner_id id _ w.secrets)
]
serve-IsConfined (upsert_secret s) w = elim (upsert-secrets s w) [
  | inl same ↦ rw same (unchanged-IsConfined s.owner_id w.secrets)
  | inr done ↦ upsert_row-IsConfined s w.secrets _ done
]

pub owned_rows-serve :
    (q : Request) (w : Server) (o : Text)
    → requester q ≢ o
    → owned_rows o (serve q w).secrets ≡ owned_rows o w.secrets
owned_rows-serve q w o d = (serve-IsConfined q w).others o d

-- Whatever calls arrive and whatever the database replies, the table keeps unique keys and
-- metadata that decodes.
pub serve_all-IsTable :
    (qs : List Request) (w : Server) → IsTable w.secrets → IsTable (serve_all qs w).secrets
unfolding serve_all
serve_all-IsTable [] w h = h
serve_all-IsTable (q ∷ qs) w h = serve_all-IsTable qs (serve q w) ((serve-IsConfined q w).sound h)

-- Calls of other owners leave an owner's rows as they are, whatever the database replies.
pub owned_rows-serve_all :
    (o : Text) (qs : List Request) (w : Server)
    → All (λ q. requester q ≢ o) qs
    → owned_rows o (serve_all qs w).secrets ≡ owned_rows o w.secrets
unfolding serve_all
owned_rows-serve_all o [] w h = refl
owned_rows-serve_all o (q ∷ qs) w (d, h) =
    owned_rows-serve_all o qs (serve q w) h ∙ (serve-IsConfined q w).others o d
