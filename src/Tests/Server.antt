-- ===== src/Tests/Server.antt =====
-- The theorems on the server's stores and services at a small database with two owners.
use mathlib.Core.List.{Perm}
use mathlib.Core.List.Perm
use mathlib.Core.Bool.{false≢true}
use mathlib.Core.Option.{some-ne-none}
use goph_keeper.Base.{
  ◌≡◌, refl, sym, ◌≢◌, true, false, none, some, [], ◌∷◌, ◌++◌, map, Text, codes, Bytes, text_beq,
  text_beq_iff, is_space, trim_left, trim_space, text_eq, ◌==◌, is_blank, not, ◌&&◌, ◌||◌,
  if◌then◌else◌, keep, Outcome, ok, err, sentinel, err_secret_not_found,
}
use goph_keeper.Models.{Secret}
use goph_keeper.Database.{Env, IsUp, fine, json_null}
use goph_keeper.Repository.Secrets.{Secrets, SecretRow, supersedes, has_id}
use goph_keeper.Repository.Secrets.Keys.{IsTable}
use goph_keeper.Repository.Secrets.Merge.{find_row}
use goph_keeper.Repository.Secrets.Merge.Convergence.{put_all, IsCompatible, SameView}
use goph_keeper.Repository.Secrets.Owners.{owned_rows}
use goph_keeper.Repository.Server.{Server}
use goph_keeper.Repository.PostgresSecrets
use goph_keeper.Repository.PostgresSecrets.Requests.{
  create_secret, delete_secret, upsert_secret, serve_all, serve_all-IsTable, owned_rows-serve_all,
}
use goph_keeper.Repository.PostgresSecrets.Upserts.{
  serve_all-perm, row_of, written_row, settled_row, find_row-upsert,
}
use goph_keeper.Repository.PostgresSecrets.Reads.{
  live_secret, synced_secret, visible, get_by_id-find_row, list_by_owner-perm,
  list_updated_since-perm,
}
use goph_keeper.Repository.PostgresSecrets.Reads.Rows.{is_shown, is_sent, LaterFirst, EarlierFirst}
use goph_keeper.Repository.PostgresSecrets.Writes.{updated_view, is_visible, find_row-update}
use goph_keeper.Service.Isolation.{call, push_call, call-keeps}
use goph_keeper.Service.Postgres.{postgres_store, postgres_store-isolates}
use goph_keeper.Service.Postgres.Pushes.{stamped, stamped_all, push_up, push_stale}
use goph_keeper.Service.Postgres.Updates.{update_created_at}
use goph_keeper.Service.Secrets as SecretService
use goph_keeper.Service.Sync.{push}
use goph_keeper.Service.Sync.Push.{IsPushable, refusal, push_refused}

abbrev pub ann : Text
ann = codes "ann"

abbrev pub bob : Text
bob = codes "bob"

abbrev pub row : Text → Text → SecretRow
row id owner = record {
  id = id;
  owner_id = owner;
  type = codes "text";
  payload = 1 ∷ [];
  meta = json_null;
  created_at = 5;
  updated_at = 9;
  deleted = false;
}

abbrev pub env : Env
env = record {
  replies = λ _. fine;
  calls = 0;
  clock = λ n. 7000;
  ticks = 0;
  random = λ _. ok (1 ∷ 2 ∷ []);
  draws = 0;
}

abbrev pub server : Server
server = record { secrets = row (codes "a") ann ∷ row (codes "b") bob ∷ []; users = []; env = env }

pub up : IsUp server.env
up n = refl

pub table : IsTable server.secrets
unfolding has_id text_beq
table = (refl, (none, refl), (refl, (none, refl), tt))

abbrev note : Text → Text → Secret
note id owner = record {
  id = id;
  owner_id = owner;
  type = codes "text";
  payload = some (3 ∷ []);
  meta = none;
  deleted = false;
  created_at = 8000;
  updated_at = 8000;
}

abbrev c_note : Secret
c_note = note (codes "c") ann

paid : {b : Bytes} → some b ≢ none
paid {b} = some-ne-none b

bob-ne-ann : bob ≢ ann
unfolding text_beq
bob-ne-ann e = false≢true ((text_beq_iff bob ann).1 e)

call-keeps_example :
    owned_rows ann (call postgres_store bob (push_call (note (codes "a") bob ∷ [])) server).secrets
    ≡ owned_rows ann server.secrets
unfolding postgres_store-isolates
call-keeps_example =
    call-keeps postgres_store postgres_store-isolates ann bob bob-ne-ann
      (push_call (note (codes "a") bob ∷ [])) server

owned_rows-serve_all_example :
    owned_rows ann
      (serve_all
        (delete_secret bob (codes "a") ∷ upsert_secret (note (codes "a") bob) ∷ [])
        server).secrets
    ≡ owned_rows ann server.secrets
owned_rows-serve_all_example =
    owned_rows-serve_all ann
      (delete_secret bob (codes "a") ∷ upsert_secret (note (codes "a") bob) ∷ []) server
      (bob-ne-ann, (bob-ne-ann, tt))

serve_all-IsTable_example :
    IsTable (serve_all (create_secret c_note ∷ create_secret c_note ∷ []) server).secrets
serve_all-IsTable_example =
    serve_all-IsTable (create_secret c_note ∷ create_secret c_note ∷ []) server table

find_row-upsert_example :
    ((PostgresSecrets.upsert c_note server).0 ≡ ok c_note)
    × ((j : Text)
        → find_row j (PostgresSecrets.upsert c_note server).1.secrets ≡ (
            if c_note.id == j
            then some (settled_row (written_row c_note) (find_row c_note.id server.secrets))
            else find_row j server.secrets))
find_row-upsert_example = find_row-upsert c_note server up paid

abbrev d_note : Secret
d_note = note (codes "d") ann

ids_apart : codes "c" ≢ codes "d"
unfolding text_beq
ids_apart e = false≢true ((text_beq_iff (codes "c") (codes "d")).1 e)

compatible : IsCompatible (map row_of (c_note ∷ d_note ∷ []))
compatible = (
  (
    record { same_owner = refl; no_tie = λ _ _. refl },
    (record { same_owner = refl; no_tie = λ e _. absurd (ids_apart e) }, tt),
  ),
  (
    (
      record { same_owner = refl; no_tie = λ e _. absurd (ids_apart (sym e)) },
      (record { same_owner = refl; no_tie = λ _ _. refl }, tt),
    ),
    tt,
  ),
)

serve_all-perm_example :
    SameView
      (serve_all (map upsert_secret (c_note ∷ d_note ∷ [])) server).secrets
      (serve_all (map upsert_secret (d_note ∷ c_note ∷ [])) server).secrets
serve_all-perm_example =
    serve_all-perm (c_note ∷ d_note ∷ []) (d_note ∷ c_note ∷ []) server up (paid, (paid, tt))
      compatible (Perm.swap d_note c_note [])

get_by_id-find_row_example :
    (PostgresSecrets.get_by_id bob (codes "a") server).0
    ≡ visible bob (find_row (codes "a") server.secrets)
get_by_id-find_row_example = get_by_id-find_row bob (codes "a") server up table

list_by_owner-perm_example :
    (rows : Secrets) × ((PostgresSecrets.list_by_owner ann server).0 ≡ ok (map live_secret rows))
    × Perm rows (keep (is_shown ann) server.secrets)
    × LaterFirst rows
list_by_owner-perm_example = list_by_owner-perm ann server up table

list_updated_since-perm_example :
    (rows : Secrets) × ((PostgresSecrets.list_updated_since ann 4000 server).0
      ≡ ok (map synced_secret rows))
    × Perm rows (keep (is_sent ann 4000) server.secrets)
    × EarlierFirst rows
list_updated_since-perm_example = list_updated_since-perm ann 4000 server up table

absent : has_id (codes "c") server.secrets ≡ false
unfolding has_id text_beq
absent = refl

find_row-update_example :
    ((PostgresSecrets.update (note (codes "a") ann) server).0 ≡ (
      if is_visible ann (find_row (codes "a") server.secrets)
      then ok (note (codes "a") ann)
      else err (sentinel err_secret_not_found)))
    × ((j : Text)
        → find_row j (PostgresSecrets.update (note (codes "a") ann) server).1.secrets ≡ (
            if text_beq (codes "a") j
            then updated_view (note (codes "a") ann) (find_row j server.secrets)
            else find_row j server.secrets))
find_row-update_example = find_row-update (note (codes "a") ann) server up table paid

pushable : IsPushable c_note
unfolding is_space trim_left trim_space
pushable = (refl, refl)

push_up_example :
    ((push postgres_store ann (c_note ∷ []) server).0 ≡ ok 1)
    × ((push postgres_store ann (c_note ∷ []) server).1.secrets
        ≡ put_all (map row_of (stamped_all ann env.clock 0 (c_note ∷ []))) server.secrets)
push_up_example = push_up ann (c_note ∷ []) server up (pushable, tt) (paid, tt)

abbrev untyped : Secret
untyped = record c_note { type = codes " " }

refused : is_blank untyped.id || not untyped.deleted && is_blank untyped.type ≡ true
unfolding is_space trim_left trim_space
refused = refl

one_pushed :
    push postgres_store ann (c_note ∷ []) server
    ≡ (ok 1, (push postgres_store ann (c_note ∷ []) server).1)
one_pushed = λ i. (push_up_example.0 i, (push postgres_store ann (c_note ∷ []) server).1)

push_refused_example :
    push postgres_store ann ((c_note ∷ []) ++ untyped ∷ c_note ∷ []) server
    ≡ (err (refusal untyped), (push postgres_store ann (c_note ∷ []) server).1)
push_refused_example =
    push_refused postgres_store ann (c_note ∷ []) (c_note ∷ []) untyped 1 server _ one_pushed
      refused

abbrev theft : Secret
theft = note (codes "b") ann

theft-IsPushable : IsPushable theft
unfolding is_space trim_left trim_space
theft-IsPushable = (refl, refl)

held : find_row (codes "b") server.secrets ≡ some (row (codes "b") bob)
unfolding find_row text_beq
held = refl

stale : supersedes (row_of (stamped ann env.clock 0 theft)) (row (codes "b") bob) ≡ false
unfolding text_beq
stale = refl

push_stale_example :
    ((push postgres_store ann (theft ∷ []) server).0 ≡ ok 1)
    × ((j : Text)
        → find_row j (push postgres_store ann (theft ∷ []) server).1.secrets
          ≡ find_row j server.secrets)
push_stale_example =
    push_stale ann theft server (row (codes "b") bob) up theft-IsPushable paid held stale

own : find_row (codes "a") server.secrets ≡ some (row (codes "a") ann)
unfolding find_row text_beq
own = refl

visible_own : is_visible ann (some (row (codes "a") ann)) ≡ true
unfolding text_beq
visible_own = refl

abbrev after : Outcome Secret × Server
after =
    SecretService.update postgres_store ann (codes "a") (codes "card") (some (4 ∷ [])) none server

update_created_at_example :
    (s : Secret) × (after.0 ≡ ok s)
    × (s.created_at ≡ 0)
    × ((new : SecretRow) × (find_row (codes "a") after.1.secrets ≡ some new)
        × (new.created_at ≡ 5)
        × (new.type ≡ codes "card")
        × (new.payload ≡ 4 ∷ [])
        × (new.meta ≡ json_null)
        × (new.updated_at ≡ 7))
update_created_at_example =
    update_created_at ann (codes "a") (codes "card") (some (4 ∷ [])) none server
      (row (codes "a") ann) up table paid own visible_own
