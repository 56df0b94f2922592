-- ===== src/Service/Postgres/Updates.antt =====
-- `SecretServiceImpl.Update` over Postgres: what it returns and what it stores.
use goph_keeper.Base.{
  ◌≡◌, refl, ◌∙◌, ◌≢◌, true, false, none, some, Text, text_eq, text_beq_refl, ◌/◌, ok,
}
use goph_keeper.Models.{Payload, Meta, Secret}
use goph_keeper.Database.{IsUp, ticked, marshal_meta}
use goph_keeper.Repository.Secrets.{SecretRow}
use goph_keeper.Repository.Secrets.Keys.{IsTable}
use goph_keeper.Repository.Secrets.Merge.{find_row}
use goph_keeper.Repository.Server.{Server}
use goph_keeper.Repository.PostgresSecrets.Upserts.{bytes}
use goph_keeper.Repository.PostgresSecrets.Writes.{find_row-update, is_visible, updated_row}
use goph_keeper.Service.Secrets.{update}
use goph_keeper.Service.Postgres.{postgres_store}

-- An update of a secret that the owner can see returns a secret whose time of creation is the
-- zero time, whatever the row's is; the row keeps its time of creation and takes the new type,
-- payload, metadata and time of update, the clock's in microseconds. The table is sound and the database answers.
pub update_created_at :
    (owner_id id type : Text) (payload : Payload) (meta : Meta) (w : Server) (old : SecretRow)
    → IsUp w.env
    → IsTable w.secrets
    → payload ≢ none
    → find_row id w.secrets ≡ some old
    → is_visible owner_id (some old) ≡ true
    → let after = update postgres_store owner_id id type payload meta w in
      (s : Secret) × (after.0 ≡ ok s)
      × (s.created_at ≡ 0)
      × ((new : SecretRow) × (find_row id after.1.secrets ≡ some new)
          × (new.created_at ≡ old.created_at)
          × (new.type ≡ type)
          × (new.payload ≡ bytes payload)
          × (new.meta ≡ marshal_meta meta)
          × (new.updated_at ≡ w.env.clock w.env.ticks / 1000))
unfolding update
update_created_at owner_id id type payload meta w old up t p held seen =
    let s : Secret = record {
      id = id;
      owner_id = owner_id;
      type = type;
      payload = payload;
      meta = meta;
      deleted = false;
      created_at = 0;
      updated_at = w.env.clock w.env.ticks;
    } in
    let (result, view) = find_row-update s (record w { env = ticked w.env }) up t p in
    (
      s,
      result ∙ rw (held, seen),
      refl,
      (
        updated_row s old,
        view id ∙ rw (text_beq_refl id, held, seen) refl,
        refl,
        refl,
        refl,
        refl,
        refl,
      ),
    )
