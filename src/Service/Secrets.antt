-- ===== src/Service/Secrets.antt =====
-- service/secret.go, over any store of secrets, and the interface of such a store.
use goph_keeper.Base.{false, List, Text, Run, ◌>>=◌}
use goph_keeper.Models.{Time, Payload, Meta, Secret}

-- `repository.SecretStore`, with the clock and the source of identifiers that the services call.
pub record SecretStore : Type 1 where
  pub State : Type 0
  pub create : Secret → Run State Secret
  pub get_by_id : Text → Text → Run State Secret
  pub list_by_owner : Text → Run State (List Secret)
  pub update : Secret → Run State Secret
  pub delete : Text → Text → Run State (Unit {0})
  pub list_updated_since : Text → Time → Run State (List Secret)
  pub upsert : Secret → Run State Secret
  pub now_fn : Run State Time
  pub id_fn : Run State Text

-- The methods of `SecretServiceImpl`.
module _ (S : SecretStore) where
  unfoldable pub create : Text → Text → Payload → Meta → Run S.State Secret
  create owner_id secret_type payload meta = do
    id ← S.id_fn
    now ← S.now_fn
    S.create (record {
      id = id;
      owner_id = owner_id;
      type = secret_type;
      payload = payload;
      meta = meta;
      deleted = false;
      created_at = now;
      updated_at = now;
    })

  unfoldable pub get : Text → Text → Run S.State Secret
  get owner_id id = S.get_by_id owner_id id

  unfoldable pub list : Text → Run S.State (List Secret)
  list owner_id = S.list_by_owner owner_id

  -- The time of creation is left at the zero time.
  unfoldable pub update : Text → Text → Text → Payload → Meta → Run S.State Secret
  update owner_id id secret_type payload meta = do
    now ← S.now_fn
    S.update (record {
      id = id;
      owner_id = owner_id;
      type = secret_type;
      payload = payload;
      meta = meta;
      deleted = false;
      created_at = 0;
      updated_at = now;
    })

  unfoldable pub delete : Text → Text → Run S.State (Unit {0})
  delete owner_id id = S.delete owner_id id
