-- ===== src/Service/Postgres.antt =====
-- The services over the Postgres store, as `NewRouter` puts them together.
pub mod Pushes
pub mod Updates
use goph_keeper.Base.{
  ℕ, ◌≡◌, refl, ap, ◌≢◌, Bool, true, false, Option, none, some, List, [], ◌∷◌, Text, text_eq, ◌==◌,
  ok, err, continue, is_blank, if◌then◌else◌, not, ◌&&◌,
}
use goph_keeper.Models.{Time, Payload, Meta, Secret, is_zero}
use goph_keeper.Database.{IsUp}
use goph_keeper.Repository.Secrets.{SecretRow, Secrets, supersedes}
use goph_keeper.Repository.Secrets.Owners.{owned_rows}
use goph_keeper.Repository.Server.{Server, now, new_id}
use goph_keeper.Repository.PostgresSecrets
use goph_keeper.Repository.PostgresSecrets.Requests.{
  create_secret, get_secret, list_secrets, list_updated, update_secret, delete_secret,
  upsert_secret, owned_rows-serve, serve, get_by_id-secrets, list_by_owner-secrets,
  list_updated_since-secrets,
}
use goph_keeper.Service.Secrets.{SecretStore}
use goph_keeper.Service.Isolation.{Isolates}

abbrev pub postgres_store : SecretStore
postgres_store = record {
  State = Server;
  create = PostgresSecrets.create;
  get_by_id = PostgresSecrets.get_by_id;
  list_by_owner = PostgresSecrets.list_by_owner;
  update = PostgresSecrets.update;
  delete = PostgresSecrets.delete;
  list_updated_since = PostgresSecrets.list_updated_since;
  upsert = PostgresSecrets.upsert;
  now_fn = now;
  id_fn = new_id;
}

unfoldable pub postgres_store-isolates : Isolates postgres_store
unfolding serve
postgres_store-isolates = record {
  Rows = Secrets;
  rows_of = λ o w. owned_rows o w.secrets;
  create_others = λ s w o d. owned_rows-serve (create_secret s) w o d;
  update_others = λ s w o d. owned_rows-serve (update_secret s) w o d;
  upsert_others = λ s w o d. owned_rows-serve (upsert_secret s) w o d;
  delete_others = λ a id w o d. owned_rows-serve (delete_secret a id) w o d;
  get_all = λ a id w o. ap (owned_rows o) (get_by_id-secrets a id w);
  list_all = λ a w o. ap (owned_rows o) (list_by_owner-secrets a w);
  updated_all = λ a t w o. ap (owned_rows o) (list_updated_since-secrets a t w);
  now_all = λ w o. refl;
  id_all = λ w o. refl;
}
