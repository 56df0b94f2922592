-- ===== src/Client/Commands/Store.antt =====
-- client/store/local_store.go: opening the local store, as a command does before it runs.
use goph_keeper.Base.{
  Option, none, some, codes, Error, migrate_failed, Run, ◌>>=◌, ◌>>◌, return, raise,
}
use goph_keeper.Client.Device.{Device, next_error, next_reply, plain}

-- What `sql.Open` and `db.Close` return for the local database.
pub record Opening : Type 0 where
  pub open_error : Option Error
  pub close_error : Option Error

-- `migrateLocal`: the table and its indexes are created unless they are there.
abbrev pub migrate_local : Run Device (Option Error)
migrate_local = do r ← next_reply; return r.exec

abbrev pub migrated : Option Error → Option Error → Run Device (Unit {0})
migrated none close_error = return tt
migrated (some e) none = raise e
migrated (some e) (some c) = raise (migrate_failed (codes "close local db after migrate") c e)

-- `NewLocalStore`.
unfoldable pub new_local_store : Opening → Run Device (Unit {0})
new_local_store o = do
  mkdir ← next_error
  plain mkdir
  plain o.open_error
  e ← migrate_local
  migrated e o.close_error

-- `LocalStore.Close`.
abbrev pub close_local : Opening → Option Error
close_local o = o.close_error
