-- ===== src/Storage.antt =====
-- internal/storage: the connection to Postgres at the start of the server, with its retries and
-- the migrations. The driver and the library of migrations are a parameter.
pub mod Retries
pub mod Stores
use goph_keeper.Base.{
  ℕ, zero, suc, ◌+◌, Bool, true, false, Option, none, some, List, [], ◌∷◌, ◌++◌, Text, codes,
  text_eq, nat_eq, ◌==◌, is_blank, Unicode, if◌then◌else◌, Outcome, ok, err, Error, failure,
  wrapped, ping_failed, migrate_failed, is_error, err_no_change, Run, ◌>>=◌, ◌>>◌, return, raise,
}
use goph_keeper.Config.{ServerConfig}
use goph_keeper.Config.Validate.{word_of}

-- What the driver `pgx` and the library golang-migrate answer: `sql.Open` and the ping of each
-- attempt at a data source, the closing of each connection, and `migrate.New` and `Up` for a
-- source of migrations and a data source.
pub record Driver : Type 0 where
  pub open_error : ℕ → Text → Option Error
  pub ping_error : ℕ → Text → Option Error
  pub close_error : ℕ → Option Error
  pub new_error : Text → Text → Option Error
  pub up_error : Text → Text → Option Error

-- The attempts so far, the connections that are open (each is the number of its attempt), the
-- seconds slept, and the sources whose migrations are all applied, the last first.
pub record Connections : Type 0 where
  pub attempts : ℕ
  pub live : List ℕ
  pub slept : ℕ
  pub migrated : List Text

-- A handle is taken from the list of those that are open.
unfoldable pub release : ℕ → List ℕ → List ℕ
release db [] = []
release db (d ∷ live) = let rest = release db live in if d == db then live else d ∷ rest

abbrev pub postgres_driver : Text
postgres_driver = codes "pgx"

-- `strings.HasPrefix`.
unfoldable pub has_prefix : Text → Text → Bool
has_prefix [] s = true
has_prefix (p ∷ prefix) [] = false
has_prefix (p ∷ prefix) (c ∷ s) = let rest = has_prefix prefix s in if p == c then rest else false

-- The URL of the migrations; `filepath.ToSlash` changes no path where `/` separates.
unfoldable pub source_url : Text → Text
unfolding has_prefix
source_url path = if has_prefix (codes "file://") path then path else codes "file://" ++ path

-- `PostgresStores`: the connection, and that of each of the two stores.
pub record PostgresStores : Type 0 where
  pub db : ℕ
  pub users : ℕ
  pub secrets : ℕ

abbrev pub opened : Connections → Connections
opened s = record s { attempts = suc s.attempts; live = s.attempts ∷ s.live }

-- `%w` of the last error, and of nil.
abbrev pub after_retries : Option Error → Error
after_retries none = failure (codes "open postgres after retries: %!w(<nil>)")
after_retries (some e) = wrapped (codes "open postgres after retries") e

abbrev pub sleep : Connections → Connections
sleep s = record s { slept = suc s.slept }

abbrev pub migrate_result : Option Error → Option Error → Option Error
migrate_result (some e) up = some (wrapped (codes "init migrate") e)
migrate_result none none = none
migrate_result none (some e) =
    if is_error e err_no_change then none else some (wrapped (codes "run migrate") e)

-- `Up` leaves the schema at the last migration: it applied what was missing, or nothing was.
abbrev pub is_up_to_date : Option Error → Bool
is_up_to_date none = true
is_up_to_date (some e) = is_error e err_no_change

abbrev pub ran : Text → Option Error → Option Error → Connections → Connections
ran url (some e) up s = s
ran url none up s = if is_up_to_date up then record s { migrated = url ∷ s.migrated } else s

abbrev pub stores_of : ℕ → PostgresStores
stores_of db = record { db = db; users = db; secrets = db }

module _ (v : Driver) where
  -- `db.Close`: the handle is released also where closing reports an error.
  unfoldable pub close : ℕ → Run Connections (Option Error)
  close db s = (ok (v.close_error db), record s { live = release db s.live })

  abbrev pub ping_result : ℕ → Option Error → Run Connections ℕ
  ping_result db none = return db
  ping_result db (some e) = do
    c ← close db
    raise (elim c [ none ↦ wrapped (codes "ping postgres") e | some c ↦ ping_failed e c ])

  abbrev pub open_result : Text → Option Error → Run Connections ℕ
  open_result dsn (some e) s =
      (err (wrapped (codes "open postgres") e), record s { attempts = suc s.attempts })
  open_result dsn none s = ping_result s.attempts (v.ping_error s.attempts dsn) (opened s)

  -- `OpenPostgres`.
  unfoldable pub open_postgres : Text → Run Connections ℕ
  open_postgres dsn s = open_result dsn (v.open_error s.attempts dsn) s

  -- The body of the loop.
  abbrev pub or_again :
      (Error → Run Connections ℕ) → Outcome ℕ × Connections → Outcome ℕ × Connections
  or_again again (ok db, s) = (ok db, s)
  or_again again (err e, s) = again e (sleep s)

  -- `openPostgresWithRetry`, whose loop runs at most as often as there are attempts left. The
  -- delay is one second.
  unfoldable pub open_with_retry : Text → ℕ → Option Error → Run Connections ℕ
  open_with_retry dsn zero last s = (err (after_retries last), s)
  open_with_retry dsn (suc attempts) last s =
      or_again (λ e. open_with_retry dsn attempts (some e)) (open_postgres dsn s)

  -- `RunMigrations`.
  unfoldable pub run_migrations : Text → Text → Run Connections (Option Error)
  run_migrations dsn path s =
      let url = source_url path in
      let new = v.new_error url dsn in
      let up = v.up_error url dsn in (ok (migrate_result new up), ran url new up s)

  abbrev pub after_migrations : ℕ → Option Error → Run Connections PostgresStores
  after_migrations db none = return (stores_of db)
  after_migrations db (some e) = do
    c ← close db
    raise (elim c [ none ↦ e | some c ↦ migrate_failed (codes "close db after migrations") c e ])

  -- `InitPostgresStores`. The function that it returns closes the connection.
  unfoldable pub init_postgres_stores : Text → Text → Run Connections PostgresStores
  unfolding open_postgres
  init_postgres_stores dsn path =
      if is_blank dsn
      then raise (failure (codes "storage dsn is required for postgres"))
      else do db ← open_with_retry dsn 10 none; e ← run_migrations dsn path; after_migrations db e

  abbrev pub cleanup : PostgresStores → Run Connections (Option Error)
  cleanup stores = close stores.db

  -- `InitStores`.
  unfoldable pub init_stores : Unicode → ServerConfig → Text → Run Connections PostgresStores
  init_stores u cfg path =
      if word_of u cfg.storage.type == codes "postgres"
      then init_postgres_stores cfg.storage.dsn path
      else raise (failure (codes "unsupported storage type: " ++ cfg.storage.type))
