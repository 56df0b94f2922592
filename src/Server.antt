-- ===== src/Server.antt =====
-- cmd/server/main.go: the start and the end of the server. The flags are parsed, and the router is
-- what the handlers make of the stores.
pub mod Runs
use goph_keeper.Base.{
  ℕ, Bool, true, false, Option, none, some, List, [], ◌∷◌, ◌++◌, Text, Bytes, codes, text_eq, ◌==◌,
  Unicode, if◌then◌else◌, decimal, Outcome, ok, err, Error, wrapped, Run, ◌>>=◌, ◌>>◌, return,
}
use goph_keeper.Config.{ServerConfig, ServerFlagOverrides, Host, Parsers}
use goph_keeper.Config.Load.{load_server_config}
use goph_keeper.Config.Validate.{validate_server}
use goph_keeper.Auth.Tokens.{new_jwt_service}
use goph_keeper.Storage.{Driver, Connections, PostgresStores, init_stores, close}

-- What the server listens with: the address, the files of the certificate and the key with TLS,
-- the secret of the tokens, the stores, and the connections that are open at that time.
pub record Listening : Type 0 where
  pub address : Text
  pub tls : Option (Text × Text)
  pub secret : Bytes
  pub stores : PostgresStores
  pub live : List ℕ

-- The connections, and what the server listened with, the last first.
pub record Process : Type 0 where
  pub connections : Connections
  pub listened : List Listening

abbrev pub on_connections : {A : Type 0} → Run Connections A → Run Process A
on_connections m w = let (x, s) = m w.connections in (x, record w { connections = s })

-- `if err != nil { return fmt.Errorf("text: %w", err) }`
abbrev pub or_fail : {A : Type 0} → Text → Run Process A → Run Process A
or_fail text m w = let (x, w') = m w in (elim x [ ok a ↦ ok a | err e ↦ err (wrapped text e) ], w')

abbrev pub given : {A : Type 0} → Outcome A → Run Process A
given x w = (x, w)

abbrev pub verdict : Option Error → Outcome (Unit {0})
verdict none = ok tt
verdict (some e) = err e

-- `filepath.Join` of a clean absolute path with `migrations`.
abbrev pub join_migrations : Text → Text
join_migrations wd = if wd == codes "/" then codes "/migrations" else wd ++ codes "/migrations"

-- `migrationsDir`, given the result of `os.Getwd`.
abbrev pub migrations_dir : Outcome Text → Outcome Text
migrations_dir (err e) = err e
migrations_dir (ok wd) = ok (join_migrations wd)

module _ (u : Unicode) (h : Host) (p : Parsers ServerConfig) (v : Driver) where
  abbrev pub listening_of : ServerConfig → Bytes → PostgresStores → Connections → Listening
  listening_of cfg secret stores s = record {
    address = cfg.host ++ codes ":" ++ decimal cfg.port;
    tls = if cfg.tls.enabled then some (cfg.tls.cert_file, cfg.tls.key_file) else none;
    secret = secret;
    stores = stores;
    live = s.live;
  }

  -- `http.ListenAndServe` or `http.ListenAndServeTLS`, which return when the server stops, and the
  -- deferred `cleanup`.
  abbrev pub serve :
      (Listening → Option Error) → ServerConfig → Bytes → PostgresStores → Run Process (Unit {0})
  serve stopped cfg secret stores w =
      let l = listening_of cfg secret stores w.connections in
      (
        verdict (stopped l),
        record { connections = (close v stores.db w.connections).1; listened = l ∷ w.listened },
      )

  -- `run`, given what `os.Getwd` and the listener return. `NewRouter` returns no error.
  unfoldable pub run :
      Outcome Text → (Listening → Option Error) → ServerFlagOverrides → Run Process (Unit {0})
  run wd stopped fo = do
    cfg ← or_fail (codes "config error") (given (load_server_config u h p fo))
    or_fail (codes "config validation error") (given (verdict (validate_server u cfg)))
    secret ← or_fail (codes "jwt init error") (given (new_jwt_service cfg.jwt_key))
    dir ← or_fail (codes "migrations path error") (given (migrations_dir wd))
    stores ← or_fail (codes "storage init error") (on_connections (init_stores v u cfg dir))
    serve stopped cfg secret stores
