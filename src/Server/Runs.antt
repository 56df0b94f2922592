-- ===== src/Server/Runs.antt =====
-- cmd/server/main.go: what every run of the server leaves behind.
use goph_keeper.Base.{
  ◌≡◌, ◌⊎◌, Option, none, some, ◌∷◌, ◌++◌, codes, Unicode, if◌then◌else◌, decimal, Outcome, ok, err,
  Error,
}
use goph_keeper.Config.{ServerConfig, Host, Parsers}
use goph_keeper.Config.Validate.{word_of}
use goph_keeper.Config.Validate.Laws.{IsValidServer}
use goph_keeper.Storage.{Driver, stores_of}
use goph_keeper.Server.{Listening, Process, verdict}

module _ (u : Unicode) (h : Host) (p : Parsers ServerConfig) (v : Driver) where
  -- Nothing was listened with, and there is an error.
  abbrev pub Refused : Process → Outcome (Unit {0}) × Process → Type 0
  Refused w x = (e : Error) × (x.0 ≡ err e) × (x.1.listened ≡ w.listened)

  -- The server listened with a configuration, and the result is what the listener returned.
  abbrev pub Listened :
      (Listening → Option Error)
      → Outcome ServerConfig
      → Process
      → Outcome (Unit {0}) × Process
      → Type 0
  Listened stopped loaded w x =
      (cfg : ServerConfig) × (l : Listening) × (loaded ≡ ok cfg)
      × IsValidServer u cfg
      × (word_of u cfg.storage.type ≡ codes "postgres")
      × (x.1.listened ≡ l ∷ w.listened)
      × (l.address ≡ cfg.host ++ codes ":" ++ decimal cfg.port)
      × (l.tls ≡ (if cfg.tls.enabled then some (cfg.tls.cert_file, cfg.tls.key_file) else none))
      × (l.secret ≡ cfg.jwt_key)
      × (l.stores ≡ stores_of l.stores.db)
      × (l.live ≡ l.stores.db ∷ w.connections.live)
      × (x.0 ≡ verdict (stopped l))

  abbrev pub Ended :
      (Listening → Option Error)
      → Outcome ServerConfig
      → Process
      → Outcome (Unit {0}) × Process
      → Type 0
  Ended stopped loaded w x =
      (x.1.connections.live ≡ w.connections.live) × (Refused w x ⊎ Listened stopped loaded w x)
