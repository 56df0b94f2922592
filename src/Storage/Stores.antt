-- ===== src/Storage/Stores.antt =====
-- internal/storage: what the start of the stores leaves open, and when it succeeds.
use goph_keeper.Base.{
  ◌≡◌, ℕ, false, ◌∷◌, Text, text_eq, codes, is_blank, Unicode, Outcome, ok, err, Error,
}
use goph_keeper.Config.{ServerConfig}
use goph_keeper.Config.Validate.{word_of}
use goph_keeper.Storage.{Driver, Connections, PostgresStores, close, stores_of, source_url}

module _ (v : Driver) where
  -- A start that fails leaves open what was open; one that succeeds adds the connection of its
  -- stores, and has all migrations applied.
  abbrev pub Settled : Text → Connections → Outcome PostgresStores × Connections → Type 0
  Settled url s (err e, s') = s'.live ≡ s.live
  Settled url s (ok stores, s') =
      (s'.live ≡ stores.db ∷ s.live)
      × (s'.migrated ≡ url ∷ s.migrated)
      × (stores ≡ stores_of stores.db)

  -- What a start makes of the connections.
  abbrev pub Failed : Connections → Outcome PostgresStores × Connections → Type 0
  Failed s x = (e : Error) × (x.0 ≡ err e) × (x.1.live ≡ s.live)

  abbrev pub Started :
      Unicode → ServerConfig → Text → Connections → Outcome PostgresStores × Connections → Type 0
  Started u cfg path s x =
      (db : ℕ) × (x.0 ≡ ok (stores_of db))
      × (word_of u cfg.storage.type ≡ codes "postgres")
      × (is_blank cfg.storage.dsn ≡ false)
      × (x.1.live ≡ db ∷ s.live)
      × (x.1.migrated ≡ source_url path ∷ s.migrated)
      × ((close v db x.1).1.live ≡ s.live)
