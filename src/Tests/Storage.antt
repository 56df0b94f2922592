-- ===== src/Tests/Storage.antt =====
-- The theorems on the start of the server, with a database that answers at the second attempt.
use goph_keeper.Base.{zero, suc, none, some, [], codes, text_eq, failure}
use goph_keeper.Storage.{Driver, Connections}
use goph_keeper.Storage.Retries.{Retried, open_with_retry-Retried}
use goph_keeper.Server.{Process}
use goph_keeper.Config.{ServerConfig, default_server_config}

abbrev slow : Driver
slow = record {
  open_error = λ _ _. none;
  ping_error = λ n _. elim n [ zero ↦ some (failure (codes "refused")) | suc _ ↦ none ];
  close_error = λ _. none;
  new_error = λ _ _. none;
  up_error = λ _ _. none;
}

abbrev postgres_config : ServerConfig
postgres_config = record default_server_config {
  storage = record { type = codes " Postgres"; dsn = codes "dsn" };
}

abbrev connections : Connections
connections = record { attempts = 0; live = []; slept = 0; migrated = [] }

abbrev process : Process
process = record { connections = connections; listened = [] }

open_with_retry-Retried_example : Retried slow (codes "dsn") 10 none connections
open_with_retry-Retried_example = open_with_retry-Retried slow (codes "dsn") 10 none connections
