-- ===== src/Repository/Server.antt =====
-- The state that the server's stores share: the database and the environment of its calls.
use goph_keeper.Base.{List, Text, Bytes, hex_encode, Outcome, ok, err, Run}
use goph_keeper.Models.{Time, User}
use goph_keeper.Database.{Reply, Env, called, ticked, drawn}
use goph_keeper.Repository.Secrets.{Secrets}

-- The columns of `users` hold all of a user, up to the microsecond of its creation.
pub record Server : Type 0 where
  pub secrets : Secrets
  pub users : List User
  pub env : Env

-- The reply to the next statement.
abbrev pub next_reply : Run Server Reply
next_reply w = (ok (w.env.replies w.env.calls), record w { env = called w.env })

-- `time.Now().UTC()`.
abbrev pub now : Run Server Time
now w = (ok (w.env.clock w.env.ticks), record w { env = ticked w.env })

-- 16 bytes of `rand.Read`, or its error.
abbrev pub random_bytes : Run Server Bytes
random_bytes w = (w.env.random w.env.draws, record w { env = drawn w.env })

abbrev in_hex : Outcome Bytes → Outcome Text
in_hex (ok b) = ok (hex_encode b)
in_hex (err e) = err e

-- `newID`: random bytes in hexadecimal.
abbrev pub new_id : Run Server Text
new_id w = (in_hex (w.env.random w.env.draws), record w { env = drawn w.env })
