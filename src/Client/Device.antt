-- ===== src/Client/Device.antt =====
-- The state of a client: its data directory, and the environment of its calls.
use goph_keeper.Base.{
  ◌≡◌, ℕ, zero, suc, ◌∷◌, [], Option, none, some, Text, Bytes, Outcome, ok, err, Error, Run,
}
use goph_keeper.Models.{Time}
use goph_keeper.Database.{Reply, Env, called, ticked, drawn}
use goph_keeper.Client.Items.{Stamp}
use goph_keeper.Client.LocalRows.{LocalRows}

-- The error of each file operation, if it fails, and the number of operations so far. An operation
-- that fails changes nothing.
pub record Disk : Type 0 where
  pub errors : ℕ → Option Error
  pub operations : ℕ

-- `local.db`, and the files `last_sync`, `token` and `salt` if they are there.
pub record Device : Type 0 where
  pub rows : LocalRows
  pub last_sync : Option Stamp
  pub token : Option Text
  pub salt : Option Bytes
  pub disk : Disk
  pub env : Env

abbrev pub next_reply : Run Device Reply
next_reply d = (ok (d.env.replies d.env.calls), record d { env = called d.env })

-- `nowFn`.
abbrev pub now : Run Device Time
now d = (ok (d.env.clock d.env.ticks), record d { env = ticked d.env })

-- The error of the next file operation.
abbrev pub next_error : Run Device (Option Error)
next_error d = (
  ok (d.disk.errors d.disk.operations),
  record d { disk = record { errors = d.disk.errors; operations = suc d.disk.operations } },
)

-- Every file operation succeeds.
abbrev pub IsWritable : Device → Type 0
IsWritable d = (n : ℕ) → d.disk.errors n ≡ none

-- The first bytes of a source of bytes; the list that stands for it goes on with zeros.
unfoldable pub read_full : ℕ → Bytes → Bytes
read_full zero source = []
read_full (suc n) [] = 0 ∷ read_full n []
read_full (suc n) (b ∷ source) = b ∷ read_full n source

abbrev bytes_of_size : ℕ → Outcome Bytes → Outcome Bytes
bytes_of_size n (ok source) = ok (read_full n source)
bytes_of_size n (err e) = err e

-- `io.ReadFull(rand.Reader, …)` and `rand.Read` into a slice of the given length.
abbrev pub random_bytes : ℕ → Run Device Bytes
random_bytes n d = (bytes_of_size n (d.env.random d.env.draws), record d { env = drawn d.env })

-- `if err != nil { return err }`
abbrev pub plain : Option Error → Run Device (Unit {0})
plain none d = (ok tt, d)
plain (some e) d = (err e, d)
