-- ===== src/Client/Items.antt =====
-- client/store/types.go and the timestamps of the local files.
use goph_keeper.Base.{ℕ, ◌*◌, ◌/◌, Bool, Text, Outcome, ok, err, failure}
use goph_keeper.Models.{Time, Meta, Payload}

pub record Item : Type 0 where
  pub id : Text
  pub type : Text
  pub payload : Payload
  pub meta : Meta
  pub deleted : Bool
  pub created_at : Time
  pub updated_at : Time

-- A text in a column or file that should be an instant. `rfc3339 n` is what `Format(time.RFC3339)`
-- writes for an instant in second `n`; the texts of two instants before the year 10000 compare as
-- their seconds do. `malformed` is a text that `time.Parse` refuses.
pub data Stamp : Type 0 where
  rfc3339 : ℕ → Stamp
  malformed : Text → Stamp

-- `t.UTC().Format(time.RFC3339)`: the part of a second is dropped.
abbrev pub format_time : Time → Stamp
format_time t = rfc3339 (t / 1000000000)

-- `time.Parse(time.RFC3339, text)`, up to the year 9999.
abbrev pub parse_time : Stamp → Outcome Time
parse_time (rfc3339 n) = ok (n * 1000000000)
parse_time (malformed text) = err (failure text)

-- An instant after a write and a read.
abbrev pub to_second : Time → Time
to_second t = t / 1000000000 * 1000000000
