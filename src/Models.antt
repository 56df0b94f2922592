-- ===== src/Models.antt =====
-- internal/models: users and secrets, with the instants and maps that they hold.
use goph_keeper.Base.{ℕ, Bool, List, Option, Text, Bytes, nat_beq}

-- `time.Time` in UTC, as nanoseconds since the zero time (year 1, January 1).
abbrev pub Time : Type 0
Time = ℕ

-- `Time.IsZero`.
abbrev pub is_zero : Time → Bool
is_zero t = nat_beq t 0

-- `map[string]string`; `none` is the nil map.
abbrev pub Meta : Type 0
Meta = Option (List (Text × Text))

-- `[]byte`; `none` is the nil slice.
abbrev pub Payload : Type 0
Payload = Option Bytes

pub record Secret : Type 0 where
  pub id : Text
  pub owner_id : Text
  pub type : Text
  pub payload : Payload
  pub meta : Meta
  pub deleted : Bool
  pub created_at : Time
  pub updated_at : Time

pub record User : Type 0 where
  pub id : Text
  pub email : Text
  pub password_hash : Bytes
  pub created_at : Time
