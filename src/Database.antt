-- ===== src/Database.antt =====
-- What the stores see of `database/sql`: the outcome of each stage of a statement, the columns'
-- encodings, and the environment (database replies, clock, random source) that a run meets.
pub mod Rows
use goph_keeper.Base.{
  ℕ, suc, ◌+◌, ◌*◌, ◌/◌, ◌≡◌, refl, Bool, true, false, Option, none, some, List, [], ◌∷◌, map, Text,
  Bytes, codes, Outcome, ok, err, Error, sentinel, failure, err_no_rows,
}
use goph_keeper.Models.{Time, Meta}

-- For one statement: the error of each stage, if it fails. A statement that fails changes nothing.
-- `build` is squirrel's `ToSql`, `exec` is `ExecContext` or `QueryContext`, `scan n` is the `Scan`
-- of row `n`, `iterate` is `rows.Err()`.
pub record Reply : Type 0 where
  pub build : Option Error
  pub exec : Option Error
  pub affected : Option Error
  pub scan : ℕ → Option Error
  pub iterate : Option Error
  pub close : Option Error

abbrev pub fine : Reply
fine = record {
  build = none;
  exec = none;
  affected = none;
  scan = λ _. none;
  iterate = none;
  close = none;
}

-- The environment as streams, each with the number of items taken from it.
pub record Env : Type 0 where
  pub replies : ℕ → Reply
  pub calls : ℕ
  pub clock : ℕ → Time
  pub ticks : ℕ
  pub random : ℕ → Outcome Bytes
  pub draws : ℕ

-- Every statement succeeds.
abbrev pub IsUp : Env → Type 0
IsUp e = (n : ℕ) → e.replies n ≡ fine

abbrev pub called : Env → Env
called e = record e { calls = suc e.calls }

abbrev pub ticked : Env → Env
ticked e = record e { ticks = suc e.ticks }

abbrev pub drawn : Env → Env
drawn e = record e { draws = suc e.draws }

-- A JSON column: the encoding of a nil map, of a map, or other JSON.
pub data MetaJson : Type 0 where
  json_null : MetaJson
  json_object : List (Text × Text) → MetaJson
  json_other : Text → MetaJson

-- `json.Marshal` of a map of strings, which cannot fail.
abbrev pub marshal_meta : Meta → MetaJson
marshal_meta none = json_null
marshal_meta (some m) = json_object m

-- `json.Unmarshal` into a map of strings.
abbrev pub unmarshal_meta : MetaJson → Outcome Meta
unmarshal_meta json_null = ok none
unmarshal_meta (json_object m) = ok (some m)
unmarshal_meta (json_other t) = err (failure t)

pub unmarshal_meta-marshal_meta : (m : Meta) → unmarshal_meta (marshal_meta m) ≡ ok m
unmarshal_meta-marshal_meta none = refl
unmarshal_meta-marshal_meta (some m) = refl
