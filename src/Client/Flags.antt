-- ===== src/Client/Flags.antt =====
-- The package `flag` of Go's standard library, as cmd/client/main.go uses it: flags with a text or a
-- truth value, and the policy `flag.ExitOnError`.
use goph_keeper.Base.{
  ℕ, ◌||◌, Option, none, some, List, [], ◌∷◌, Text, codes, text_eq, nat_eq, ◌==◌, is_empty,
  if◌then◌else◌, parse_bool,
}

-- The name of a flag, and what it takes.
pub data Kind : Type 0 where
  text_value bool_value : Kind

abbrev pub FlagSet : Type 0
FlagSet = List (Text × Kind)

abbrev pub Values : Type 0
Values = List (Text × Text)

-- What `fs.Parse` does: the values that are set, in order, with the arguments after them; or the
-- end of the process, after a message.
pub data Parsing : Type 0 where
  parsed : Values → List Text → Parsing
  exits : Parsing

-- What an argument is: a flag with `=` and a value, a flag alone, the mark `--`, none of these, or
-- a flag that is malformed.
pub data Argument : Type 0 where
  flag_with : Text → Text → Argument
  flag_alone : Text → Argument
  terminator no_flag malformed : Argument

-- The name of a flag up to the first `=` after its first character, and the value.
unfoldable pub cut_value : Text → Text × Option Text
cut_value [] = ([], none)
cut_value (c ∷ s) =
    let (name, value) = cut_value s in if c == b'=' then ([], some s) else (c ∷ name, value)

abbrev named_argument : Text × Option Text → Argument
named_argument (name, none) = flag_alone name
named_argument (name, some value) = flag_with name value

abbrev prefixed : ℕ → Text × Option Text → Argument
prefixed c (name, value) = named_argument (c ∷ name, value)

-- After the dashes.
abbrev flag_of : Text → Argument
flag_of [] = malformed
flag_of (c ∷ s) = if c == b'-' || c == b'=' then malformed else prefixed c (cut_value s)

abbrev dashed : Text → Argument
dashed [] = no_flag
dashed (c ∷ s) =
    if c == b'-' then (if is_empty s then terminator else flag_of s) else flag_of (c ∷ s)

unfoldable pub argument_of : Text → Argument
unfolding cut_value
argument_of [] = no_flag
argument_of (c ∷ s) = if c == b'-' then dashed s else no_flag

unfoldable pub kind_of : FlagSet → Text → Option Kind
kind_of [] name = none
kind_of ((n, kind) ∷ flags) name =
    let rest = kind_of flags name in if n == name then some kind else rest

abbrev set : Text → Text → Parsing → Parsing
set name value (parsed values rest) = parsed ((name, value) ∷ values) rest
set name value exits = exits

-- A value for a flag, given what follows.
abbrev set_value : Option Kind → Text → Text → Parsing → Parsing
set_value none name value next = exits
set_value (some text_value) name value next = set name value next
set_value (some bool_value) name value next = elim (parse_bool value) [
  | none ↦ exits
  | some _ ↦ set name value next
]

-- A flag alone as the last argument: a text is missing.
abbrev set_last : Option Kind → Text → Parsing
set_last none name = exits
set_last (some text_value) name = exits
set_last (some bool_value) name = parsed ((name, codes "true") ∷ []) []

-- A flag alone before another argument, with the parsing from there and from after it.
abbrev set_alone : Option Kind → Text → Text → Parsing → Parsing → Parsing
set_alone none name value here after = exits
set_alone (some text_value) name value here after = set name value after
set_alone (some bool_value) name value here after = set name (codes "true") here

-- `fs.Parse`. A flag that is not defined ends the process, `-h` and `-help` too.
unfoldable pub parse : FlagSet → List Text → Parsing
unfolding argument_of
parse flags [] = parsed [] []
parse flags (a ∷ []) = elim (argument_of a) [
  | flag_with name value ↦ set_value (kind_of flags name) name value (parsed [] [])
  | flag_alone name ↦ set_last (kind_of flags name) name
  | terminator ↦ parsed [] []
  | no_flag ↦ parsed [] (a ∷ [])
  | malformed ↦ exits
]
parse flags (a ∷ b ∷ rest) =
    let here = parse flags (b ∷ rest) in
    let after = parse flags rest in
    elim (argument_of a) [
      | flag_with name value ↦ set_value (kind_of flags name) name value here
      | flag_alone name ↦ set_alone (kind_of flags name) name b here after
      | terminator ↦ parsed [] (b ∷ rest)
      | no_flag ↦ parsed [] (a ∷ b ∷ rest)
      | malformed ↦ exits
    ]

-- The variable of a flag: what was set last, or else its default, the empty text.
unfoldable pub value_from : Text → Values → Text → Text
value_from current [] name = current
value_from current ((n, value) ∷ values) name =
    value_from (if n == name then value else current) values name

abbrev pub value_of : Values → Text → Text
value_of values name = value_from [] values name
