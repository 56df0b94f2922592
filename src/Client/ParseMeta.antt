-- ===== src/Client/ParseMeta.antt =====
-- client/store/meta.go: the parsing of metadata.
use goph_keeper.Base.{
  ℕ, ◌==◌, nat_eq, text_eq, Option, none, some, List, [], ◌∷◌, Text, is_empty, is_blank, trim_space,
  if◌then◌else◌,
}

-- The first pair of a list under a key.
unfoldable pub lookup : Text → List (Text × Text) → Option Text
lookup key [] = none
lookup key ((k, v) ∷ pairs) = if k == key then some v else lookup key pairs

-- `result[key] = val`.
unfoldable pub put_pair : Text → Text → List (Text × Text) → List (Text × Text)
put_pair key val [] = (key, val) ∷ []
put_pair key val ((k, v) ∷ pairs) =
    let rest = put_pair key val pairs in if k == key then (key, val) ∷ pairs else (k, v) ∷ rest

abbrev start : ℕ → List Text → List Text
start c [] = (c ∷ []) ∷ []
start c (part ∷ parts) = (c ∷ part) ∷ parts

-- `strings.Split` at a separator of one character.
unfoldable pub split : ℕ → Text → List Text
split sep [] = [] ∷ []
split sep (c ∷ s) = let rest = split sep s in if c == sep then [] ∷ rest else start c rest

abbrev behind : ℕ → Text × Option Text → Text × Option Text
behind c (front, back) = (c ∷ front, back)

-- `strings.SplitN(s, sep, 2)`: what is before the first separator, and what is after it, if any.
unfoldable pub cut : ℕ → Text → Text × Option Text
cut sep [] = ([], none)
cut sep (c ∷ s) = let rest = cut sep s in if c == sep then ([], some s) else behind c rest

abbrev value_of : Option Text → Text
value_of none = []
value_of (some val) = trim_space val

abbrev add_cut : Text × Option Text → List (Text × Text) → List (Text × Text)
add_cut (front, back) result =
    let key = trim_space front in
    if is_empty key then result else put_pair key (value_of back) result

-- One turn of the loop.
unfoldable pub add_pair : Text → List (Text × Text) → List (Text × Text)
add_pair p result =
    let p' = trim_space p in if is_empty p' then result else add_cut (cut b'=' p') result

unfoldable pub add_pairs : List Text → List (Text × Text) → List (Text × Text)
add_pairs [] result = result
add_pairs (p ∷ pairs) result = add_pairs pairs (add_pair p result)

unfoldable pub parse_meta : Text → List (Text × Text)
parse_meta input = if is_blank input then [] else add_pairs (split b',' input) []
