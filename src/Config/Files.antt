-- ===== src/Config/Files.antt =====
-- internal/config/config.go: reading the configuration file.
use goph_keeper.Base.{
  ◌||◌, [], ◌∷◌, reverse, Text, Bytes, codes, text_eq, nat_eq, ◌==◌, Unicode, to_lower,
  if◌then◌else◌, Outcome, ok, err, failure, wrapped,
}
use goph_keeper.Config.{Host, Parsers}

-- `filepath.Ext`: what follows the last dot of the last element of a path, with the dot. The
-- path is read from its end, and `read` is what was met so far.
unfoldable pub ext_back : Text → Text → Text
ext_back read [] = []
ext_back read (c ∷ rest) =
    let before = ext_back (c ∷ read) rest in
    if c == b'/' then [] else if c == b'.' then c ∷ read else before

abbrev pub ext : Text → Text
ext path = ext_back [] (reverse path)

abbrev pub label_err : {C : Type 0} → Text → Outcome C → Outcome C
label_err text (ok cfg) = ok cfg
label_err text (err e) = err (wrapped text e)

abbrev parse_as : {C : Type 0} → Parsers C → Text → C → Bytes → Outcome C
parse_as p extension target contents =
    if extension == codes ".json"
    then label_err (codes "parse json config") (p.json contents target)
    else if extension == codes ".yaml" || extension == codes ".yml"
    then label_err (codes "parse yaml config") (p.yaml contents target)
    else err (failure (codes "unsupported config format: use .yaml, .yml, or .json"))

unfoldable pub load_config_file : {C : Type 0} → Unicode → Host → Parsers C → Text → C → Outcome C
load_config_file u h p path target = elim (h.read_file path) [
  | err e ↦ err (wrapped (codes "read config") e)
  | ok contents ↦ parse_as p (to_lower u (ext path)) target contents
]
