-- ===== src/Config/Sources.antt =====
-- internal/config/config.go: which file a configuration is read from, and what it makes of the
-- defaults.
use mathlib.Core.Bool.{false≢true}
use goph_keeper.Base.{
  ◌≡◌, refl, sym, ◌||◌, false, Option, none, some, [], ◌∷◌, Text, Bytes, codes, text_eq, ◌==◌,
  is_empty, is_blank, trim_space, Unicode, to_lower, if◌then◌else◌, Outcome, ok, err, failure,
  wrapped, Bool-cases, Outcome-cases, inl, inr, pos,
}
use goph_keeper.Config.{
  ServerConfig, ClientConfig, Host, Parsers, default_server_config, default_client_config,
}
use goph_keeper.Config.Files.{ext, load_config_file, label_err}
use goph_keeper.Config.Load.{config_path_of, base_config, first_non_empty}

-- The defaults.
abbrev pub server_defaults : ServerConfig
server_defaults = record {
  host = codes "0.0.0.0";
  port = pos 8080;
  storage = record { type = codes "memory"; dsn = [] };
  log = record { level = codes "info"; format = codes "text" };
  jwt_key = [];
  tls = record { enabled = false; cert_file = []; key_file = [] };
}

abbrev pub client_defaults : ClientConfig
client_defaults = record {
  server_url = codes "http://127.0.0.1:8080";
  data_dir = codes ".gophkeeper";
  tls = false;
  tls_ca = [];
  log = record { level = codes "info"; format = codes "text" };
}

abbrev unless_blank : Option Text → Option Text
unless_blank none = none
unless_blank (some v) = if is_blank v then none else some v

-- The file that the flag names, or else the variable GOPHKEEPER_CONFIG, where blank texts name none.
abbrev pub file_named : Host → Text → Option Text
file_named h flag =
    if is_blank flag then unless_blank (h.lookup_env (codes "GOPHKEEPER_CONFIG")) else some flag

abbrev said : {C : Type 0} → Text → Outcome C → Outcome C
said text x = elim x [ ok cfg ↦ ok cfg | err e ↦ err (wrapped text e) ]

-- The parser by the extension of the file's name, in any case.
abbrev pub read_as : {C : Type 0} → Parsers C → Text → Bytes → C → Outcome C
read_as p extension contents cfg =
    if extension == codes ".json"
    then said (codes "parse json config") (p.json contents cfg)
    else if extension == codes ".yaml" || extension == codes ".yml"
    then said (codes "parse yaml config") (p.yaml contents cfg)
    else err (failure (codes "unsupported config format: use .yaml, .yml, or .json"))

-- A configuration, overwritten by the file if one is named.
abbrev pub overwritten : {C : Type 0} → Unicode → Host → Parsers C → Option Text → C → Outcome C
overwritten u h p none cfg = ok cfg
overwritten u h p (some path) cfg = elim (h.read_file path) [
  | err e ↦ err (wrapped (codes "read config") e)
  | ok contents ↦ read_as p (to_lower u (ext path)) contents cfg
]

blank-is_empty : (t : Text) → is_blank t ≡ false → is_empty t ≡ false
unfolding trim_space
blank-is_empty [] h = absurd (false≢true (sym h))
blank-is_empty (c ∷ t) h = refl

label_err-said : {C : Type 0} (text : Text) (x : Outcome C) → label_err text x ≡ said text x
label_err-said text (ok cfg) = refl
label_err-said text (err e) = refl

file_overwritten :
    {C : Type 0} (u : Unicode) (h : Host) (p : Parsers C) (path : Text) (cfg : C)
    → load_config_file u h p path cfg ≡ overwritten u h p (some path) cfg
unfolding load_config_file
file_overwritten u h p path cfg = elim (Outcome-cases (h.read_file path)) [
  | inr (e, failed) ↦ rw (load_config_file, overwritten, failed) refl
  | inl (contents, read) ↦
      rw
        (
          load_config_file,
          overwritten,
          read,
          label_err-said (codes "parse json config") (p.json contents cfg),
          label_err-said (codes "parse yaml config") (p.yaml contents cfg),
        )
        refl
]

module _ {C : Type 0} (u : Unicode) (h : Host) (p : Parsers C) (cfg : C) where
  from_env :
      (x : Option Text)
      → base_config u h p (first_non_empty ((elim x [ none ↦ [] | some v ↦ v ]) ∷ [])) cfg
        ≡ overwritten u h p (unless_blank x) cfg
  unfolding base_config first_non_empty trim_space
  from_env none = refl
  from_env (some v) = elim (Bool-cases (is_blank v)) [
    | inl blank ↦ rw blank refl
    | inr named ↦ rw (named, blank-is_empty v named) (file_overwritten u h p v cfg)
  ]

  -- The base of a configuration, below the environment and the flags.
  pub base_config-overwritten :
      (flag : Text)
      → base_config u h p (config_path_of h flag) cfg ≡ overwritten u h p (file_named h flag) cfg
  unfolding base_config first_non_empty
  base_config-overwritten flag = elim (Bool-cases (is_blank flag)) [
    | inr named ↦ rw (named, blank-is_empty flag named) (file_overwritten u h p flag cfg)
    | inl blank ↦ rw blank (from_env (h.lookup_env (codes "GOPHKEEPER_CONFIG")))
  ]

-- The defaults are those of the code.
pub default_server_config-defaults : default_server_config ≡ server_defaults
unfolding default_server_config
default_server_config-defaults = refl

pub default_client_config-defaults : default_client_config ≡ client_defaults
unfolding default_client_config
default_client_config-defaults = refl
