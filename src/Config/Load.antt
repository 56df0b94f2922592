-- ===== src/Config/Load.antt =====
-- internal/config/config.go: the configuration from the file, the environment and flags.
use goph_keeper.Base.{
  Bool, false, not, Option, none, some, List, [], ◌∷◌, Text, codes, is_empty, is_blank, Unicode,
  if◌then◌else◌, ℤ, pos, is_zero, atoi, parse_bool, Outcome, ok, err,
}
use goph_keeper.Config.{
  LogConfig, ServerConfig, ClientConfig, ServerFlagOverrides, ClientFlagOverrides, Host, Parsers,
  default_server_config, default_client_config,
}
use goph_keeper.Config.Files.{load_config_file}

-- `firstNonEmpty`: the first value that is not blank.
unfoldable pub first_non_empty : List Text → Text
first_non_empty [] = []
first_non_empty (v ∷ values) = let rest = first_non_empty values in if is_blank v then rest else v

-- `os.Getenv`.
abbrev pub getenv : Host → Text → Text
getenv h name = elim (h.lookup_env name) [ none ↦ [] | some v ↦ v ]

-- `if v, ok := os.LookupEnv(name); ok { field = v }`
abbrev pub env_text : Option Text → Text → Text
env_text none field = field
env_text (some v) field = v

-- The same for a field of type `int`: an empty text is 0, and a text that is no number is ignored.
abbrev pub env_int : Option Text → ℤ → ℤ
env_int none field = field
env_int (some v) field = if is_empty v then pos 0 else (elim (atoi v) [ none ↦ field | some n ↦ n ])

abbrev pub env_bool : Option Text → Bool → Bool
env_bool none field = field
env_bool (some v) field =
    if is_empty v then false else (elim (parse_bool v) [ none ↦ field | some b ↦ b ])

abbrev pub env_log : Host → LogConfig → LogConfig
env_log h log = record {
  level = env_text (h.lookup_env (codes "GOPHKEEPER_LOG_LEVEL")) log.level;
  format = env_text (h.lookup_env (codes "GOPHKEEPER_LOG_FORMAT")) log.format;
}

unfoldable pub apply_server_env : Host → ServerConfig → ServerConfig
apply_server_env h cfg = record {
  host = env_text (h.lookup_env (codes "GOPHKEEPER_SERVER_HOST")) cfg.host;
  port = env_int (h.lookup_env (codes "GOPHKEEPER_SERVER_PORT")) cfg.port;
  storage = record {
    type = env_text (h.lookup_env (codes "GOPHKEEPER_SERVER_STORAGE")) cfg.storage.type;
    dsn = env_text (h.lookup_env (codes "GOPHKEEPER_SERVER_DSN")) cfg.storage.dsn;
  };
  log = env_log h cfg.log;
  jwt_key = env_text (h.lookup_env (codes "GOPHKEEPER_SERVER_JWT_KEY")) cfg.jwt_key;
  tls = record {
    enabled = env_bool (h.lookup_env (codes "GOPHKEEPER_SERVER_TLS")) cfg.tls.enabled;
    cert_file = env_text (h.lookup_env (codes "GOPHKEEPER_SERVER_TLS_CERT")) cfg.tls.cert_file;
    key_file = env_text (h.lookup_env (codes "GOPHKEEPER_SERVER_TLS_KEY")) cfg.tls.key_file;
  };
}

unfoldable pub apply_client_env : Host → ClientConfig → ClientConfig
apply_client_env h cfg = record {
  server_url = env_text (h.lookup_env (codes "GOPHKEEPER_CLIENT_SERVER_URL")) cfg.server_url;
  data_dir = env_text (h.lookup_env (codes "GOPHKEEPER_CLIENT_DATA_DIR")) cfg.data_dir;
  tls = env_bool (h.lookup_env (codes "GOPHKEEPER_CLIENT_TLS")) cfg.tls;
  tls_ca = env_text (h.lookup_env (codes "GOPHKEEPER_CLIENT_TLS_CA")) cfg.tls_ca;
  log = env_log h cfg.log;
}

-- `if flag != "" { field = flag }`
abbrev pub flag_text : Text → Text → Text
flag_text flag field = if not (is_empty flag) then flag else field

abbrev pub flag_int : ℤ → ℤ → ℤ
flag_int flag field = if not (is_zero flag) then flag else field

abbrev pub flag_bool : Text → Bool → Bool
flag_bool flag field =
    if not (is_empty flag) then (elim (parse_bool flag) [ none ↦ field | some b ↦ b ]) else field

unfoldable pub apply_server_flags : ServerConfig → ServerFlagOverrides → ServerConfig
apply_server_flags cfg fo = record {
  host = flag_text fo.host cfg.host;
  port = flag_int fo.port cfg.port;
  storage = record {
    type = flag_text fo.storage cfg.storage.type;
    dsn = flag_text fo.dsn cfg.storage.dsn;
  };
  log = record {
    level = flag_text fo.log_level cfg.log.level;
    format = flag_text fo.log_format cfg.log.format;
  };
  jwt_key = flag_text fo.jwt_key cfg.jwt_key;
  tls = record {
    enabled = flag_bool fo.tls cfg.tls.enabled;
    cert_file = flag_text fo.tls_cert cfg.tls.cert_file;
    key_file = flag_text fo.tls_key cfg.tls.key_file;
  };
}

unfoldable pub apply_client_flags : ClientConfig → ClientFlagOverrides → ClientConfig
apply_client_flags cfg fo = record {
  server_url = flag_text fo.server_url cfg.server_url;
  data_dir = flag_text fo.data_dir cfg.data_dir;
  tls = flag_bool fo.tls cfg.tls;
  tls_ca = flag_text fo.tls_ca cfg.tls_ca;
  log = record {
    level = flag_text fo.log_level cfg.log.level;
    format = flag_text fo.log_format cfg.log.format;
  };
}

-- `configPath`, from the flag or the environment.
abbrev pub config_path_of : Host → Text → Text
config_path_of h flag = first_non_empty (flag ∷ getenv h (codes "GOPHKEEPER_CONFIG") ∷ [])

-- The defaults, overwritten by the file if there is a path.
unfoldable pub base_config : {C : Type 0} → Unicode → Host → Parsers C → Text → C → Outcome C
base_config u h p path default_config =
    if is_empty path then ok default_config else load_config_file u h p path default_config

abbrev pub then_apply : {C : Type 0} → (C → C) → Outcome C → Outcome C
then_apply f (ok cfg) = ok (f cfg)
then_apply f (err e) = err e

unfoldable pub load_server_config :
    Unicode → Host → Parsers ServerConfig → ServerFlagOverrides → Outcome ServerConfig
load_server_config u h p fo =
    then_apply (λ cfg. apply_server_flags (apply_server_env h cfg) fo)
      (base_config u h p (config_path_of h fo.config_path) default_server_config)

unfoldable pub load_client_config :
    Unicode → Host → Parsers ClientConfig → ClientFlagOverrides → Outcome ClientConfig
load_client_config u h p fo =
    then_apply (λ cfg. apply_client_flags (apply_client_env h cfg) fo)
      (base_config u h p (config_path_of h fo.config_path) default_client_config)
