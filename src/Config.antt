-- ===== src/Config.antt =====
-- internal/config/config.go: the configuration of the server and of the client, from defaults, a
-- file, the environment and flags. The JSON and YAML parsers are parameters.
pub mod Files
pub mod Load
pub mod Sources
pub mod Precedence
pub mod Validate
use goph_keeper.Base.{Bool, false, Option, [], Text, Bytes, codes, ℤ, pos, Outcome}

pub record StorageConfig : Type 0 where
  pub type : Text
  pub dsn : Text

pub record LogConfig : Type 0 where
  pub level : Text
  pub format : Text

pub record ServerTlsConfig : Type 0 where
  pub enabled : Bool
  pub cert_file : Text
  pub key_file : Text

pub record ServerConfig : Type 0 where
  pub host : Text
  pub port : ℤ
  pub storage : StorageConfig
  pub log : LogConfig
  pub jwt_key : Text
  pub tls : ServerTlsConfig

pub record ClientConfig : Type 0 where
  pub server_url : Text
  pub data_dir : Text
  pub tls : Bool
  pub tls_ca : Text
  pub log : LogConfig

pub record ServerFlagOverrides : Type 0 where
  pub config_path : Text
  pub host : Text
  pub port : ℤ
  pub storage : Text
  pub dsn : Text
  pub log_level : Text
  pub log_format : Text
  pub jwt_key : Text
  pub tls : Text
  pub tls_cert : Text
  pub tls_key : Text

pub record ClientFlagOverrides : Type 0 where
  pub config_path : Text
  pub server_url : Text
  pub data_dir : Text
  pub tls : Text
  pub tls_ca : Text
  pub log_level : Text
  pub log_format : Text

-- What the program sees of the machine it runs on: `os.LookupEnv` and `os.ReadFile`.
pub record Host : Type 0 where
  pub lookup_env : Text → Option Text
  pub read_file : Text → Outcome Bytes

-- `json.Unmarshal` and `yaml.Unmarshal` over a configuration, whose fields they set. What they
-- leave of it when they fail is not used.
pub record Parsers (C : Type 0) : Type 0 where
  pub json : Bytes → C → Outcome C
  pub yaml : Bytes → C → Outcome C

abbrev pub default_log : LogConfig
default_log = record { level = codes "info"; format = codes "text" }

unfoldable pub default_server_config : ServerConfig
default_server_config = record {
  host = codes "0.0.0.0";
  port = pos 8080;
  storage = record { type = codes "memory"; dsn = [] };
  log = default_log;
  jwt_key = [];
  tls = record { enabled = false; cert_file = []; key_file = [] };
}

unfoldable pub default_client_config : ClientConfig
default_client_config = record {
  server_url = codes "http://127.0.0.1:8080";
  data_dir = codes ".gophkeeper";
  tls = false;
  tls_ca = [];
  log = default_log;
}
