-- ===== src/Tests/Config.antt =====
-- The theorems on the configuration at a small environment.
use goph_keeper.Base.{
  ◌≡◌, none, some, [], Text, Option, codes, text_eq, ◌==◌, if◌then◌else◌, pos, ok, err, failure,
}
use goph_keeper.Config.{ServerConfig, ServerFlagOverrides, Host, Parsers}
use goph_keeper.Config.Load.{load_server_config}
use goph_keeper.Config.Sources.{server_defaults, file_named, overwritten}
use goph_keeper.Config.Precedence.{resolved_server, load_server_config-resolved}
use goph_keeper.Tests.Auth.{unicode}

abbrev pub variables : Text → Option Text
variables name =
    if name == codes "GOPHKEEPER_CONFIG"
    then some (codes "server.json")
    else if name == codes "GOPHKEEPER_SERVER_PORT"
    then some (codes "9090")
    else none

abbrev pub host : Host
host = record { lookup_env = variables; read_file = λ _. ok (codes "{}") }

abbrev pub parsers : Parsers ServerConfig
parsers = record {
  json = λ _ cfg. ok (record cfg { jwt_key = codes "key" });
  yaml = λ _ cfg. err (failure []);
}

abbrev pub flags : ServerFlagOverrides
flags = record {
  config_path = [];
  host = codes "localhost";
  port = pos 0;
  storage = codes "postgres";
  dsn = codes "dsn";
  log_level = [];
  log_format = [];
  jwt_key = [];
  tls = [];
  tls_cert = [];
  tls_key = [];
}

load_server_config-resolved_example :
    load_server_config unicode host parsers flags
    ≡ (elim (overwritten unicode host parsers (file_named host flags.config_path) server_defaults) [
      | ok base ↦ ok (resolved_server host flags base)
      | err e ↦ err e
    ])
load_server_config-resolved_example = load_server_config-resolved unicode host parsers flags
