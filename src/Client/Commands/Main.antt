-- ===== src/Client/Commands/Main.antt =====
-- cmd/client/main.go: `run`. The terminal interface and the construction of the API client from the
-- address of the server and the HTTP client are given as functions.
use goph_keeper.Base.{
  Bool, false, not, Option, none, some, List, [], ◌∷◌, ◌++◌, Text, Bytes, codes, text_eq, ◌==◌,
  is_blank, contains, Unicode, if◌then◌else◌, parse_bool, Outcome, ok, err, Error, failure, wrapped,
  sentinel, err_usage, Run,
}
use goph_keeper.Config.{ClientConfig, ClientFlagOverrides, Host, Parsers}
use goph_keeper.Config.Load.{load_client_config}
use goph_keeper.Config.Validate.{validate_client}
use goph_keeper.Client.Device.{Device}
use goph_keeper.Client.Crypto.{Cipher, new_crypto}
use goph_keeper.Client.Api.{Api}
use goph_keeper.Client.Sync.{State, on_device}
use goph_keeper.Client.Flags.{
  FlagSet, Values, text_value, bool_value, Parsing, parsed, exits, parse, value_of,
}
use goph_keeper.Client.Commands.{Line, text_line, Exit, exited, returned, Command, print}
use goph_keeper.Client.Commands.Store.{Opening, new_local_store}
use goph_keeper.Client.Commands.Handlers.{
  text_flags, handle_register, handle_login, handle_add, handle_list, handle_get, handle_update,
  handle_delete, handle_sync,
}

-- `RegisterClientFlags`, with the two flags that `run` adds.
abbrev pub root_flags : FlagSet
root_flags =
    text_flags (
      codes "config"
      ∷ codes "server-url"
      ∷ codes "data-dir"
      ∷ codes "tls"
      ∷ codes "tls-ca"
      ∷ codes "log-level"
      ∷ codes "log-format"
      ∷ [])
    ++ (codes "version", bool_value) ∷ (codes "master-password", text_value) ∷ []

abbrev pub overrides : Values → ClientFlagOverrides
overrides values = record {
  config_path = value_of values (codes "config");
  server_url = value_of values (codes "server-url");
  data_dir = value_of values (codes "data-dir");
  tls = value_of values (codes "tls");
  tls_ca = value_of values (codes "tls-ca");
  log_level = value_of values (codes "log-level");
  log_format = value_of values (codes "log-format");
}

-- The flag `version`, whose texts all parse as truth values.
abbrev pub shows_version : Values → Bool
shows_version values = elim (parse_bool (value_of values (codes "version"))) [
  | none ↦ false
  | some b ↦ b
]

-- internal/version: `Info`, with the values of a build that sets none.
abbrev pub build_info : Text
build_info = codes "version=dev date=unknown commit=none"

-- `printClientUsage`.
abbrev pub usage : List Line
usage =
    text_line (codes "Usage:")
    ∷ text_line (codes "  client [--config path] [--master-password pwd] <command> [flags]")
    ∷ text_line (codes "Commands:")
    ∷ text_line (codes "  register --email --password")
    ∷ text_line (codes "  login    --email --password")
    ∷ text_line (codes "  add      --type --payload [--meta k=v,...]")
    ∷ text_line (codes "  list")
    ∷ text_line (codes "  get      --id")
    ∷ text_line (codes "  update   --id --type --payload [--meta k=v,...]")
    ∷ text_line (codes "  delete   --id")
    ∷ text_line (codes "  sync")
    ∷ text_line (codes "  ui")
    ∷ text_line (codes "  version")
    ∷ []

abbrev pub needs_crypto : Text → Bool
needs_crypto = contains (codes "add" ∷ codes "get" ∷ codes "update" ∷ [])

abbrev pub some_key : Outcome Bytes × Device → Outcome (Option Bytes) × Device
some_key (ok key, d) = (ok (some key), d)
some_key (err e, d) = (err e, d)

-- `buildCrypto`: the directory that it is given is the one whose device this is.
unfoldable pub build_crypto : Cipher → Text → Text → Run Device (Option Bytes)
build_crypto c master_password command d =
    if needs_crypto command then some_key (new_crypto c master_password d) else (ok none, d)

-- `*http.Client`: no TLS of its own, or TLS 1.2 at least with the system's certificates or those of
-- a file.
pub data HttpClient : Type 0 where
  plain_http system_tls : HttpClient
  custom_tls : Bytes → HttpClient

-- `AppendCertsFromPEM` of a file.
abbrev with_certs : (Bytes → Bool) → Outcome Bytes → Outcome HttpClient
with_certs is_pem (err e) = err e
with_certs is_pem (ok pem) =
    if is_pem pem then ok (custom_tls pem) else err (failure (codes "failed to parse tls_ca"))

-- `buildHTTPClient`.
unfoldable pub build_http_client : Host → (Bytes → Bool) → ClientConfig → Outcome HttpClient
build_http_client h is_pem cfg =
    if not cfg.tls
    then ok plain_http
    else if is_blank cfg.tls_ca
    then ok system_tls
    else with_certs is_pem (h.read_file cfg.tls_ca)

-- What a run meets outside: the machine, the configuration's parsers, the certificates' parser, the
-- opening of the local database, the directory that a path names, the state of the API client that
-- `api.New` makes, the order of a synchronisation's requests, and what the terminal interface makes
-- of the state.
pub record Outside (A : Api) : Type 0 where
  pub host : Host
  pub parsers : Parsers ClientConfig
  pub is_pem : Bytes → Bool
  pub opening : Opening
  pub directory : Text → Text
  pub new_client : ClientConfig → HttpClient → Option Bytes → A.State → A.State
  pub push_first : Bool
  pub ui : ClientConfig → HttpClient → Run (State A) (Unit {0})

-- The machine of a client: each directory that can be a data directory, with what it holds and what
-- its uses meet, the state of the API client, and what was printed.
pub record Machine (A : Api) : Type 0 where
  pub homes : Text → Device
  pub api : A.State
  pub output : List Line

abbrev pub Session : Api → Type 0
Session A = Machine A → Exit × Machine A

abbrev pub put_home : Text → Device → (Text → Device) → Text → Device
put_home at d homes other = if other == at then d else homes other

module _ (u : Unicode) (c : Cipher) (A : Api) (o : Outside A) where
  -- `cfg.DataDir`: all stores and the salt of a run are those of this directory.
  abbrev pub in_directory : Text → Command A → Session A
  in_directory path command m =
      let at = o.directory path in
      let (x, cli) = command (record { state = (m.homes at, m.api); output = m.output }) in
      (
        x,
        record { homes = put_home at cli.state.0 m.homes; api = cli.state.1; output = cli.output },
      )

  abbrev pub say : List Line → Machine A → Machine A
  say lines m = record m { output = m.output ++ lines }

  abbrev pub fail : Text → Error → Command A
  fail label e cli = (returned (err (wrapped label e)), cli)

  abbrev pub ended : Outcome (Unit {0}) → Exit
  ended (ok tt) = returned (ok tt)
  ended (err e) = returned (err (wrapped (codes "ui error") e))

  abbrev pub show_ui : ClientConfig → HttpClient → Command A
  show_ui cfg http cli = let (x, s) = o.ui cfg http cli.state in (ended x, record cli { state = s })

  abbrev pub show_usage : Command A
  show_usage cli = (returned (err (sentinel err_usage)), print usage cli)

  -- The `switch` of `run`.
  unfoldable pub dispatch : ClientConfig → HttpClient → Option Bytes → Text → List Text → Command A
  dispatch cfg http crypto command args =
      if command == codes "register"
      then handle_register A args
      else if command == codes "login"
      then handle_login A args
      else if command == codes "add"
      then handle_add A c crypto args
      else if command == codes "list"
      then handle_list A c crypto
      else if command == codes "get"
      then handle_get A c crypto args
      else if command == codes "update"
      then handle_update A c crypto args
      else if command == codes "delete"
      then handle_delete A args
      else if command == codes "sync"
      then handle_sync A o.push_first
      else if command == codes "ui"
      then show_ui cfg http
      else show_usage

  abbrev pub with_store :
      ClientConfig → HttpClient → Option Bytes → Text → List Text → Outcome (Unit {0}) → Command A
  with_store cfg http crypto command args (err e) = fail (codes "local store error") e
  with_store cfg http crypto command args (ok tt) = dispatch cfg http crypto command args

  abbrev pub with_http :
      ClientConfig → Option Bytes → Text → List Text → Outcome HttpClient → Command A
  with_http cfg crypto command args (err e) cli = fail (codes "http client error") e cli
  with_http cfg crypto command args (ok http) cli =
      let (d, a) = cli.state in
      let (x, s) = on_device A (new_local_store o.opening) (d, o.new_client cfg http crypto a) in
      with_store cfg http crypto command args x (record cli { state = s })

  abbrev pub with_crypto : ClientConfig → Text → List Text → Outcome (Option Bytes) → Command A
  with_crypto cfg command args (err e) = fail (codes "crypto error") e
  with_crypto cfg command args (ok crypto) =
      with_http cfg crypto command args (build_http_client o.host o.is_pem cfg)

  abbrev pub with_valid : ClientConfig → Text → Text → List Text → Option Error → Command A
  with_valid cfg master command args (some e) cli = fail (codes "config validation error") e cli
  with_valid cfg master command args none cli =
      let (x, s) = on_device A (build_crypto c master command) cli.state in
      with_crypto cfg command args x (record cli { state = s })

  abbrev pub with_config : Text → Text → List Text → Outcome ClientConfig → Session A
  with_config master command args (err e) m = (returned (err (wrapped (codes "config error") e)), m)
  with_config master command args (ok cfg) m =
      in_directory cfg.data_dir (with_valid cfg master command args (validate_client u cfg)) m

  abbrev pub show_version : Session A
  show_version m = (returned (ok tt), say (text_line build_info ∷ []) m)

  abbrev pub with_command : Values → List Text → Session A
  with_command values [] = λ m. (returned (err (sentinel err_usage)), say usage m)
  with_command values (command ∷ args) =
      with_config (value_of values (codes "master-password")) command args
        (load_client_config u o.host o.parsers (overrides values))

  abbrev pub with_root : Parsing → Session A
  with_root exits m = (exited, m)
  with_root (parsed values rest) m =
      if shows_version values then show_version m else with_command values rest m

  abbrev pub asks_version : List Text → Bool
  asks_version [] = false
  asks_version (a ∷ _) = a == codes "version"

  -- `run`.
  unfoldable pub run : List Text → Session A
  run args = if asks_version args then show_version else with_root (parse root_flags args)
