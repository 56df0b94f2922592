-- ===== src/Tests/Commands.antt =====
-- The theorem on two runs of the client, at a device with one row.
use goph_keeper.Base.{
  ◌≡◌, refl, true, false, none, [], ◌∷◌, ◌++◌, List, Text, codes, text_beq, trim_space, to_lower,
  hex_encode, ok, parse_bool, is_blank,
}
use goph_keeper.Config.{default_client_config}
use goph_keeper.Config.Load.{
  base_config, first_non_empty, load_client_config, apply_client_env, apply_client_flags,
}
use goph_keeper.Config.Validate.{reject_if, validate_client}
use goph_keeper.Client.Device.{read_full}
use goph_keeper.Client.Crypto.{new_crypto, load_or_create_salt, encrypt}
use goph_keeper.Client.LocalStore
use goph_keeper.Client.Service
use goph_keeper.Client.Service.Secrets.{changed_item}
use goph_keeper.Client.Flags.{
  Values, parse, parsed, argument_of, cut_value, kind_of, value_from, value_of,
}
use goph_keeper.Client.Commands.{text_line, returned}
use goph_keeper.Client.Commands.Store.{new_local_store}
use goph_keeper.Client.Commands.Handlers.{add_flags, id_flags, handle_add, secret_line_of}
use goph_keeper.Client.Commands.Main.{
  Outside, Machine, plain_http, build_http_client, build_crypto, dispatch, run,
}
use goph_keeper.Client.Commands.Laws.{Starts, run-run}
use goph_keeper.Client.Commands.Again.{ready}
use goph_keeper.Tests.Auth.{unicode}
use goph_keeper.Tests.Client.{cipher, open_api, device, up, sound, writable, made_id}

abbrev outside : Outside open_api
outside = record {
  host = record { lookup_env = λ _. none; read_file = λ _. ok [] };
  parsers = record { json = λ _ cfg. ok cfg; yaml = λ _ cfg. ok cfg };
  is_pem = λ _. true;
  opening = record { open_error = none; close_error = none };
  directory = λ path. path;
  new_client = λ _ _ _ s. s;
  push_first = true;
  ui = λ _ _ s. (ok tt, s);
}

abbrev machine : Machine open_api
machine = record { homes = λ _. device; api = tt; output = [] }

abbrev add_args : List Text
add_args = codes "-type" ∷ codes "text" ∷ codes "--payload=hi" ∷ []

abbrev get_args : List Text
get_args = codes "--id" ∷ made_id ∷ []

abbrev first_run : List Text
first_run = codes "--master-password" ∷ codes "pw" ∷ codes "add" ∷ add_args

abbrev second_run : List Text
second_run = codes "-master-password=pw" ∷ codes "get" ∷ get_args

first-Starts :
    Starts unicode cipher open_api outside first_run
      (codes "add")
      add_args
      (codes "pw")
      default_client_config
unfolding text_beq parse argument_of cut_value kind_of value_from parse_bool base_config
    first_non_empty trim_space to_lower load_client_config apply_client_env apply_client_flags
    validate_client reject_if build_http_client default_client_config
first-Starts = record {
  values = (codes "master-password", codes "pw") ∷ [];
  http = plain_http;
  no_version = refl;
  parses = refl;
  shows_no_version = refl;
  has_master = refl;
  loads = refl;
  valid = refl;
  connects = refl;
}

second-Starts :
    Starts unicode cipher open_api outside second_run
      (codes "get")
      get_args
      (codes "pw")
      default_client_config
unfolding text_beq parse argument_of cut_value kind_of value_from parse_bool base_config
    first_non_empty trim_space to_lower load_client_config apply_client_env apply_client_flags
    validate_client reject_if build_http_client default_client_config
second-Starts = record {
  values = (codes "master-password", codes "pw") ∷ [];
  http = plain_http;
  no_version = refl;
  parses = refl;
  shows_no_version = refl;
  has_master = refl;
  loads = refl;
  valid = refl;
  connects = refl;
}

abbrev added_values : Values
added_values = (codes "type", codes "text") ∷ (codes "payload", codes "hi") ∷ []

abbrev asked_values : Values
asked_values = (codes "id", made_id) ∷ []

add_parses : parse add_flags add_args ≡ parsed added_values []
unfolding text_beq parse argument_of cut_value kind_of
add_parses = refl

get_parses : parse id_flags get_args ≡ parsed asked_values []
unfolding text_beq parse argument_of cut_value kind_of
get_parses = refl

is_id : value_of asked_values (codes "id") ≡ made_id
unfolding value_from text_beq
is_id = refl

is_named : is_blank made_id ≡ false
unfolding trim_space
is_named = refl

done : (run unicode cipher open_api outside first_run machine).0 ≡ returned (ok tt)
unfolding text_beq parse argument_of cut_value kind_of value_from parse_bool base_config
    first_non_empty trim_space to_lower load_client_config apply_client_env apply_client_flags
    validate_client reject_if build_http_client default_client_config run dispatch handle_add
    build_crypto new_crypto load_or_create_salt read_full new_local_store Service.add Service.new_id
    encrypt LocalStore.upsert hex_encode
done = refl

shown : (run unicode cipher open_api outside first_run machine).1.output ≡ text_line made_id ∷ []
unfolding text_beq parse argument_of cut_value kind_of value_from parse_bool base_config
    first_non_empty trim_space to_lower load_client_config apply_client_env apply_client_flags
    validate_client reject_if build_http_client default_client_config run dispatch handle_add
    build_crypto new_crypto load_or_create_salt read_full new_local_store Service.add Service.new_id
    encrypt LocalStore.upsert hex_encode
shown = refl

run-run_example :
    let machine' = (run unicode cipher open_api outside first_run machine).1 in
    let d = ready unicode cipher open_api outside (codes "pw") device in
    let at = d.env.clock d.env.ticks in
    ((run unicode cipher open_api outside second_run machine').0 ≡ returned (ok tt))
    × ((run unicode cipher open_api outside second_run machine').1.output
        ≡ machine'.output
          ++ secret_line_of (
              changed_item made_id
                (value_of added_values (codes "type"))
                (value_of added_values (codes "payload"))
                (value_of added_values (codes "meta"))
                at
                at)
            ∷ [])
run-run_example =
    run-run unicode cipher open_api outside first_run second_run add_args get_args [] []
      (codes "pw") made_id added_values asked_values default_client_config default_client_config
      machine first-Starts second-Starts refl add_parses get_parses is_id is_named up sound writable
      refl done shown
