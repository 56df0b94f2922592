-- ===== src/Config/Precedence.antt =====
-- internal/config: which source decides each field of a loaded configuration.
use goph_keeper.Base.{
  ◌≡◌, refl, ap, ◌∙◌, Outcome, ok, err, fun_ext, inl, inr, Bool, false, Option, none, some, List,
  [], ◌∷◌, Text, codes, Unicode, ℤ, pos, negsuc, zero, suc, atoi, parse_bool, Option-cases,
}
use goph_keeper.Config.{
  ServerConfig, ClientConfig, ServerFlagOverrides, ClientFlagOverrides, Host, Parsers,
  default_server_config, default_client_config,
}
use goph_keeper.Config.Sources.{
  server_defaults, client_defaults, file_named, overwritten, base_config-overwritten,
  default_server_config-defaults, default_client_config-defaults,
}
use goph_keeper.Config.Load.{
  config_path_of, base_config, apply_server_env, apply_client_env, apply_server_flags,
  apply_client_flags, load_server_config, load_client_config, then_apply, env_text, env_int,
  env_bool, flag_text, flag_int, flag_bool,
}

-- The first source that gives a value, or else the value there was.
abbrev pub first_given {ℓ} : {A : Type ℓ} → List (Option A) → A → A
first_given [] default_value = default_value
first_given (none ∷ sources) default_value = first_given sources default_value
first_given (some a ∷ sources) default_value = a

-- A flag gives a value if it is not empty, and a number if it is not zero.
abbrev pub given_text : Text → Option Text
given_text [] = none
given_text (c ∷ s) = some (c ∷ s)

abbrev pub given_int : ℤ → Option ℤ
given_int (pos zero) = none
given_int (pos (suc n)) = some (pos (suc n))
given_int (negsuc n) = some (negsuc n)

-- A flag of truth value that cannot be parsed gives nothing.
abbrev pub given_bool : Text → Option Bool
given_bool [] = none
given_bool (c ∷ s) = parse_bool (c ∷ s)

-- A variable of the environment that is set and empty gives zero or false, and one that cannot be
-- parsed gives nothing.
abbrev pub env_int_given : Option Text → Option ℤ
env_int_given none = none
env_int_given (some []) = some (pos 0)
env_int_given (some (c ∷ s)) = atoi (c ∷ s)

abbrev pub env_bool_given : Option Text → Option Bool
env_bool_given none = none
env_bool_given (some []) = some false
env_bool_given (some (c ∷ s)) = parse_bool (c ∷ s)

text_given :
    (flag : Text) (v : Option Text) (field : Text)
    → flag_text flag (env_text v field) ≡ first_given (given_text flag ∷ v ∷ []) field
text_given [] none field = refl
text_given [] (some v) field = refl
text_given (c ∷ s) v field = refl

int_given :
    (flag : ℤ) (v : Option Text) (field : ℤ)
    → flag_int flag (env_int v field) ≡ first_given (given_int flag ∷ env_int_given v ∷ []) field
unfolding atoi
int_given (pos (suc n)) v field = refl
int_given (negsuc n) v field = refl
int_given (pos zero) none field = refl
int_given (pos zero) (some []) field = refl
int_given (pos zero) (some (c ∷ s)) field = elim (Option-cases (atoi (c ∷ s))) [
  | inl e ↦ rw e refl
  | inr (n, e) ↦ rw e refl
]

env_given :
    (v : Option Text) (field : Bool) → env_bool v field ≡ first_given (env_bool_given v ∷ []) field
env_given none field = refl
env_given (some []) field = refl
env_given (some (c ∷ s)) field = elim (Option-cases (parse_bool (c ∷ s))) [
  | inl e ↦ rw e refl
  | inr (b, e) ↦ rw e refl
]

bool_given :
    (flag : Text) (v : Option Text) (field : Bool)
    → flag_bool flag (env_bool v field)
      ≡ first_given (given_bool flag ∷ env_bool_given v ∷ []) field
bool_given [] v field = env_given v field
bool_given (c ∷ s) v field = elim (Option-cases (parse_bool (c ∷ s))) [
  | inl e ↦ rw e (env_given v field)
  | inr (b, e) ↦ rw e refl
]

module _ (h : Host) where
  -- The first of flag and environment that gives a value.
  abbrev text_from : Text → Text → Text → Text
  text_from flag name = first_given (given_text flag ∷ h.lookup_env name ∷ [])

  abbrev bool_from : Text → Text → Bool → Bool
  bool_from flag name = first_given (given_bool flag ∷ env_bool_given (h.lookup_env name) ∷ [])

  -- The configuration that the flags and the environment make of one below them.
  abbrev pub resolved_server : ServerFlagOverrides → ServerConfig → ServerConfig
  resolved_server fo base = record {
    host = text_from fo.host (codes "GOPHKEEPER_SERVER_HOST") base.host;
    port =
        first_given
          (given_int fo.port ∷ env_int_given (h.lookup_env (codes "GOPHKEEPER_SERVER_PORT")) ∷ [])
          base.port;
    storage = record {
      type = text_from fo.storage (codes "GOPHKEEPER_SERVER_STORAGE") base.storage.type;
      dsn = text_from fo.dsn (codes "GOPHKEEPER_SERVER_DSN") base.storage.dsn;
    };
    log = record {
      level = text_from fo.log_level (codes "GOPHKEEPER_LOG_LEVEL") base.log.level;
      format = text_from fo.log_format (codes "GOPHKEEPER_LOG_FORMAT") base.log.format;
    };
    jwt_key = text_from fo.jwt_key (codes "GOPHKEEPER_SERVER_JWT_KEY") base.jwt_key;
    tls = record {
      enabled = bool_from fo.tls (codes "GOPHKEEPER_SERVER_TLS") base.tls.enabled;
      cert_file = text_from fo.tls_cert (codes "GOPHKEEPER_SERVER_TLS_CERT") base.tls.cert_file;
      key_file = text_from fo.tls_key (codes "GOPHKEEPER_SERVER_TLS_KEY") base.tls.key_file;
    };
  }

  abbrev pub resolved_client : ClientFlagOverrides → ClientConfig → ClientConfig
  resolved_client fo base = record {
    server_url = text_from fo.server_url (codes "GOPHKEEPER_CLIENT_SERVER_URL") base.server_url;
    data_dir = text_from fo.data_dir (codes "GOPHKEEPER_CLIENT_DATA_DIR") base.data_dir;
    tls = bool_from fo.tls (codes "GOPHKEEPER_CLIENT_TLS") base.tls;
    tls_ca = text_from fo.tls_ca (codes "GOPHKEEPER_CLIENT_TLS_CA") base.tls_ca;
    log = record {
      level = text_from fo.log_level (codes "GOPHKEEPER_LOG_LEVEL") base.log.level;
      format = text_from fo.log_format (codes "GOPHKEEPER_LOG_FORMAT") base.log.format;
    };
  }

  server-resolved :
      (fo : ServerFlagOverrides) (base : ServerConfig)
      → apply_server_flags (apply_server_env h base) fo ≡ resolved_server fo base
  unfolding apply_server_flags apply_server_env
  server-resolved fo base = simp (text_given, int_given, bool_given)

  client-resolved :
      (fo : ClientFlagOverrides) (base : ClientConfig)
      → apply_client_flags (apply_client_env h base) fo ≡ resolved_client fo base
  unfolding apply_client_flags apply_client_env
  client-resolved fo base = simp (text_given, bool_given)

applied :
    {C : Type 0} (f : C → C) (x : Outcome C)
    → then_apply f x ≡ (elim x [ ok base ↦ ok (f base) | err e ↦ err e ])
applied f (ok base) = refl
applied f (err e) = refl

module _ (u : Unicode) (h : Host) where
  -- A server's configuration starts from the defaults, which the file overwrites that the flag or
  -- else the variable GOPHKEEPER_CONFIG names: a blank text names none, and without a file the
  -- defaults stand. The extension of the file's name says which parser reads it; a file that cannot
  -- be read or parsed, or has another extension, is the error. Then each
  -- field is what its flag gives, or else what its variable of the environment gives, or else what
  -- stood in the file or the defaults: an empty flag, the port 0, and a number or a truth value
  -- that cannot be parsed give nothing, while a variable that is set and empty gives an empty text,
  -- the port 0 or false.
  pub load_server_config-resolved :
      (p : Parsers ServerConfig) (fo : ServerFlagOverrides)
      → load_server_config u h p fo
        ≡ (elim (overwritten u h p (file_named h fo.config_path) server_defaults) [
          | ok base ↦ ok (resolved_server h fo base)
          | err e ↦ err e
        ])
  unfolding load_server_config
  load_server_config-resolved p fo =
      ap
        (λ f.
          then_apply f (base_config u h p (config_path_of h fo.config_path) default_server_config))
        (fun_ext (server-resolved h fo))
      ∙ ap (then_apply (resolved_server h fo)) (
          base_config-overwritten u h p default_server_config fo.config_path
          ∙ ap (overwritten u h p (file_named h fo.config_path)) default_server_config-defaults)
      ∙ applied (resolved_server h fo) _

  -- The same for a client's configuration.
  pub load_client_config-resolved :
      (p : Parsers ClientConfig) (fo : ClientFlagOverrides)
      → load_client_config u h p fo
        ≡ (elim (overwritten u h p (file_named h fo.config_path) client_defaults) [
          | ok base ↦ ok (resolved_client h fo base)
          | err e ↦ err e
        ])
  unfolding load_client_config
  load_client_config-resolved p fo =
      ap
        (λ f.
          then_apply f (base_config u h p (config_path_of h fo.config_path) default_client_config))
        (fun_ext (client-resolved h fo))
      ∙ ap (then_apply (resolved_client h fo)) (
          base_config-overwritten u h p default_client_config fo.config_path
          ∙ ap (overwritten u h p (file_named h fo.config_path)) default_client_config-defaults)
      ∙ applied (resolved_client h fo) _
