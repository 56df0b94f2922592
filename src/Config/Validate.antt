-- ===== src/Config/Validate.antt =====
-- internal/config/validate.go: the checks of the configurations of the server and of the client.
pub mod Laws
use mathlib.Core.Option.{none-ne-some}
use goph_keeper.Base.{
  ℕ, ◌≤◌, ◌≡◌, ◌↔◌, ◌⊎◌, inl, inr, Bool, true, false, not, ◌&&◌, ◌||◌, Option, none, some, List, [],
  ◌∷◌, ◌++◌, Text, codes, text_eq, text_beq, text_beq_iff, Bool-cases, refl, sym, ◌==◌, leb, ltb,
  is_blank, trim_space, Unicode, to_lower, contains, if◌then◌else◌, ℤ, pos, negsuc, decimal, Error,
  failure, arith,
}
use goph_keeper.Config.{ServerConfig, ClientConfig}

-- `strings.ToLower(strings.TrimSpace(s))`.
abbrev pub word_of : Unicode → Text → Text
word_of u s = to_lower u (trim_space s)

abbrev pub out_of_range : ℤ → Bool
out_of_range (pos n) = leb n 0 || ltb 65535 n
out_of_range (negsuc n) = true

abbrev pub storage_types : List Text
storage_types = [] ∷ codes "memory" ∷ codes "sqlite" ∷ codes "postgres" ∷ []

abbrev pub log_formats : List Text
log_formats = [] ∷ codes "text" ∷ codes "json" ∷ []

abbrev is_storage_type : Text → Bool
is_storage_type = contains storage_types

abbrev is_log_format : Text → Bool
is_log_format = contains log_formats

-- `if b { return errors.New(text) }`, and the code after it.
unfoldable pub reject_if : Bool → Text → Option Error → Option Error
reject_if b text next = if b then some (failure text) else next

-- `ServerConfig.Validate`.
unfoldable pub validate_server : Unicode → ServerConfig → Option Error
validate_server u c = reject_if (is_blank c.host) (codes "server host is required") (
    reject_if (out_of_range c.port) (codes "server port out of range: " ++ decimal c.port) (
      reject_if (not (is_storage_type (word_of u c.storage.type)))
        (codes "unsupported storage type: " ++ c.storage.type)
        (reject_if (word_of u c.storage.type == codes "postgres" && is_blank c.storage.dsn)
          (codes "storage dsn is required for postgres")
          (reject_if (is_blank c.log.level) (codes "log level is required") (
            reject_if (not (is_log_format (word_of u c.log.format)))
              (codes "unsupported log format: " ++ c.log.format)
              (reject_if (is_blank c.jwt_key) (codes "jwt_key is required") (
                reject_if (c.tls.enabled && (is_blank c.tls.cert_file || is_blank c.tls.key_file))
                  (codes "tls cert and key are required when tls is enabled") (none))))))))

-- `ClientConfig.Validate`.
unfoldable pub validate_client : Unicode → ClientConfig → Option Error
validate_client u c = reject_if (is_blank c.server_url) (codes "server_url is required") (
    reject_if (is_blank c.data_dir) (codes "data_dir is required") (
      reject_if (not (is_log_format (word_of u c.log.format)))
        (codes "unsupported log format: " ++ c.log.format)
        (reject_if (is_blank c.log.level) (codes "log level is required") (none))))
