-- ===== src/Config/Validate/Laws.antt =====
-- internal/config/validate.go: which configurations of the server and of the client are valid.
use mathlib.Core.Option.{none-ne-some}
use goph_keeper.Base.{
  ℕ, ◌≤◌, ◌≡◌, ◌↔◌, ◌⊎◌, inl, inr, Bool, true, false, not, ◌||◌, Option, none, List, [], ◌∷◌, Text,
  codes, text_eq, text_beq, text_beq_iff, Bool-cases, refl, sym, is_blank, Unicode, contains, pos,
  Error,
}
use goph_keeper.Config.{ServerConfig, ClientConfig}
use goph_keeper.Config.Validate.{word_of, storage_types, log_formats, reject_if, validate_client}

-- What a word may be.
abbrev pub IsOneOf : List Text → Text → Type 0
IsOneOf [] word = ⊥
IsOneOf (w ∷ words) word = (word ≡ w) ⊎ IsOneOf words word

or_true : (b : Bool) → (b || true) ≡ true
or_true true = refl
or_true false = refl

pub contains-IsOneOf :
    (words : List Text) (word : Text) → (contains words word ≡ true) ↔ IsOneOf words word
contains-IsOneOf [] word = (λ e. cc, λ h. absurd h)
contains-IsOneOf (w ∷ words) word =
    let (to, from) = contains-IsOneOf words word in
    let (sound, complete) = text_beq_iff w word in
    (
      λ e. elim (Bool-cases (text_beq w word)) [
        | inl same ↦ inl (sym (sound same))
        | inr differ ↦ inr (to (rw differ at e))
      ],
      λ h. elim h [
        | inl same ↦ rw (complete (sym same)) refl
        | inr later ↦ rw (from later) (or_true (text_beq w word))
      ],
    )

pub record IsValidServer (u : Unicode) (c : ServerConfig) : Type 0 where
  pub host_given : is_blank c.host ≡ false
  pub port_valid : (n : ℕ) × (c.port ≡ pos n) × (1 ≤ n) × (n ≤ 65535)
  pub storage_known : IsOneOf storage_types (word_of u c.storage.type)
  pub dsn_given : word_of u c.storage.type ≡ codes "postgres" → is_blank c.storage.dsn ≡ false
  pub level_given : is_blank c.log.level ≡ false
  pub format_known : IsOneOf log_formats (word_of u c.log.format)
  pub key_given : is_blank c.jwt_key ≡ false
  pub files_given :
      c.tls.enabled ≡ true → (is_blank c.tls.cert_file ≡ false) × (is_blank c.tls.key_file ≡ false)

pub record IsValidClient (u : Unicode) (c : ClientConfig) : Type 0 where
  pub url_given : is_blank c.server_url ≡ false
  pub dir_given : is_blank c.data_dir ≡ false
  pub format_known : IsOneOf log_formats (word_of u c.log.format)
  pub level_given : is_blank c.log.level ≡ false

reject_if-none :
    (b : Bool) (text : Text) (next : Option Error)
    → (reject_if b text next ≡ none) ↔ ((b ≡ false) × (next ≡ none))
unfolding reject_if
reject_if-none true text next = (λ h. absurd (none-ne-some _ (sym h)), λ (e, k). cc)
reject_if-none false text next = (λ h. (refl, h), λ (e, k). k)

passes :
    (b : Bool) (text : Text) (next : Option Error)
    → reject_if b text next ≡ none
    → (b ≡ false) × (next ≡ none)
passes b text next = (reject_if-none b text next).0

guarded :
    (b : Bool) (text : Text) (next : Option Error)
    → b ≡ false
    → next ≡ none
    → reject_if b text next ≡ none
guarded b text next h k = (reject_if-none b text next).1 (h, k)

not-false : {b : Bool} → (not b ≡ false) ↔ (b ≡ true)
not-false {b = true} = (λ _. refl, λ _. refl)
not-false {b = false} = (λ h. cc, λ h. cc)

module _ (u : Unicode) (c : ClientConfig) where
  -- A client's configuration is accepted exactly if the address of the server, the directory and
  -- the level of the log are not blank and the format of the log is none, text or json.
  pub validate_client-none : (validate_client u c ≡ none) ↔ IsValidClient u c
  unfolding validate_client
  validate_client-none = (
    λ e.
        let (url, e) = passes _ _ _ e in
        let (dir, e) = passes _ _ _ e in
        let (format, e) = passes _ _ _ e in
        let (level, e) = passes _ _ _ e in
        record {
          url_given = url;
          dir_given = dir;
          format_known =
              (contains-IsOneOf log_formats (word_of u c.log.format)).0 (not-false.0 format);
          level_given = level;
        },
    λ v. guarded _ _ _ v.url_given (
        guarded _ _ _ v.dir_given (
          guarded _ _ _
            (not-false.1 ((contains-IsOneOf log_formats (word_of u c.log.format)).1 v.format_known))
            (guarded _ _ _ v.level_given refl))),
  )
