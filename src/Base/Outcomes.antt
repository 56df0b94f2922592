-- ===== src/Base/Outcomes.antt =====
-- Go's `(value, error)` results, error values with `errors.Is`, and state passing.
use mathlib.Core.Path.{◌≡◌, refl}
use mathlib.Core.Logic.{ite, ◌⊎◌, inl, inr}
use mathlib.Core.Bool.{Bool, true, false}
use mathlib.Core.Option.{Option, none, some}
use mathlib.Core.List.{◌++◌}
use goph_keeper.Base.Texts.{Text, codes}

-- The package-level error values of the source, `sql.ErrNoRows` and `migrate.ErrNoChange`.
pub data Sentinel : Type 0 where
  err_no_rows err_user_exists err_user_not_found err_secret_not_found : Sentinel
  err_sync_invalid_id err_sync_invalid_type err_invalid_credentials : Sentinel
  err_not_found err_sync_not_found err_token_not_found err_empty_master_password : Sentinel
  err_no_change err_usage : Sentinel

pub Sentinel-discrete : Discrete Sentinel
Sentinel-discrete = hlevel

-- `failure` is `errors.New(text)` or an error of other code, `pg_error` a `*pgconn.PgError` with
-- its SQLSTATE code and its text, and `wrapped` is `fmt.Errorf("text: %w", e)`. `close_failed` is
-- `fmt.Errorf("close rows after STAGE error: %v (STAGE: %w)", c, e)`, `ping_failed e c` is
-- `fmt.Errorf("ping postgres: %w (close: %v)", e, c)`, and `migrate_failed text c e` is
-- `fmt.Errorf("text: %v (migrate: %w)", c, e)`.
pub data Error : Type 0 where
  sentinel : Sentinel → Error
  failure : Text → Error
  pg_error : Text → Text → Error
  wrapped : Text → Error → Error
  close_failed : Text → Error → Error → Error
  ping_failed : Error → Error → Error
  migrate_failed : Text → Error → Error → Error

-- `errors.Is`.
unfoldable pub is_error : Error → Sentinel → Bool
unfolding Sentinel-discrete
is_error (sentinel s) t = ite (Sentinel-discrete s t) true false
is_error (failure _) t = false
is_error (pg_error _ _) t = false
is_error (wrapped _ e) t = is_error e t
is_error (close_failed _ _ e) t = is_error e t
is_error (ping_failed e _) t = is_error e t
is_error (migrate_failed _ _ e) t = is_error e t

-- `err.Error()`; the text of a `pg_error` is all of it.
abbrev pub sentinel_message : Sentinel → Text
sentinel_message err_no_rows = codes "sql: no rows in result set"
sentinel_message err_user_exists = codes "user already exists"
sentinel_message err_user_not_found = codes "user not found"
sentinel_message err_secret_not_found = codes "secret not found"
sentinel_message err_sync_invalid_id = codes "id is required"
sentinel_message err_sync_invalid_type = codes "type is required"
sentinel_message err_invalid_credentials = codes "invalid credentials"
sentinel_message err_not_found = codes "local secret not found"
sentinel_message err_sync_not_found = codes "sync state not found"
sentinel_message err_token_not_found = codes "token not found"
sentinel_message err_empty_master_password = codes "master password is required"
sentinel_message err_no_change = codes "no change"
sentinel_message err_usage = codes "usage"

abbrev pub message : Error → Text
message (sentinel s) = sentinel_message s
message (failure text) = text
message (pg_error code text) = text
message (wrapped text e) = text ++ codes ": " ++ message e
message (close_failed stage c e) =
    codes "close rows after "
    ++ stage
    ++ codes " error: "
    ++ message c
    ++ codes " ("
    ++ stage
    ++ codes ": "
    ++ message e
    ++ codes ")"
message (ping_failed e c) =
    codes "ping postgres: " ++ message e ++ codes " (close: " ++ message c ++ codes ")"
message (migrate_failed text c e) =
    text ++ codes ": " ++ message c ++ codes " (migrate: " ++ message e ++ codes ")"

-- `fmt.Errorf("text: %w", e)`, or `e` itself where the code returns it as it is.
abbrev pub labelled : Option Text → Error → Error
labelled none e = e
labelled (some text) e = wrapped text e

pub data Outcome {ℓ} (A : Type ℓ) : Type ℓ where
  ok : A → Outcome A
  err : Error → Outcome A

pub Outcome-cases {ℓ} :
    {A : Type ℓ} (o : Outcome A) → ((a : A) × (o ≡ ok a)) ⊎ ((e : Error) × (o ≡ err e))
Outcome-cases (ok a) = inl (a, refl)
Outcome-cases (err e) = inr (e, refl)

pub ok-injective {ℓ} : {A : Type ℓ} (a b : A) → ok a ≡ ok b → a ≡ b
ok-injective a b h = cc

pub ok-ne-err {ℓ} : {A : Type ℓ} (a : A) (e : Error) → ¬ (ok a ≡ err e)
ok-ne-err a e h = cc

-- A call that may change the state `S`, also where it fails.
abbrev pub Run : Type 0 → Type 0 → Type 0
Run S A = S → Outcome A × S

module _ {S : Type 0} where
  abbrev pub continue : {A B : Type 0} → (A → Run S B) → Outcome A × S → Outcome B × S
  continue f (ok a, s) = f a s
  continue f (err e, s) = (err e, s)

  infixl 5 ◌>>=◌ ◌>>◌
  abbrev pub ◌>>=◌ : {A B : Type 0} → Run S A → (A → Run S B) → Run S B
  ◌>>=◌ m f s = continue f (m s)

  abbrev pub ◌>>◌ : {A B : Type 0} → Run S A → Run S B → Run S B
  ◌>>◌ m k s = continue (λ _. k) (m s)

  abbrev pub return : {A : Type 0} → A → Run S A
  return a s = (ok a, s)

  abbrev pub raise : {A : Type 0} → Error → Run S A
  raise e s = (err e, s)

  -- `if err := …; err != nil { return fmt.Errorf("text: %w", err) }`
  abbrev pub check : Text → Option Error → Run S (Unit {0})
  check text none s = (ok tt, s)
  check text (some e) s = (err (wrapped text e), s)

  -- Inversion of a successful step.
  pub continue-eq-ok :
      {A B : Type 0} (f : A → Run S B) (x : Outcome A × S) {b : B}
      → (continue f x).0 ≡ ok b
      → (a : A) × (x.0 ≡ ok a) × ((f a x.1).0 ≡ ok b) × (continue f x ≡ f a x.1)
  continue-eq-ok f (ok a, s) h = (a, refl, h, refl)
  continue-eq-ok f (err e, s) h = cc

  -- Two ways to go on that agree at every result.
  pub continue_congr :
      {A B C : Type 0} (f : A → Run S C) (g : A → Run S B) (h : B → Run S C) (x : Outcome A × S)
      → ((a : A) (s : S) → f a s ≡ continue h (g a s))
      → continue f x ≡ continue h (continue g x)
  continue_congr f g h (ok a, s) same = same a s
  continue_congr f g h (err e, s) same = refl
