-- ===== src/Repository/PostgresUsers.antt =====
-- repository/postgres_user_store.go, over the table `users` of
-- migrations/0001_create_users.up.sql.
pub mod Laws
pub mod Creation
use goph_keeper.Base.{
  ◌&&◌, Bool, true, false, Option, none, some, List, [], ◌∷◌, Text, codes, text_eq, text_beq, ◌==◌,
  if◌then◌else◌, keep, Outcome, ok, err, Error, sentinel, failure, pg_error, wrapped, close_failed,
  ping_failed, migrate_failed, is_error, err_no_rows, err_user_exists, err_user_not_found, Run,
  ◌>>=◌, ◌>>◌, return, raise, check,
}
use goph_keeper.Models.{User}
use goph_keeper.Database.{Reply}
use goph_keeper.Database.Rows.{query_row}
use goph_keeper.Repository.Secrets.{to_micros, of_micros, unique_violation}
use goph_keeper.Repository.Server.{Server, next_reply, now, random_bytes}
use goph_keeper.Repository.Users.{UserStore}

-- TIMESTAMPTZ keeps microseconds.
abbrev pub kept_user : User → User
kept_user u = record u { created_at = of_micros (to_micros u.created_at) }

unfoldable pub has_email : Text → List User → Bool
has_email email [] = false
has_email email (u ∷ users) = if u.email == email then true else has_email email users

unfoldable pub has_user_id : Text → List User → Bool
has_user_id id [] = false
has_user_id id (u ∷ users) = if u.id == id then true else has_user_id id users

-- `INSERT INTO users (…) VALUES (…)`; `id` is the primary key and `email` is unique.
unfoldable pub insert_user : User → List User → Outcome (List User)
insert_user u users =
    if has_user_id u.id users
    then err unique_violation
    else if has_email u.email users
    then err unique_violation
    else ok (kept_user u ∷ users)

-- `errors.As(err, &pgErr) && pgErr.Code == pgerrcode.UniqueViolation`.
unfoldable pub is_unique_violation : Error → Bool
unfolding text_beq
is_unique_violation (sentinel s) = false
is_unique_violation (failure text) = false
is_unique_violation (pg_error code text) = code == codes "23505"
is_unique_violation (wrapped text e) = is_unique_violation e
is_unique_violation (close_failed text c e) = is_unique_violation e
is_unique_violation (ping_failed e c) = is_unique_violation e
is_unique_violation (migrate_failed text c e) = is_unique_violation e

abbrev driver : Option Error → Outcome (List User) → Outcome (List User)
driver none done = done
driver (some e) done = err e

abbrev inserted : User → Server → Outcome (List User) → Outcome User × Server
inserted u w (ok users) = (ok u, record w { users = users })
inserted u w (err e) = (
  if is_unique_violation e
      then err (sentinel err_user_exists)
      else err (wrapped (codes "create user") e),
  w,
)

unfoldable pub create : User → Run Server User
create u = do
  r ← next_reply
  check (codes "build insert user") r.build
  λ w. inserted u w (driver r.exec (insert_user u w.users))

abbrev found_user : Outcome User → Outcome User
found_user (ok u) = ok u
found_user (err e) =
    if is_error e err_no_rows
    then err (sentinel err_user_not_found)
    else err (wrapped (codes "get user by email") e)

unfoldable pub get_by_email : Text → Run Server User
unfolding query_row is_error
get_by_email email = do
  r ← next_reply
  check (codes "build select user") r.build
  λ w. (found_user (query_row r (keep (λ u. u.email == email) w.users)), w)

abbrev pub postgres_users : UserStore
postgres_users = record {
  State = Server;
  create = create;
  get_by_email = get_by_email;
  now_fn = now;
  random_fn = random_bytes;
}
