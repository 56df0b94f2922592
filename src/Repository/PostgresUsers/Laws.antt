-- ===== src/Repository/PostgresUsers/Laws.antt =====
-- `PostgresUserStore` meets the contract of a store of users while its database answers.
use goph_keeper.Base.{
  ◌≡◌, refl, sym, ok-injective, ok-ne-err, true, false, Option, none, some, List, [], ◌∷◌, Text,
  text_eq, ◌==◌, if◌then◌else◌, keep, Outcome, ok, err, sentinel, err_no_rows, err_user_exists,
  Option-cases, Bool-cases, inl, inr, arith,
}
use goph_keeper.Models.{User}
use goph_keeper.Database.{IsUp, called, fine}
use goph_keeper.Database.Rows.{query_row}
use goph_keeper.Repository.Server.{Server}
use goph_keeper.Repository.Users.{UserContract, or_not_found}
use goph_keeper.Repository.PostgresUsers.{
  kept_user, has_email, has_user_id, insert_user, is_unique_violation, create, get_by_email,
  postgres_users,
}

-- The user that an email gives.
unfoldable pub find_user : Text → List User → Option User
find_user email [] = none
find_user email (u ∷ users) = if u.email == email then some u else find_user email users

has_email-find_none :
    (email : Text) (users : List User)
    → find_user email users ≡ none
    → has_email email users ≡ false
unfolding find_user has_email
has_email-find_none email [] h = refl
has_email-find_none email (u ∷ users) h = ground (arith, has_email-find_none email users)

has_email-find_some :
    (email : Text) (users : List User) (v : User)
    → find_user email users ≡ some v
    → has_email email users ≡ true
unfolding find_user has_email
has_email-find_some email [] v h = ground arith
has_email-find_some email (u ∷ users) v h = ground (arith, has_email-find_some email users v)

abbrev or_no_rows : Option User → Outcome User
or_no_rows none = err (sentinel err_no_rows)
or_no_rows (some u) = ok u

query_row-find_user :
    (email : Text) (users : List User)
    → query_row fine (keep (λ u. u.email == email) users) ≡ or_no_rows (find_user email users)
unfolding query_row keep find_user
query_row-find_user email [] = refl
query_row-find_user email (u ∷ users) = elim (Bool-cases (u.email == email)) [
  | inl here ↦ rw here
  | inr there ↦ rw there (query_row-find_user email users)
]

pub create_new_user :
    (u : User) (w : Server)
    → IsUp w.env
    → has_user_id u.id w.users ≡ false
    → find_user u.email w.users ≡ none
    → create u w ≡ (ok u, record w { users = kept_user u ∷ w.users; env = called w.env })
unfolding create insert_user
create_new_user u w up fresh free =
    rw (up w.env.calls, fresh, has_email-find_none u.email w.users free)

pub create_known_id :
    (u : User) (w : Server)
    → IsUp w.env
    → has_user_id u.id w.users ≡ true
    → create u w ≡ (err (sentinel err_user_exists), record w { env = called w.env })
unfolding create insert_user is_unique_violation
create_known_id u w up known = rw (up w.env.calls, known)

pub create_taken_user :
    (u v : User) (w : Server)
    → IsUp w.env
    → find_user u.email w.users ≡ some v
    → create u w ≡ (err (sentinel err_user_exists), record w { env = called w.env })
unfolding create insert_user is_unique_violation
create_taken_user u v w up taken =
    rw (up w.env.calls, has_email-find_some u.email w.users v taken)
      (elim (Bool-cases (has_user_id u.id w.users)) [ inl known ↦ rw known | inr fresh ↦ rw fresh ])

create_done_user :
    (u v : User) (w : Server)
    → IsUp w.env
    → (create u w).0 ≡ ok v
    → (v ≡ u)
      × (find_user u.email w.users ≡ none)
      × (create u w ≡ (ok u, record w { users = kept_user u ∷ w.users; env = called w.env }))
create_done_user u v w up h = elim (Option-cases (find_user u.email w.users)) [
  | inr (old, taken) ↦
      absurd (
        ok-ne-err v (sentinel err_user_exists) (sym (rw (create_taken_user u old w up taken) at h)))
  | inl free ↦ elim (Bool-cases (has_user_id u.id w.users)) [
    | inr fresh ↦
        let done = create_new_user u w up fresh free in
        (ok-injective v u (sym (rw done at h)), free, done)
    | inl known ↦
        absurd
          (ok-ne-err v (sentinel err_user_exists) (sym (rw (create_known_id u w up known) at h)))
  ]
]

pub get_by_email_up :
    (email : Text) (w : Server)
    → IsUp w.env
    → get_by_email email w
      ≡ (or_not_found (find_user email w.users), record w { env = called w.env })
unfolding get_by_email
get_by_email_up email w up =
    rw (up w.env.calls, query_row-find_user email w.users)
      (elim (Option-cases (find_user email w.users)) [
        | inl absent ↦ rw absent
        | inr (u, found) ↦ rw found
      ])

-- The Postgres store meets the contract while its database answers; a new user's id must be new.
pub postgres_users-contract : UserContract postgres_users
unfolding find_user
postgres_users-contract = record {
  Answers = λ w. IsUp w.env;
  IsFresh = λ u w. has_user_id u.id w.users ≡ false;
  view = λ e w. find_user e w.users;
  kept = kept_user;
  kept_fields = λ u. (refl, refl, refl);
  create_new = λ u w up fresh free.
      let done = create_new_user u w up fresh free in (rw done, λ e. rw done, rw done up);
  create_done = λ u v w up h.
      let (same, free, done) = create_done_user u v w up h in
      (same, free, λ e. rw done, rw done up);
  now_answers = λ w up. up;
  now_view = λ w e. refl;
  random_answers = λ w up. up;
  random_view = λ w e. refl;
  create_taken =
      λ u v w up taken. let done = create_taken_user u v w up taken in (rw done, λ e. rw done);
  get_result = λ e w up. let done = get_by_email_up e w up in (rw done, λ e'. rw done, rw done up);
}
