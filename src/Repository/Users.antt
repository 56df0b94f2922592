-- ===== src/Repository/Users.antt =====
-- repository/user_store.go: the interface of a store of users and its contract.
use goph_keeper.Base.{
  ◌≡◌, Option, none, some, Text, Bytes, text_eq, ◌==◌, if◌then◌else◌, Outcome, ok, err, sentinel,
  err_user_exists, err_user_not_found, Run,
}
use goph_keeper.Models.{Time, User}

-- `repository.UserStore`, with the clock and the random source that its client uses.
pub record UserStore : Type 1 where
  pub State : Type 0
  pub create : User → Run State User
  pub get_by_email : Text → Run State User
  pub now_fn : Run State Time
  pub random_fn : Run State Bytes

abbrev pub or_not_found : Option User → Outcome User
or_not_found none = err (sentinel err_user_not_found)
or_not_found (some u) = ok u

-- The contract: a state gives at most one user for each email. `Answers` says that the store can
-- be reached, and `IsFresh` that a new user can be told from all others. What is kept of a user
-- has its id, email and hash.
pub record UserContract (U : UserStore) : Type 1 where
  pub Answers : U.State → Type 0
  pub IsFresh : User → U.State → Type 0
  pub view : Text → U.State → Option User
  pub kept : User → User
  pub kept_fields :
      (u : User)
      → ((kept u).id ≡ u.id)
        × ((kept u).email ≡ u.email)
        × ((kept u).password_hash ≡ u.password_hash)
  pub create_new :
      (u : User) (w : U.State)
      → Answers w
      → IsFresh u w
      → view u.email w ≡ none
      → ((U.create u w).0 ≡ ok u)
        × ((e : Text)
            → view e (U.create u w).1 ≡ (if u.email == e then some (kept u) else view e w))
        × Answers (U.create u w).1
  pub create_done :
      (u v : User) (w : U.State)
      → Answers w
      → (U.create u w).0 ≡ ok v
      → (v ≡ u)
        × (view u.email w ≡ none)
        × ((e : Text)
            → view e (U.create u w).1 ≡ (if u.email == e then some (kept u) else view e w))
        × Answers (U.create u w).1
  pub now_answers : (w : U.State) → Answers w → Answers (U.now_fn w).1
  pub now_view : (w : U.State) (e : Text) → view e (U.now_fn w).1 ≡ view e w
  pub random_answers : (w : U.State) → Answers w → Answers (U.random_fn w).1
  pub random_view : (w : U.State) (e : Text) → view e (U.random_fn w).1 ≡ view e w
  pub create_taken :
      (u v : User) (w : U.State)
      → Answers w
      → view u.email w ≡ some v
      → ((U.create u w).0 ≡ err (sentinel err_user_exists))
        × ((e : Text) → view e (U.create u w).1 ≡ view e w)
  pub get_result :
      (e : Text) (w : U.State)
      → Answers w
      → ((U.get_by_email e w).0 ≡ or_not_found (view e w))
        × ((e' : Text) → view e' (U.get_by_email e w).1 ≡ view e' w)
        × Answers (U.get_by_email e w).1
