-- ===== src/Repository/PostgresUsers/Creation.antt =====
-- `PostgresUserStore`: a creation, and what the reads before and after it return.
use mathlib.Core.Bool.{false≢true}
use goph_keeper.Base.{
  ◌≡◌, ◌⊎◌, ◌*◌, ◌/◌, text_beq, text_beq_iff, ap, refl, sym, true, false, List, [], ◌∷◌, Text,
  text_eq, ◌==◌, if◌then◌else◌, ok, err, sentinel, err_user_exists, err_user_not_found,
  Option-cases, Bool-cases, inl, inr,
}
use goph_keeper.Models.{User}
use goph_keeper.Database.{IsUp, called}
use goph_keeper.Repository.Server.{Server}
use goph_keeper.Repository.PostgresUsers.{kept_user, has_user_id, create, get_by_email}
use goph_keeper.Repository.PostgresUsers.Laws.{
  find_user, create_new_user, create_known_id, create_taken_user, get_by_email_up,
}

-- A user in a list has the identifier.
abbrev pub HoldsId : Text → List User → Type 0
HoldsId id [] = ⊥
HoldsId id (v ∷ users) = (v.id ≡ id) ⊎ HoldsId id users

has_user_id-HoldsId :
    (id : Text) (users : List User) → has_user_id id users ≡ true → HoldsId id users
unfolding has_user_id
has_user_id-HoldsId id [] h = false≢true h
has_user_id-HoldsId id (v ∷ users) h = elim (Bool-cases (v.id == id)) [
  | inl same ↦ inl ((text_beq_iff v.id id).0 same)
  | inr differ ↦ inr (has_user_id-HoldsId id users (rw differ at h))
]

has_user_id-free :
    (id : Text) (users : List User) → has_user_id id users ≡ false → ¬ HoldsId id users
unfolding has_user_id
has_user_id-free id [] h held = held
has_user_id-free id (v ∷ users) h (inl same) =
    false≢true (sym (rw ((text_beq_iff v.id id).1 same) at h))
has_user_id-free id (v ∷ users) h (inr held) = elim (Bool-cases (v.id == id)) [
  | inl same ↦ false≢true (sym (rw same at h))
  | inr differ ↦ has_user_id-free id users (rw differ at h) held
]

module _ (user : User) (w : Server) where
  -- What a creation and the reads around it return.
  abbrev pub Created : Type 0
  Created =
      ((create user w).0 ≡ ok user)
      × ((get_by_email user.email w).0 ≡ err (sentinel err_user_not_found))
      × (¬ HoldsId user.id w.users)
      × ((e : Text)
          → (get_by_email e (create user w).1).0 ≡ (
              if text_beq user.email e
              then ok (record user { created_at = user.created_at / 1000 * 1000 })
              else (get_by_email e w).0))

  abbrev pub Refused : Type 0
  Refused =
      ((create user w).0 ≡ err (sentinel err_user_exists))
      × ((create user w).1.users ≡ w.users)
      × (((old : User) × ((get_by_email user.email w).0 ≡ ok old)) ⊎ HoldsId user.id w.users)

  -- On a database that answers, `Create` either returns the user, whose email `GetByEmail` did not
  -- find and whose identifier no user had; `GetByEmail` then finds the user under its email, with
  -- its time of creation cut to microseconds, and what it found before under every other email. Or
  -- it returns `ErrUserExists` and keeps the table, and then the email or the identifier was taken.
  pub get_by_email-create : IsUp w.env → Created ⊎ Refused
  unfolding find_user
  get_by_email-create up = elim (Option-cases (find_user user.email w.users)) [
    | inr (old, taken) ↦
        let done = create_taken_user user old w up taken in
        inr (
          ap (λ x. x.0) done,
          ap (λ x. x.1.users) done,
          inl (old, rw (get_by_email_up user.email w up, taken) refl),
        )
    | inl free ↦ elim (Bool-cases (has_user_id user.id w.users)) [
      | inl known ↦
          let done = create_known_id user w up known in
          inr (
            ap (λ x. x.0) done,
            ap (λ x. x.1.users) done,
            inr (has_user_id-HoldsId user.id w.users known),
          )
      | inr fresh ↦
          let done = create_new_user user w up fresh free in
          inl (
            ap (λ x. x.0) done,
            rw (get_by_email_up user.email w up, free) refl,
            has_user_id-free user.id w.users fresh,
            λ e. rw done (
                rw
                  (
                    get_by_email_up e
                        (record w { users = kept_user user ∷ w.users; env = called w.env }) up,
                    get_by_email_up e w up,
                  )
                  (elim (Bool-cases (user.email == e)) [
                    | inl same ↦ rw same refl
                    | inr differ ↦ rw differ refl
                  ])),
          )
    ]
  ]
