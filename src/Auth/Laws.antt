-- ===== src/Auth/Laws.antt =====
-- Registration and login over a store that meets the contract of users.
use goph_keeper.Base.{
  ◌≡◌, refl, sym, ◌∙◌, ◌≢◌, inl, inr, ◌||◌, none, some, Text, Bytes, text_eq, text_beq_refl, ◌==◌,
  is_empty, Unicode, if◌then◌else◌, ok, err, sentinel, err_invalid_credentials, err_user_not_found,
  ◌>>◌, ok-ne-err, Bool-cases, Outcome-cases, hex_encode, ◌>>=◌, Option-cases, Run,
}
use goph_keeper.Models.{Time, User}
use goph_keeper.Repository.Users.{UserStore, UserContract}
use goph_keeper.Auth.Tokens.{Jwt, Claims, issue_token}
use goph_keeper.Auth.{Bcrypt, normal_email, hash_password, new_id, register, compared, login}

module _ (u : Unicode) (b : Bcrypt) (j : Jwt) (U : UserStore) (L : UserContract U) where
  -- What a successful registration has done.
  pub record Registered (email password : Text) (user : User) (w w' : U.State) : Type 0 where
    pub normal : user.email ≡ normal_email u email
    pub matches : b.compare user.password_hash password ≡ none
    pub was_free : L.view user.email w ≡ none
    pub now_kept :
        (e : Text) → L.view e w' ≡ (if user.email == e then some (L.kept user) else L.view e w)
    pub answers : L.Answers w'

  -- The states that `Register` passes through before it creates the user.
  abbrev before_create : U.State → U.State
  before_create w = (U.now_fn (U.random_fn (U.random_fn w).1).1).1

  before_create-Answers : (w : U.State) → L.Answers w → L.Answers (before_create w)
  before_create-Answers w up = L.now_answers _ (L.random_answers _ (L.random_answers w up))

  view-before_create : (w : U.State) (e : Text) → L.view e (before_create w) ≡ L.view e w
  view-before_create w e = L.now_view _ e ∙ L.random_view _ e ∙ L.random_view w e

  -- The body of `Register` after its test of the arguments.
  abbrev steps : Text → Text → Run U.State User
  steps email password = do
    hash ← hash_password u b j U password
    id ← new_id u b j U
    now ← U.now_fn
    U.create (record { id = id; email = email; password_hash = hash; created_at = now })

  steps-create :
      (email password : Text) (user : User) (w : U.State)
      → (steps email password w).0 ≡ ok user
      → (candidate : User) × (candidate.email ≡ email)
        × (b.compare candidate.password_hash password ≡ none)
        × (steps email password w ≡ U.create candidate (before_create w))
  unfolding hash_password new_id
  steps-create email password user w h = elim (Outcome-cases (U.random_fn w).0) [
    | inr (e, k) ↦ absurd (ok-ne-err user e (sym (rw k at h)))
    | inl (salt, k1) ↦ elim (Outcome-cases (b.generate salt password)) [
      | inr (e, k) ↦ absurd (ok-ne-err user e (sym (rw (k1, k) at h)))
      | inl (hash, k2) ↦ elim (Outcome-cases (U.random_fn (U.random_fn w).1).0) [
        | inr (e, k) ↦ absurd (ok-ne-err user e (sym (rw (k1, k2, k) at h)))
        | inl (bytes, k3) ↦ elim (Outcome-cases (U.now_fn (U.random_fn (U.random_fn w).1).1).0) [
          | inr (e, k) ↦ absurd (ok-ne-err user e (sym (rw (k1, k2, k3, k) at h)))
          | inl (now, k4) ↦ (
            record { id = hex_encode bytes; email = email; password_hash = hash; created_at = now },
            refl,
            b.compare-generate salt hash password k2,
            rw (k1, k2, k3, k4),
          )
        ]
      ]
    ]
  ]

  register-steps :
      (email password : Text) (user : User) (w : U.State)
      → (register u b j U email password w).0 ≡ ok user
      → register u b j U email password w ≡ steps (normal_email u email) password w
  unfolding register
  register-steps email password user w h =
      elim (Bool-cases (is_empty (normal_email u email) || is_empty password)) [
        | inl missing ↦ absurd (ok-ne-err user _ (sym (rw (missing, register) at h)))
        | inr given ↦ rw (given, register)
      ]

  -- A registration that succeeds stores a user under the normal form of the email, which was free,
  -- with a hash that matches the password; other emails give what they gave.
  pub register-eq-ok :
      (email password : Text) (user : User) (w : U.State)
      → L.Answers w
      → (register u b j U email password w).0 ≡ ok user
      → Registered email password user w (register u b j U email password w).1
  register-eq-ok email password user w up h =
      let e = register-steps email password user w h in
      let (candidate, mail, match, c) =
        steps-create (normal_email u email) password user w (rw e at h) in
      let (same, free, view, up') =
        L.create_done candidate user (before_create w) (before_create-Answers w up)
          (rw (e, c) at h) in
      rw (e, c, same)
        (record {
          normal = mail;
          matches = match;
          was_free = sym (view-before_create w candidate.email) ∙ free;
          now_kept = λ x. view x ∙ rw (view-before_create w x);
          answers = up';
        })

  abbrev proceed : Bytes → Time → Text → User → Run U.State Text
  proceed secret ttl password user = do
    compared u b j U (b.compare user.password_hash password)
    issue_token j U secret user.id user.email ttl

  login_found :
      (secret : Bytes) (ttl : Time) (email password : Text) (w : U.State) (user : User)
      → L.Answers w
      → L.view (normal_email u email) w ≡ some user
      → login u b j U secret ttl email password w
        ≡ proceed secret ttl password user (U.get_by_email (normal_email u email) w).1
  unfolding login
  login_found secret ttl email password w user up held =
      let got : (U.get_by_email (normal_email u email) w).0 ≡ ok user =
        (L.get_result (normal_email u email) w up).0 ∙ rw held in
      rw got

  login_missing :
      (secret : Bytes) (ttl : Time) (email password : Text) (w : U.State)
      → L.Answers w
      → L.view (normal_email u email) w ≡ none
      → (login u b j U secret ttl email password w).0 ≡ err (sentinel err_invalid_credentials)
  unfolding login
  login_missing secret ttl email password w up held =
      let got : (U.get_by_email (normal_email u email) w).0 ≡ err (sentinel err_user_not_found) =
        (L.get_result (normal_email u email) w up).0 ∙ rw held in
      rw got

  issue_token-eq-ok :
      (secret : Bytes) (id email token : Text) (ttl : Time) (w : U.State)
      → (issue_token j U secret id email ttl w).0 ≡ ok token
      → (claims : Claims) × (j.signed_string secret claims ≡ ok token)
        × (claims.user_id ≡ id)
        × (claims.email ≡ email)
  unfolding issue_token
  issue_token-eq-ok secret id email token ttl w h = elim (Outcome-cases (U.now_fn w).0) [
    | inr (e, k) ↦ absurd (ok-ne-err token e (sym (rw k at h)))
    | inl (issued, k1) ↦ elim (Outcome-cases (U.now_fn (U.now_fn w).1).0) [
      | inr (e, k) ↦ absurd (ok-ne-err token e (sym (rw (k1, k) at h)))
      | inl (base, k2) ↦ (_, rw (k1, k2) at h, refl, refl)
    ]
  ]

  -- A login that succeeds is for a stored user whose hash matches the password, and its token is
  -- signed for that user's id and email.
  pub login-eq-ok :
      (secret : Bytes) (ttl : Time) (email password token : Text) (w : U.State)
      → L.Answers w
      → (login u b j U secret ttl email password w).0 ≡ ok token
      → (user : User) × (L.view (normal_email u email) w ≡ some user)
        × (b.compare user.password_hash password ≡ none)
        × ((claims : Claims) × (j.signed_string secret claims ≡ ok token)
            × (claims.user_id ≡ user.id)
            × (claims.email ≡ user.email))
  login-eq-ok secret ttl email password token w up h =
      elim (Option-cases (L.view (normal_email u email) w)) [
        | inl absent ↦
            absurd (ok-ne-err token _ (sym h ∙ login_missing secret ttl email password w up absent))
        | inr (user, held) ↦ elim (Option-cases (b.compare user.password_hash password)) [
          | inr (e, wrong) ↦ absurd (
              ok-ne-err token _
                (sym (rw (login_found secret ttl email password w user up held, wrong) at h)))
          | inl match ↦ (
            user,
            held,
            match,
            issue_token-eq-ok secret user.id user.email token ttl _
                (rw (login_found secret ttl email password w user up held, match) at h),
          )
        ]
      ]

  -- A login for an email that no user has, and one with a password that does not match, fail with
  -- one and the same error.
  pub login_refused :
      (secret : Bytes) (ttl : Time) (email password : Text) (w : U.State)
      → L.Answers w
      → ((user : User)
          → L.view (normal_email u email) w ≡ some user
          → b.compare user.password_hash password ≢ none)
      → (login u b j U secret ttl email password w).0 ≡ err (sentinel err_invalid_credentials)
  login_refused secret ttl email password w up wrong =
      elim (Option-cases (L.view (normal_email u email) w)) [
        | inl absent ↦ login_missing secret ttl email password w up absent
        | inr (user, held) ↦ elim (Option-cases (b.compare user.password_hash password)) [
          | inr (e, refused) ↦ rw (login_found secret ttl email password w user up held, refused)
          | inl match ↦ absurd (wrong user held match)
        ]
      ]

  -- After a registration, a login with any spelling of the email that has the same normal form,
  -- and with the same password, issues a token for the id and email of the registered user.
  pub login-register :
      (secret : Bytes) (ttl : Time) (email email' password : Text) (user : User) (w : U.State)
      → L.Answers w
      → (register u b j U email password w).0 ≡ ok user
      → normal_email u email' ≡ normal_email u email
      → let w' = (register u b j U email password w).1 in
        (login u b j U secret ttl email' password w').0
        ≡ (issue_token j U secret user.id user.email ttl
            (U.get_by_email (normal_email u email') w').1).0
  login-register secret ttl email email' password user w up h same =
      let r = register-eq-ok email password user w up h in
      let w' = (register u b j U email password w).1 in
      let (id, mail, hash) = L.kept_fields user in
      let held : L.view (normal_email u email') w' ≡ some (L.kept user) =
        rw (same, ← r.normal) (r.now_kept user.email ∙ rw (text_beq_refl user.email)) in
      rw (
        login_found secret ttl email' password w' (L.kept user) r.answers held,
        hash,
        r.matches,
        id,
        mail,
      )
