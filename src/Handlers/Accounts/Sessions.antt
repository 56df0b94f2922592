-- ===== src/Handlers/Accounts/Sessions.antt =====
-- A user who registers and logs in over HTTP is the user that `/api/me` shows.
use mathlib.Core.Option.{none-ne-some}
use goph_keeper.Base.{
  ℕ, ◌<◌, ◌+◌, ◌*◌, ◌≡◌, ◌≢◌, refl, sym, ap, ◌∙◌, inl, inr, Bool, true, false, not, none, some, [],
  ◌∷◌, Text, Bytes, codes, text_eq, ◌==◌, text_beq_iff, text_beq_refl, is_empty, trim_space,
  Unicode, if◌then◌else◌, Outcome, ok, err, ok-injective, Bool-cases, arith, is_error,
  err_user_exists,
}
use goph_keeper.Models.{Time, User}
use goph_keeper.Repository.Users.{UserStore, UserContract}
use goph_keeper.Auth.{Bcrypt, normal_email, register, login}
use goph_keeper.Auth.Laws.{register-eq-ok, login-register}
use goph_keeper.Auth.Tokens.{Claims, Jwt, numeric_date, parse_token}
use goph_keeper.Auth.Tokens.Parsing.{parse_token-issue_token}
use goph_keeper.Client.ParseMeta.{cut}
use goph_keeper.Handlers.Replies.{
  AuthRequest, Incoming, Content, refusal, no_content, success, token_content, me_content, Handler,
  with_body, with_method, with_json, refuse, outcome_answer, bearer, auth_middleware,
  is_json_content_type,
}
use goph_keeper.Handlers.Accounts.{
  register_failed, register_reply, register_handler, token_ttl, login_reply, login_handler,
  me_handler, serve_me,
}

-- A guard that answers with another status than the one that came back was passed.
if-passed :
    {W : Type 0} (stop : Bool) (status : ℕ) (text : Text) (next : Handler W) (w : W) (n : ℕ)
    → status ≢ n
    → ((if stop then refuse status text else next) w).0.status ≡ n
    → (if stop then refuse status text else next) w ≡ next w
if-passed true status text next w n other h = absurd (other h)
if-passed false status text next w n other h = refl

body-passed :
    {W : Type 0} (body : Outcome AuthRequest) (next : AuthRequest → Handler W) (w : W) (n : ℕ)
    → 400 ≢ n
    → (with_body body next w).0.status ≡ n
    → (req : AuthRequest) × (body ≡ ok req) × (with_body body next w ≡ next req w)
body-passed (err e) next w n other h = absurd (other h)
body-passed (ok req) next w n other h = (req, refl, refl)

-- The checks in front of registration and login were passed.
posted :
    {W : Type 0} (u : Unicode) (r : Incoming) (next : AuthRequest → Handler W) (w : W) (n : ℕ)
    → n < 400
    → (with_method (codes "POST") r (with_json u r (with_body r.credentials next)) w).0.status ≡ n
    → (req : AuthRequest) × (r.credentials ≡ ok req)
      × (with_method (codes "POST") r (with_json u r (with_body r.credentials next)) w ≡ next req w)
posted u r next w n low h =
    let method =
      if-passed (not (r.method == codes "POST")) 405 _
        (with_json u r (with_body r.credentials next)) w n (omega arith) h in
    let h' = rw method at h in
    let json =
      if-passed (not (is_json_content_type u r.content_type)) 415 _ (with_body r.credentials next) w
        n (omega arith) h' in
    let (req, given, last) = body-passed r.credentials next w n (omega arith) (rw json at h') in
    (req, given, method ∙ json ∙ last)

registered_ok :
    (x : Outcome User)
    → (outcome_answer (λ _. success 201 no_content) register_failed x).status ≡ 201
    → (user : User) × (x ≡ ok user)
registered_ok (ok user) h = (user, refl)
registered_ok (err e) h = elim (Bool-cases (is_error e err_user_exists)) [
  | inl taken ↦ absurd (omega (arith, (rw taken at h)))
  | inr other ↦ absurd (omega (arith, (rw other at h)))
]

abbrev content_of_token : Content → Text
content_of_token (token_content t) = t
content_of_token _ = []

logged_in :
    (x : Outcome Text) (token : Text)
    → outcome_answer
        (λ t. success 200 (token_content t))
        (λ _. refusal 401 (codes "invalid credentials"))
        x
      ≡ success 200 (token_content token)
    → x ≡ ok token
logged_in (ok t) token h = ap (λ a. ok (content_of_token a.content)) h
logged_in (err e) token h = absurd (status_apart (ap (λ a. a.status) h))
  where
    status_apart : ¬ (◌≡◌ {A = ℕ} 401 200)
    status_apart h = omega arith

bearer_given :
    (u : Unicode) (header token : Text) → bearer u header ≡ some token → is_empty header ≡ false
unfolding bearer cut
bearer_given u [] token h = absurd (none-ne-some token h)
bearer_given u (c ∷ s) token h = refl

me_shown :
    {W : Type 0} (u : Unicode) (j : Jwt) (secret : Bytes) (now : Time) (m : Incoming) (token : Text)
    (claims : Claims) (x : W)
    → m.method ≡ codes "GET"
    → bearer u m.authorization ≡ some token
    → parse_token j secret token now ≡ ok claims
    → serve_me u j secret now m x ≡ (success 200 (me_content claims.user_id claims.email), x)
unfolding serve_me me_handler auth_middleware
me_shown u j secret now m token claims x get held parsed =
    rw
      (
        bearer_given u m.authorization token held,
        held,
        parsed,
        (text_beq_iff m.method (codes "GET")).1 get,
      )
      refl

module _ (u : Unicode) (b : Bcrypt) (j : Jwt) (U : UserStore) (L : UserContract U) where
  -- What the requests of a session make of the user, until a day after the second reading of the
  -- clock in a state.
  abbrev pub Shown : Bytes → Text → User → U.State → Type 1
  Shown secret token user at =
      (base : Time) × ((U.now_fn (U.now_fn at).1).0 ≡ ok base)
      × ((W : Type 0) (x : W) (now : Time) (m : Incoming)
          → m.method ≡ codes "GET"
          → bearer u m.authorization ≡ some token
          → now < numeric_date (base + 86400 * 1000000000)
          → serve_me u j secret now m x ≡ (success 200 (me_content user.id user.email), x))

  register_answered :
      (r : Incoming) (req : AuthRequest) (w : U.State)
      → r.credentials ≡ ok req
      → (register_handler u b j U r w).0.status ≡ 201
      → (user : User) × ((register u b j U (trim_space req.email) (trim_space req.password) w).0
          ≡ ok user)
        × ((register_handler u b j U r w).1
            ≡ (register u b j U (trim_space req.email) (trim_space req.password) w).1)
  unfolding register_handler
  register_answered r req w sent created =
      let (q, is_q, passed) = posted u r (register_reply u b j U) w 201 (omega arith) created in
      let same : q ≡ req = ok-injective q req (sym is_q ∙ sent) in
      let passed' = rw same at passed in
      let (user, done) =
        registered_ok (register u b j U (trim_space req.email) (trim_space req.password) w).0
          (rw passed' at created) in
      (user, done, ap (λ x. x.1) passed')

  login_answered :
      (secret : Bytes) (l : Incoming) (req : AuthRequest) (token : Text) (w : U.State)
      → l.credentials ≡ ok req
      → (login_handler u b j U secret l w).0 ≡ success 200 (token_content token)
      → (login u b j U secret token_ttl (trim_space req.email) (trim_space req.password) w).0
        ≡ ok token
  unfolding login_handler
  login_answered secret l req token w sent answered =
      let (q, is_q, passed) =
        posted u l (login_reply u b j U secret) w 200 (omega arith) (ap (λ a. a.status) answered) in
      let same : q ≡ req = ok-injective q req (sym is_q ∙ sent) in
      logged_in _ token (rw (rw same at passed) at answered)

  -- After a registration that was answered with 201, a login with an email of the same normal form
  -- and the same password, up to the spaces around them, that is answered with a token makes
  -- `/api/me` answer, to each GET that carries this token less than a day, in whole seconds, after
  -- the second reading of the clock that follows the login's query, with the id and the email of
  -- the user that was registered: its email is the normal form, which no user had before, and is
  -- stored.
  pub me-login-register :
      (secret : Bytes) (r l : Incoming) (req req' : AuthRequest) (token : Text) (w : U.State)
      → L.Answers w
      → r.credentials ≡ ok req
      → l.credentials ≡ ok req'
      → normal_email u (trim_space req'.email) ≡ normal_email u (trim_space req.email)
      → trim_space req'.password ≡ trim_space req.password
      → (register_handler u b j U r w).0.status ≡ 201
      → let w' = (register_handler u b j U r w).1 in
        (login_handler u b j U secret l w').0 ≡ success 200 (token_content token)
        → (user : User) × (user.email ≡ normal_email u (trim_space req.email))
          × (L.view user.email w ≡ none)
          × (L.view user.email w' ≡ some (L.kept user))
          × Shown secret token user (U.get_by_email (normal_email u (trim_space req'.email)) w').1
  me-login-register secret r l req req' token w up sent sent' same same' created answered =
      let (user, done, state) = register_answered r req w sent created in
      let facts =
        register-eq-ok u b j U L (trim_space req.email) (trim_space req.password) user w up done in
      let logged = login_answered secret l req' token _ sent' answered in
      let issued =
        login-register u b j U L secret token_ttl (trim_space req.email) (trim_space req'.email)
          (trim_space req.password) user w up done same in
      let token_made = sym issued ∙ (rw (same', state) at logged) in
      let (claims, id, email, base, parses) =
        parse_token-issue_token j U secret user.id user.email token token_ttl _ token_made in
      (
        user,
        facts.normal,
        facts.was_free,
        rw state (facts.now_kept user.email ∙ rw (text_beq_refl user.email) refl),
        (
          base.0,
          rw state base.1,
          λ W x now m get held early.
              rw (sym id, sym email)
                (me_shown u j secret now m token claims x get held (parses now (rw base.2 early))),
        ),
      )
