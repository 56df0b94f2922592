-- ===== src/Tests/Auth.antt =====
-- The theorems on users, registration, login and tokens, with a small token library.
use mathlib.Core.Bool.{false≢true}
use goph_keeper.Base.{
  ◌≡◌, ◌≢◌, refl, sym, subst, ◌<◌, ◌+◌, ◌&&◌, Bool, true, false, ltb, nat_beq, nat_beq_iff, Option,
  none, some, [], ◌∷◌, Text, Bytes, codes, text_beq, text_beq_iff, text_eq, nat_eq, trim_space,
  Unicode, to_lower, hex_encode, if◌then◌else◌, Outcome, ok, err, Error, failure, arith, Bool-cases,
  inl, inr, ok-injective, ok-ne-err,
}
use goph_keeper.Models.{Time, User}
use goph_keeper.Repository.Memory.{Process, Items, lookup, create, get, memory_store}
use goph_keeper.Repository.Memory.Laws.{memory_users}
use goph_keeper.Auth.{Bcrypt, normal_email, register, login}
use goph_keeper.Auth.Tokens.{
  Claims, Method, hs256, other_method, Token, Jwt, numeric_date, issue_token, parse_token,
}
use goph_keeper.Auth.Tokens.Parsing.{parse_token-issue_token}
use goph_keeper.Auth.Laws.{Registered, register-eq-ok, login-eq-ok}

-- A library that signs one list of claims, with one key.
abbrev pub signed : Claims
signed = record {
  user_id = codes "0102";
  email = codes "a@b";
  issued_at = 1000000000;
  expires_at = 86401000000000;
}

abbrev pub secret : Bytes
secret = codes "key"

abbrev pub is_signed : Bytes → Claims → Bool
is_signed key c =
    text_beq key secret
    && (text_beq c.user_id signed.user_id
        && (text_beq c.email signed.email
            && (nat_beq c.issued_at signed.issued_at && nat_beq c.expires_at signed.expires_at)))

abbrev pub header : Text → Method
header t = if text_beq t (codes "token") then hs256 else other_method t

abbrev pub verified : Outcome Bytes → Bool → Outcome Token
verified (err e) fresh = err e
verified (ok key) fresh =
    if text_beq key secret && fresh
    then ok (record { claims = some signed; valid = true })
    else err (failure [])

abbrev pub sign : Bytes → Claims → Outcome Text
sign key c = if is_signed key c then ok (codes "token") else err (failure [])

abbrev pub parse : Text → (Method → Outcome Bytes) → Time → Outcome Token
parse t key_fn now = verified (key_fn (header t)) (ltb now 86401000000000)

both : (a b : Bool) → a && b ≡ true → (a ≡ true) × (b ≡ true)
both true b h = (refl, h)
both false b h = absurd (false≢true h)

is_signed-true : (key : Bytes) (c : Claims) → is_signed key c ≡ true → (key ≡ secret) × (c ≡ signed)
is_signed-true key c h =
    let (k, rest) = both (text_beq key secret) _ h in
    let (u, rest') = both (text_beq c.user_id signed.user_id) _ rest in
    let (e, rest'') = both (text_beq c.email signed.email) _ rest' in
    let (i, x) = both (nat_beq c.issued_at signed.issued_at) _ rest'' in
    let user = (text_beq_iff c.user_id signed.user_id).0 u in
    let email = (text_beq_iff c.email signed.email).0 e in
    let issued = (nat_beq_iff c.issued_at signed.issued_at).0 i in
    let expires = (nat_beq_iff c.expires_at signed.expires_at).0 x in
    (
      (text_beq_iff key secret).0 k,
      λ j. record {
        user_id = user j;
        email = email j;
        issued_at = issued j;
        expires_at = expires j;
      },
    )

pub sign-cases :
    (key : Bytes) (c : Claims) (t : Text)
    → sign key c ≡ ok t
    → (key ≡ secret) × (c ≡ signed) × (t ≡ codes "token")
sign-cases key c t h = elim (Bool-cases (is_signed key c)) [
  | inl yes_signed ↦
      let (k, e) = is_signed-true key c yes_signed in
      (k, e, sym (ok-injective (codes "token") t (rw yes_signed at h)))
  | inr not_signed ↦ absurd (ok-ne-err t (failure []) (sym (rw not_signed at h)))
]

pub header-token : header (codes "token") ≡ hs256
unfolding text_beq
header-token = refl

verified-secret : verified (ok secret) true ≡ ok (record { claims = some signed; valid = true })
unfolding text_beq
verified-secret = refl

pub parse-sign :
    (key : Bytes) (c : Claims) (t : Text) (key_fn : Method → Outcome Bytes) (now : Time)
    → sign key c ≡ ok t
    → key_fn hs256 ≡ ok key
    → now < c.expires_at
    → parse t key_fn now ≡ ok (record { claims = some c; valid = true })
parse-sign key c t key_fn now h gives early =
    let (k, e, name) = sign-cases key c t h in
    let early' : now < 86401000000000 = subst (λ x. now < x.expires_at) e early in
    let fresh : ltb now 86401000000000 ≡ true = ground (arith, early') in
    let header_is : header t ≡ hs256 = subst (λ x. header x ≡ hs256) (sym name) header-token in
    let verified_is : verified (ok key) true ≡ ok (record { claims = some signed; valid = true }) =
      subst (λ x. verified (ok x) true ≡ ok (record { claims = some signed; valid = true })) (sym k)
        verified-secret in
    rw (header_is, gives, fresh, e) verified_is

pub parse_no_key :
    (t : Text) (key_fn : Method → Outcome Bytes) (now : Time) (e : Error)
    → key_fn (header t) ≡ err e
    → (x : Error) × (parse t key_fn now ≡ err x)
parse_no_key t key_fn now e h = (e, rw h refl)

abbrev pub library : Jwt
library = record {
  signed_string = sign;
  method_of = header;
  parse_with_claims = parse;
  method_of-signed_string =
      λ key c t h. subst (λ x. header x ≡ hs256) (sym (sign-cases key c t h).2) header-token;
  parse-signed_string = parse-sign;
  parse_no_key = parse_no_key;
}

-- A hash that is the password itself.
abbrev pub compared : Bool → Option Error
compared true = none
compared false = some (failure [])

abbrev pub bcrypt : Bcrypt
bcrypt = record {
  generate = λ salt password. ok password;
  compare = λ hash password. compared (text_beq hash password);
  compare-generate = λ salt hash password h.
      rw ((text_beq_iff hash password).1 (sym (ok-injective password hash h))) refl;
}

abbrev pub unicode : Unicode
unicode = record { lower_above = λ c. c; is_space-lower_above = λ c. refl }

abbrev pub process : Process
process = record {
  items = [];
  clock = λ _. 1000000000;
  ticks = 0;
  random = λ _. ok (1 ∷ 2 ∷ []);
  draws = 0;
}

abbrev pub user : User
user = record {
  id = codes "0102";
  email = codes "a@b";
  password_hash = codes "pw";
  created_at = 1000000000;
}

abbrev registered : Outcome User × Process
registered = register unicode bcrypt library memory_store (codes " A@b") (codes "pw") process

registering : registered.0 ≡ ok user
unfolding register trim_space to_lower create lookup hex_encode
registering = refl

register-eq-ok_example :
    Registered unicode bcrypt library memory_store memory_users
      (codes " A@b")
      (codes "pw")
      user
      process
      registered.1
unfolding memory_users
register-eq-ok_example =
    register-eq-ok unicode bcrypt library memory_store memory_users (codes " A@b") (codes "pw") user
      process tt registering

abbrev ttl : Time
ttl = 86400000000000

abbrev one_item : Items Text User
one_item = (codes "a@b", user) ∷ []

issuing :
    (issue_token library memory_store secret (codes "0102") (codes "a@b") ttl process).0
    ≡ ok (codes "token")
unfolding issue_token text_beq
issuing = refl

parse_token-issue_token_example :
    (claims : Claims) × (claims.user_id ≡ codes "0102")
    × (claims.email ≡ codes "a@b")
    × ((base : Time) × ((memory_store.now_fn (memory_store.now_fn process).1).0 ≡ ok base)
        × (claims.expires_at ≡ numeric_date (base + ttl)))
    × ((now : Time)
        → now < claims.expires_at
        → parse_token library secret (codes "token") now ≡ ok claims)
parse_token-issue_token_example =
    parse_token-issue_token library memory_store secret (codes "0102") (codes "a@b") (codes "token")
      ttl process issuing

other : header (codes "none") ≢ hs256
unfolding text_beq
other e = cc

logging_in :
    (login unicode bcrypt library memory_store secret ttl
      (codes "A@B ")
      (codes "pw")
      registered.1).0
    ≡ ok (codes "token")
unfolding register login get lookup trim_space to_lower create text_beq issue_token hex_encode
logging_in = refl

login-eq-ok_example :
    (found : User) × (lookup (codes "a@b") registered.1.items ≡ some found)
    × (bcrypt.compare found.password_hash (codes "pw") ≡ none)
    × ((claims : Claims) × (library.signed_string secret claims ≡ ok (codes "token"))
        × (claims.user_id ≡ found.id)
        × (claims.email ≡ found.email))
unfolding memory_users trim_space to_lower
login-eq-ok_example =
    login-eq-ok unicode bcrypt library memory_store memory_users secret ttl (codes "A@B ")
      (codes "pw") (codes "token") registered.1 tt logging_in

same_email : normal_email unicode (codes "A@B ") ≡ normal_email unicode (codes " A@b")
unfolding trim_space to_lower
same_email = refl
