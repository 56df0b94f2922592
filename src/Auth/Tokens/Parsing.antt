-- ===== src/Auth/Tokens/Parsing.antt =====
-- Issued tokens parse, and no other signing method is let through.
use goph_keeper.Base.{
  ◌≡◌, ◌≢◌, refl, sym, ◌+◌, ◌<◌, Text, Bytes, ok, err, Error, Outcome-cases, ok-ne-err, inl, inr,
}
use goph_keeper.Models.{Time}
use goph_keeper.Repository.Users.{UserStore}
use goph_keeper.Auth.Tokens.{
  Claims, Method, hs256, other_method, Jwt, numeric_date, issue_token, key_fn, parse_token,
}

-- A token that was issued parses, before it expires and with the same secret, to claims with the
-- id and the email that it was issued for. It expires at the clock's second reading plus the
-- lifetime, cut to seconds.
pub parse_token-issue_token :
    (j : Jwt) (U : UserStore) (secret : Bytes) (id email token : Text) (ttl : Time) (w : U.State)
    → (issue_token j U secret id email ttl w).0 ≡ ok token
    → (claims : Claims) × (claims.user_id ≡ id)
      × (claims.email ≡ email)
      × ((base : Time) × ((U.now_fn (U.now_fn w).1).0 ≡ ok base)
          × (claims.expires_at ≡ numeric_date (base + ttl)))
      × ((now : Time) → now < claims.expires_at → parse_token j secret token now ≡ ok claims)
unfolding issue_token parse_token
parse_token-issue_token j U secret id email token ttl w h = elim (Outcome-cases (U.now_fn w).0) [
  | inr (e, k) ↦ absurd (ok-ne-err token e (sym (rw k at h)))
  | inl (issued, k1) ↦ elim (Outcome-cases (U.now_fn (U.now_fn w).1).0) [
    | inr (e, k) ↦ absurd (ok-ne-err token e (sym (rw (k1, k) at h)))
    | inl (base, k2) ↦
        let signed = rw (k1, k2) at h in
        (
          record {
            user_id = id;
            email = email;
            issued_at = numeric_date issued;
            expires_at = numeric_date (base + ttl);
          },
          refl,
          refl,
          (base, k2, refl),
          λ now early.
              rw (j.parse-signed_string secret _ token (key_fn secret) now signed refl early),
        )
  ]
]

no_key : (secret : Bytes) (m : Method) → m ≢ hs256 → (e : Error) × (key_fn secret m ≡ err e)
no_key secret hs256 d = absurd (d refl)
no_key secret (other_method name) d = (_, refl)

-- A token that names another signing method than HS256 is refused, at any time.
pub parse_token_other_method :
    (j : Jwt) (secret : Bytes) (token : Text) (now : Time)
    → j.method_of token ≢ hs256
    → (x : Error) × (parse_token j secret token now ≡ err x)
unfolding parse_token
parse_token_other_method j secret token now other =
    let (cause, refused) = no_key secret (j.method_of token) other in
    let (x, e) = j.parse_no_key token (key_fn secret) now cause refused in (x, rw e)
