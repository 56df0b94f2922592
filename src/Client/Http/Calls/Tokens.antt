-- ===== src/Client/Http/Calls/Tokens.antt =====
-- The token: a call that needs it is not sent without it, and a login stores it.
use goph_keeper.Base.{
  suc, ◌≡◌, refl, sym, true, false, Option, none, some, Text, codes, is_empty, Outcome, ok, err,
  Error, failure, Option-cases, Bool-cases, inl, inr, ok-ne-err, continue-eq-ok,
}
use goph_keeper.Client.Items.{Stamp}
use goph_keeper.Client.Device.{Device}
use goph_keeper.Client.TokenStore
use goph_keeper.Client.Http.{Body, Response, Http, login_body}
use goph_keeper.Client.Http.Calls.{State, encoding_error, do_request, save_token, login}

-- A call that needs a token, made without one that can be read, sends nothing: it fails, and the
-- transport stays as it was.
pub do_request_without_token :
    (H : Http) (A : Type 0) (method path : Text) (since : Option Stamp) (body : Option Body)
    (decode : Response → Outcome A) (d : Device) (s : H.State) (e : Error)
    → (TokenStore.load d).0 ≡ err e
    → ((x : Error) × ((do_request H method path since body true decode (d, s)).0 ≡ err x))
      × ((do_request H method path since body true decode (d, s)).1.1 ≡ s)
unfolding do_request
do_request_without_token H A method path since body decode d s e missing =
    elim (Option-cases (encoding_error H body)) [
      | inr (x, bad) ↦ ((x, rw bad refl), rw bad refl)
      | inl encoded ↦ elim (Option-cases (H.new_request path)) [
        | inl made ↦ ((e, rw (encoded, made, missing) refl), rw (encoded, made, missing) refl)
        | inr (x, bad) ↦ ((x, rw (encoded, bad) refl), rw (encoded, bad) refl)
      ]
    ]

save-token :
    (token : Text) (d : Device)
    → (TokenStore.save token d).0 ≡ ok tt
    → (TokenStore.save token d).1.token ≡ some token
unfolding TokenStore.save
save-token token d done = elim (Option-cases (d.disk.errors d.disk.operations)) [
  | inr (e, bad) ↦ absurd (ok-ne-err tt e (sym (rw bad at done)))
  | inl made ↦ elim (Option-cases (d.disk.errors (suc d.disk.operations))) [
    | inr (e, bad) ↦ absurd (ok-ne-err tt e (sym (rw (made, bad) at done)))
    | inl wrote ↦ rw (made, wrote) refl
  ]
]

save_token-token :
    (H : Http) (token : Text) (w : State H)
    → (save_token H token w).0 ≡ ok tt
    → (is_empty token ≡ false) × ((save_token H token w).1.0.token ≡ some token)
save_token-token H token (d, s) done = elim (Bool-cases (is_empty token)) [
  | inl empty ↦ absurd (ok-ne-err tt (failure (codes "empty token")) (sym (rw empty at done)))
  | inr full ↦ (full, rw full (save-token token d (rw full at done)))
]

-- A `Login` that succeeds leaves on the device the token that the server sent, which is not empty.
pub login-token :
    (H : Http) (email password : Text) (d : Device) (s : H.State)
    → (login H email password (d, s)).0 ≡ ok tt
    → (token : Text) × ((do_request H
          (codes "POST")
          (codes "/api/login")
          none
          (some (login_body email password))
          false
          (λ r. r.decode_token)
          (d, s)).0
        ≡ ok token)
      × (is_empty token ≡ false)
      × ((login H email password (d, s)).1.0.token ≡ some token)
unfolding login
login-token H email password d s done =
    let reply =
      do_request H (codes "POST") (codes "/api/login") none (some (login_body email password)) false
        (λ r. r.decode_token) (d, s) in
    let (token, got, next, same) = continue-eq-ok (λ token. save_token H token) reply done in
    let (full, stored) = save_token-token H token reply.1 next in (token, got, full, rw same stored)
