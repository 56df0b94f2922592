-- ===== src/Tests/Handlers.antt =====
-- The theorem on the handlers, at a request that carries another user's token.
use mathlib.Core.Bool.{false≢true}
use mathlib.Core.Option.{some-injective}
use goph_keeper.Base.{
  ◌≡◌, ◌≢◌, refl, sym, ap, subst, ◌∙◌, none, some, [], ◌∷◌, Text, codes, text_beq, text_beq_iff,
  trim_space, to_lower, ok, err, ok-injective, false, failure,
}
use goph_keeper.Auth.Tokens.{Claims, parse_token}
use goph_keeper.Client.ParseMeta.{cut}
use goph_keeper.Repository.Secrets.Owners.{owned_rows}
use goph_keeper.Service.Postgres.{postgres_store, postgres_store-isolates}
use goph_keeper.Handlers.Replies.{Incoming, bearer}
use goph_keeper.Handlers.{push_items, serve_endpoint}
use goph_keeper.Handlers.Laws.{serve_endpoint-keeps}
use goph_keeper.Tests.Auth.{library, secret, signed, unicode}
use goph_keeper.Tests.Server.{server, ann}

abbrev request : Incoming
request = record {
  method = codes "POST";
  authorization = codes "Bearer token";
  content_type = codes "application/json";
  since = none;
  id = [];
  credentials = err (failure []);
  secret = err (failure []);
  items = ok (
      record {
        id = codes "a";
        owner_id = [];
        type = codes "text";
        payload = some (9 ∷ []);
        meta = none;
        deleted = false;
        created_at = 1;
        updated_at = 99000000;
      }
      ∷ []);
}

its_token : bearer unicode request.authorization ≡ some (codes "token")
unfolding bearer cut to_lower trim_space text_beq
its_token = refl

its_claims : parse_token library secret (codes "token") 0 ≡ ok signed
unfolding parse_token text_beq
its_claims = refl

owners_apart : signed.user_id ≢ ann
unfolding text_beq
owners_apart e = false≢true ((text_beq_iff signed.user_id ann).1 e)

foreign :
    (token : Text) (claims : Claims)
    → bearer unicode request.authorization ≡ some token
    → parse_token library secret token 0 ≡ ok claims
    → claims.user_id ≢ ann
foreign token claims found parsed e =
    let token_is : codes "token" ≡ token = some-injective _ token (sym its_token ∙ found) in
    let known = subst (λ t. parse_token library secret t 0 ≡ ok signed) token_is its_claims in
    let same : signed ≡ claims = ok-injective signed claims (sym known ∙ parsed) in
    owners_apart (ap (λ c. c.user_id) same ∙ e)

serve_endpoint-keeps_example :
    owned_rows ann
      (serve_endpoint unicode postgres_store library secret 0 push_items request server).1.secrets
    ≡ owned_rows ann server.secrets
unfolding postgres_store-isolates
serve_endpoint-keeps_example =
    serve_endpoint-keeps unicode postgres_store postgres_store-isolates ann library secret 0
      push_items request server foreign
