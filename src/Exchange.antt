-- ===== src/Exchange.antt =====
-- The client of internal/client/api against the router of internal/handlers: a transport that
-- carries each request to the server and its answer back. The bodies of the two sides have the
-- same fields under the same names, so that their JSON keeps what they hold.
pub mod Requests
pub mod Delivery
use goph_keeper.Base.{
  ℕ, Bool, Option, none, some, List, [], ◌∷◌, ◌++◌, map, Text, Bytes, codes, Unicode, if◌then◌else◌,
  Outcome, ok, err, Error, failure, Run,
}
use goph_keeper.Models.{Time, Secret}
use goph_keeper.Auth.{Bcrypt}
use goph_keeper.Auth.Tokens.{Jwt}
use goph_keeper.Repository.Server.{Server}
use goph_keeper.Client.Items.{Stamp, parse_time}
use goph_keeper.Client.Api.{SyncItem}
use goph_keeper.Client.Http.{
  SecretResponse, Body, register_body, login_body, secret_body, push_body, Request, Response, Http,
}
use goph_keeper.Handlers.Replies
use goph_keeper.Handlers.Replies.{
  AuthRequest, Incoming, Content, error_text, secret_content, secrets_content, items_content,
  applied_content, token_content, Answer,
}
use goph_keeper.Handlers.Router.{route, handle}

-- The JSON of one side as the other decodes it.
abbrev pub to_secret : SyncItem → Secret
to_secret item = record {
  id = item.id;
  owner_id = [];
  type = item.type;
  payload = item.payload;
  meta = item.meta;
  deleted = item.deleted;
  created_at = item.created_at;
  updated_at = item.updated_at;
}

abbrev pub of_secret : Secret → SyncItem
of_secret s = record {
  id = s.id;
  type = s.type;
  payload = s.payload;
  meta = s.meta;
  deleted = s.deleted;
  created_at = s.created_at;
  updated_at = s.updated_at;
}

abbrev to_response : Secret → SecretResponse
to_response s = record {
  id = s.id;
  type = s.type;
  payload = s.payload;
  meta = s.meta;
  created_at = s.created_at;
  updated_at = s.updated_at;
}

-- The error of a decoder for JSON of another shape: the server refuses fields that it does not
-- know, and the client asks no route for a content of another shape.
abbrev wrong_json : {A : Type 0} → Outcome A
wrong_json = err (failure (codes "json"))

abbrev given_since : Option Stamp → Option (Outcome Time)
given_since none = none
given_since (some text) = some (parse_time text)

-- The header `Authorization` that `do` sets.
abbrev pub authorization_of : Option Text → Text
authorization_of none = []
authorization_of (some token) = codes "Bearer " ++ token

abbrev content_type_of : Option Body → Text
content_type_of none = []
content_type_of (some body) = codes "application/json"

abbrev as_credentials : Option Body → Outcome AuthRequest
as_credentials (some (register_body email password)) =
    ok (record { email = email; password = password })
as_credentials (some (login_body email password)) =
    ok (record { email = email; password = password })
as_credentials _ = wrong_json

abbrev as_secret : Option Body → Outcome Replies.SecretRequest
as_secret (some (secret_body req)) =
    ok (record { type = req.type; payload = req.payload; meta = req.meta })
as_secret _ = wrong_json

abbrev as_items : Option Body → Outcome (List Secret)
as_items (some (push_body items)) = ok (map to_secret items)
as_items _ = wrong_json

-- `decodeJSON` reads at most 1 MB.
abbrev in_limit : {A : Type 0} → Bool → Outcome A → Outcome A
in_limit fits x = if fits then x else err (failure (codes "http: request body too large"))

-- A request as it arrives; the bool tells whether its body fits.
abbrev pub incoming : Bool → Request → Incoming
incoming fits r = record {
  method = r.method;
  authorization = authorization_of r.token;
  content_type = content_type_of r.body;
  since = given_since r.since;
  id = [];
  credentials = in_limit fits (as_credentials r.body);
  secret = in_limit fits (as_secret r.body);
  items = in_limit fits (as_items r.body);
}

abbrev token_in : Content → Outcome Text
token_in (token_content token) = ok token
token_in _ = wrong_json

abbrev secret_in : Content → Outcome SecretResponse
secret_in (secret_content s) = ok (to_response s)
secret_in _ = wrong_json

abbrev secrets_in : Content → Outcome (List SecretResponse)
secrets_in (secrets_content l) = ok (map to_response l)
secrets_in _ = wrong_json

abbrev items_in : Content → Outcome (List SyncItem)
items_in (items_content l) = ok (map of_secret l)
items_in _ = wrong_json

abbrev applied_in : Content → Outcome ℕ
applied_in (applied_content n) = ok n
applied_in _ = wrong_json

-- An answer as it comes back, with the JSON of its content as a text.
abbrev pub response : (Content → Text) → Answer → Response
response json a = record {
  status = a.status;
  read_all = ok (json a.content);
  decode_token = token_in a.content;
  decode_secret = secret_in a.content;
  decode_secrets = secrets_in a.content;
  decode_items = items_in a.content;
  decode_applied = applied_in a.content;
}

-- What the two sides share: JSON, its limit, the URLs that can be built, and the server's secret
-- and libraries.
pub record Link : Type 1 where
  pub json : Content → Text
  pub fits : Option Body → Bool
  pub marshal : Body → Option Error
  pub new_request : Text → Option Error
  pub unicode : Unicode
  pub bcrypt : Bcrypt
  pub jwt : Jwt
  pub secret : Bytes

-- A server that answers at a time.
abbrev pub transport : Link → Time → Http
transport l now = record {
  State = Server;
  marshal = l.marshal;
  new_request = l.new_request;
  send = λ r w.
      let (a, w') =
        handle l.unicode l.bcrypt l.jwt l.secret now (route r.method r.path)
          (incoming (l.fits r.body) r) w in
      (ok (response l.json a), w');
}
