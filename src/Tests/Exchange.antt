-- ===== src/Tests/Exchange.antt =====
-- The delivery of a secret, between two devices and a server that holds the rows of others.
use mathlib.Core.Option.{none-ne-some}
use goph_keeper.Base.{
  ◌≡◌, ◌≢◌, refl, sym, All, true, false, none, some, [], ◌∷◌, codes, text_beq, trim_space, to_lower,
  ok,
}
use goph_keeper.Auth.Tokens.{parse_token}
use goph_keeper.Client.ParseMeta.{cut}
use goph_keeper.Client.Device.{Device, read_full}
use goph_keeper.Client.Crypto.{encrypt}
use goph_keeper.Client.TokenStore
use goph_keeper.Client.Api.{SyncItem}
use goph_keeper.Client.Http.{encrypt_item}
use goph_keeper.Client.Http.Calls.{sync_push, sync_pull}
use goph_keeper.Service.Sync.Push.{IsPushable}
use goph_keeper.Handlers.Replies.{bearer}
use goph_keeper.Exchange.{Link, transport, to_secret}
use goph_keeper.Exchange.Requests.{Accepts, Foreign}
use goph_keeper.Exchange.Delivery.{sync_pull-sync_push}
use goph_keeper.Tests.Auth.{library, secret, signed, unicode, bcrypt}
use goph_keeper.Tests.Server.{server, up, table}
use goph_keeper.Tests.Client.{device, cipher}

abbrev link : Link
link = record {
  json = λ content. [];
  fits = λ body. true;
  marshal = λ body. none;
  new_request = λ path. none;
  unicode = unicode;
  bcrypt = bcrypt;
  jwt = library;
  secret = secret;
}

abbrev logged_in : Device
logged_in = record device { token = some (codes "token") }

abbrev item : SyncItem
item = record {
  id = codes "c";
  type = codes "text";
  payload = some (5 ∷ []);
  meta = some ((codes "k", codes "v") ∷ []);
  deleted = false;
  created_at = 8000;
  updated_at = 9000;
}

abbrev sealed : SyncItem
sealed = record item { payload = some (1 ∷ 2 ∷ 0 ∷ 0 ∷ 0 ∷ 0 ∷ 0 ∷ 0 ∷ 0 ∷ 0 ∷ 0 ∷ 0 ∷ 0 ∷ 5 ∷ []) }

sealing : (encrypt_item cipher (7 ∷ []) item logged_in).0 ≡ ok sealed
unfolding encrypt read_full
sealing = refl

accepted : Accepts link 0 (codes "token") signed.user_id
unfolding bearer cut to_lower trim_space text_beq parse_token
accepted = (codes "token", signed, refl, refl, refl)

others : All (Foreign signed.user_id item.id) server.secrets
unfolding text_beq
others = ((refl, refl), ((refl, refl), tt))

pushable : IsPushable (to_secret item)
unfolding trim_space
pushable = (refl, refl)

full : item.payload ≢ none
full h = none-ne-some (5 ∷ []) (sym h)

signed_in : (TokenStore.load (encrypt_item cipher (7 ∷ []) item logged_in).1).0 ≡ ok (codes "token")
unfolding TokenStore.load encrypt read_full
signed_in = refl

signed_in_too : (TokenStore.load logged_in).0 ≡ ok (codes "token")
unfolding TokenStore.load
signed_in_too = refl

sync_pull-sync_push_example :
    let pushing =
      sync_push (transport link 0) cipher (some (7 ∷ [])) true (item ∷ []) (logged_in, server) in
    (pushing.0 ≡ ok 1)
    × ((sync_pull (transport link 0) cipher (some (7 ∷ [])) true 0 (logged_in, pushing.1.1)).0
        ≡ ok (item ∷ []))
sync_pull-sync_push_example =
    sync_pull-sync_push link cipher (7 ∷ []) signed.user_id item sealed (codes "token")
      (codes "token") 0 0 logged_in logged_in server up table others refl accepted accepted pushable
      (refl, refl) (refl, refl) full sealing refl refl signed_in signed_in_too
