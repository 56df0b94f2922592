-- ===== src/Tests/Http.antt =====
-- The theorems on the client of the API, with a transport that answers everything alike.
use goph_keeper.Base.{
  ℕ, suc, ◌≡◌, refl, false, none, some, [], ◌∷◌, codes, ok, err, sentinel, err_token_not_found,
}
use goph_keeper.Database.{fine}
use goph_keeper.Client.Device.{Device, read_full}
use goph_keeper.Client.Crypto.{Cipher, encrypt}
use goph_keeper.Client.TokenStore
use goph_keeper.Client.Api.{SyncItem}
use goph_keeper.Client.Http.{Http, Response, SecretResponse, encrypt_items}
use goph_keeper.Client.Http.Calls.{do_request, login}

abbrev device : Device
device = record {
  rows = [];
  last_sync = none;
  token = none;
  salt = none;
  disk = record { errors = λ _. none; operations = 0 };
  env = record {
    replies = λ _. fine;
    calls = 0;
    clock = λ _. 1;
    ticks = 0;
    random = λ _. ok (1 ∷ 2 ∷ []);
    draws = 0;
  };
}

abbrev secret : SecretResponse
secret = record {
  id = codes "a";
  type = codes "text";
  payload = none;
  meta = none;
  created_at = 1;
  updated_at = 1;
}

abbrev response : Response
response = record {
  status = 200;
  read_all = ok [];
  decode_token = ok (codes "jwt");
  decode_secret = ok secret;
  decode_secrets = ok (secret ∷ []);
  decode_items = ok [];
  decode_applied = ok 0;
}

-- The transport counts its requests.
abbrev transport : Http
transport = record {
  State = ℕ;
  marshal = λ _. none;
  new_request = λ _. none;
  send = λ request n. (ok response, suc n);
}

missing : (TokenStore.load device).0 ≡ err (sentinel err_token_not_found)
unfolding TokenStore.load
missing = refl

logged_in : (login transport (codes "a@b") (codes "pw") (device, 0)).0 ≡ ok tt
unfolding login do_request TokenStore.save
logged_in = refl

abbrev cipher : Cipher
cipher = record {
  scrypt_key = λ password salt size. ok password;
  new_gcm = λ _. none;
  seal = λ key nonce text. text;
  open_sealed = λ key nonce text. ok text;
  open_sealed-seal = λ key nonce text. refl;
  new_gcm-scrypt_key = λ password salt key h. refl;
}

abbrev item : SyncItem
item = record {
  id = codes "a";
  type = codes "text";
  payload = some (5 ∷ []);
  meta = none;
  deleted = false;
  created_at = 1;
  updated_at = 1;
}

abbrev sealed : SyncItem
sealed = record item { payload = some (1 ∷ 2 ∷ 0 ∷ 0 ∷ 0 ∷ 0 ∷ 0 ∷ 0 ∷ 0 ∷ 0 ∷ 0 ∷ 0 ∷ 5 ∷ []) }

sealing : (encrypt_items cipher (7 ∷ []) (item ∷ []) device).0 ≡ ok (sealed ∷ [])
unfolding encrypt_items encrypt read_full
sealing = refl
