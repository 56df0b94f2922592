-- ===== src/Tests/Sessions.antt =====
-- The theorem on a session, at a user who registers and logs in.
use goph_keeper.Base.{
  ◌≡◌, refl, none, some, [], codes, ok, err, failure, trim_space, to_lower, hex_encode, text_beq,
  text_eq,
}
use goph_keeper.Auth.{normal_email, register, login}
use goph_keeper.Auth.Tokens.{issue_token}
use goph_keeper.Models.{User}
use goph_keeper.Client.ParseMeta.{split}
use goph_keeper.Repository.Memory.{create, get, lookup, memory_store}
use goph_keeper.Repository.Memory.Laws.{memory_users}
use goph_keeper.Handlers.Replies.{AuthRequest, Incoming, success, token_content}
use goph_keeper.Handlers.Accounts.{register_handler, login_handler}
use goph_keeper.Handlers.Accounts.Sessions.{Shown, me-login-register}
use goph_keeper.Tests.Auth.{library, secret, unicode, bcrypt, process}

abbrev posting : AuthRequest → Incoming
posting credentials = record {
  method = codes "POST";
  authorization = [];
  content_type = codes "application/json; charset=utf-8";
  since = none;
  id = [];
  credentials = ok credentials;
  secret = err (failure []);
  items = err (failure []);
}

abbrev ann : AuthRequest
ann = record { email = codes " A@b"; password = codes "pw" }

abbrev ann_again : AuthRequest
ann_again = record { email = codes "a@B "; password = codes " pw" }

created :
    (register_handler unicode bcrypt library memory_store (posting ann) process).0.status ≡ 201
unfolding register_handler register trim_space to_lower create lookup hex_encode split text_beq
created = refl

same_email :
    normal_email unicode (trim_space ann_again.email) ≡ normal_email unicode (trim_space ann.email)
unfolding trim_space to_lower
same_email = refl

same_password : trim_space ann_again.password ≡ trim_space ann.password
unfolding trim_space
same_password = refl

answered :
    (login_handler unicode bcrypt library memory_store secret
      (posting ann_again)
      (register_handler unicode bcrypt library memory_store (posting ann) process).1).0
    ≡ success 200 (token_content (codes "token"))
unfolding login_handler login register_handler register trim_space to_lower create get lookup
    hex_encode split issue_token text_beq
answered = refl

me-login-register_example :
    (user : User) × (user.email ≡ normal_email unicode (trim_space ann.email))
    × (lookup user.email process.items ≡ none)
    × (lookup user.email
          (register_handler unicode bcrypt library memory_store (posting ann) process).1.items
        ≡ some user)
    × Shown unicode bcrypt library memory_store memory_users secret
        (codes "token")
        user
        (memory_store.get_by_email
          (normal_email unicode (trim_space ann_again.email))
          (register_handler unicode bcrypt library memory_store (posting ann) process).1).1
unfolding memory_users
me-login-register_example =
    me-login-register unicode bcrypt library memory_store memory_users secret (posting ann)
      (posting ann_again) ann ann_again (codes "token") process tt refl refl same_email
      same_password created answered
