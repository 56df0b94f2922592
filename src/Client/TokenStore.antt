-- ===== src/Client/TokenStore.antt =====
-- client/store/token_store.go: the file `token`.
use goph_keeper.Base.{
  Option, none, some, Text, Outcome, ok, err, Error, sentinel, err_token_not_found, Run, ◌>>=◌,
  ◌>>◌,
}
use goph_keeper.Client.Device.{Device, next_error, plain}

unfoldable pub save : Text → Run Device (Unit {0})
save token = do
  mkdir ← next_error
  plain mkdir
  write ← next_error
  plain write
  λ d. (ok tt, record d { token = some token })

abbrev read : Option Error → Option Text → Outcome Text
read none none = err (sentinel err_token_not_found)
read none (some token) = ok token
read (some e) file = err e

unfoldable pub load : Run Device Text
load = do e ← next_error; λ d. (read e d.token, d)
