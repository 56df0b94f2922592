-- ===== src/Client/Http/Construct.antt =====
-- client/api/client.go: the construction of the client and its key.
use goph_keeper.Base.{
  Option, none, some, List, [], ◌∷◌, Text, Bytes, nat_eq, ◌==◌, is_empty, if◌then◌else◌, ◌&&◌,
}

-- The fields of `Client`, with any HTTP client and without the store of tokens.
pub record Client (H : Type 0) : Type 0 where
  pub base_url : Text
  pub http : H
  pub crypto : Option Bytes

-- `strings.TrimRight(s, "/")`.
unfoldable pub trim_right_slash : Text → Text
trim_right_slash [] = []
trim_right_slash (c ∷ s) =
    let rest = trim_right_slash s in if c == b'/' && is_empty rest then [] else c ∷ rest

module _ {H : Type 0} where
  -- `WithHTTPClient`, where a nil client changes nothing.
  unfoldable pub with_http_client : Option H → Client H → Client H
  with_http_client none client = client
  with_http_client (some http) client = record client { http = http }

  unfoldable pub apply_options : List (Client H → Client H) → Client H → Client H
  apply_options [] client = client
  apply_options (set ∷ options) client = apply_options options (set client)

  -- `New`, with the HTTP client that it starts from.
  unfoldable pub new : H → Text → Option Bytes → List (Client H → Client H) → Client H
  new default_http base_url crypto options =
      apply_options options
        (record { base_url = trim_right_slash base_url; http = default_http; crypto = crypto })

  -- `SetCrypto` and `Crypto`.
  unfoldable pub set_crypto : Option Bytes → Client H → Client H
  set_crypto key client = record client { crypto = key }
