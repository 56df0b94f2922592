-- ===== src/Client/Crypto.antt =====
-- client/crypto/crypto.go: the encryption of payloads. AES-GCM and scrypt are not part of the
-- repository; they are the parameter `Cipher`.
pub mod Laws
pub mod Salt
use goph_keeper.Base.{
  ℕ, zero, suc, ◌≡◌, Bool, ltb, ◌==◌, nat_eq, Option, none, some, List, [], ◌∷◌, ◌++◌, length, Text,
  Bytes, codes, is_empty, if◌then◌else◌, Outcome, ok, err, Error, sentinel, failure,
  err_empty_master_password, Run, ◌>>=◌, ◌>>◌, return, raise,
}
use goph_keeper.Client.Device.{Device, next_error, random_bytes, plain}

abbrev pub salt_size : ℕ
salt_size = 16

abbrev pub key_size : ℕ
key_size = 32

abbrev pub nonce_size : ℕ
nonce_size = 12

-- `scrypt.Key` with the cost of the source, `aes.NewCipher` (which refuses a key of a wrong size)
-- with `cipher.NewGCM`, `Seal` and `Open`. What was sealed opens under the same key and nonce, and
-- scrypt gives a key of the size asked for, which AES takes.
pub record Cipher : Type 0 where
  pub scrypt_key : Text → Bytes → ℕ → Outcome Bytes
  pub new_gcm : Bytes → Option Error
  pub seal : Bytes → Bytes → Bytes → Bytes
  pub open_sealed : Bytes → Bytes → Bytes → Outcome Bytes
  pub open_sealed-seal :
      (key nonce text : Bytes) → open_sealed key nonce (seal key nonce text) ≡ ok text
  pub new_gcm-scrypt_key :
      (password : Text) (salt key : Bytes)
      → scrypt_key password salt 32 ≡ ok key
      → new_gcm key ≡ none

-- `b[:n]` and `b[n:]` of a slice that is long enough.
unfoldable pub split_at : ℕ → Bytes → Bytes × Bytes
split_at zero b = ([], b)
split_at (suc n) [] = ([], [])
split_at (suc n) (x ∷ b) = let (front, back) = split_at n b in (x ∷ front, back)

-- The file is written if it cannot be read, for whatever reason.
abbrev pub create_salt : Run Device Bytes
create_salt = do
  mkdir ← next_error
  plain mkdir
  salt ← random_bytes salt_size
  write ← next_error
  plain write
  λ d. (ok salt, record d { salt = some salt })

abbrev pub read_salt : Option Error → Option Bytes → Run Device Bytes
read_salt none (some b) =
    if length b == salt_size then return b else raise (failure (codes "invalid salt file"))
read_salt none none = create_salt
read_salt (some e) file = create_salt

unfoldable pub load_or_create_salt : Run Device Bytes
load_or_create_salt = do read ← next_error; λ d. read_salt read d.salt d

module _ (c : Cipher) where
  -- The service is its key.
  unfoldable pub new_crypto : Text → Run Device Bytes
  new_crypto master_password =
      if is_empty master_password
      then raise (sentinel err_empty_master_password)
      else do salt ← load_or_create_salt; λ d. (c.scrypt_key master_password salt key_size, d)

  unfoldable pub encrypt : Bytes → Bytes → Run Device Bytes
  encrypt key text = do
    plain (c.new_gcm key)
    nonce ← random_bytes nonce_size
    return (nonce ++ c.seal key nonce text)

  abbrev opened : Option Error → Bytes → Bytes × Bytes → Outcome Bytes
  opened (some e) key parts = err e
  opened none key (nonce, sealed) = c.open_sealed key nonce sealed

  unfoldable pub decrypt : Bytes → Bytes → Outcome Bytes
  decrypt key ciphertext =
      if ltb (length ciphertext) nonce_size
      then err (failure (codes "invalid ciphertext"))
      else opened (c.new_gcm key) key (split_at nonce_size ciphertext)
