-- ===== src/Client/Crypto/Salt.antt =====
-- The salt file: what it holds after the salt was loaded or created, and the key that it gives.
use goph_keeper.Base.{
  Error, suc, ◌≡◌, refl, ◌∙◌, sym, nat_beq_iff, ◌==◌, nat_eq, Option, none, some, length, Text,
  Bytes, codes, is_empty, Outcome, ok, failure, sentinel, err_empty_master_password, Outcome-cases,
  inl, inr, ok-injective, ok-ne-err, continue-eq-ok, Bool-cases, Option-cases,
}
use goph_keeper.Client.Device.{Device, read_full}
use goph_keeper.Client.Crypto.{
  Cipher, salt_size, key_size, create_salt, read_salt, load_or_create_salt, new_crypto,
}
use goph_keeper.Client.Crypto.Laws.{length-read_full}

-- A call that returns a salt of the right size and leaves it in the file.
abbrev Keeps : Outcome Bytes × Device → Bytes → Type 0
Keeps x salt = (x.1.salt ≡ some salt) × (length salt ≡ salt_size)

create_salt-Keeps :
    (d : Device) (salt : Bytes) → (create_salt d).0 ≡ ok salt → Keeps (create_salt d) salt
create_salt-Keeps d salt h = elim (Option-cases (d.disk.errors d.disk.operations)) [
  | inr (e, bad) ↦ absurd (ok-ne-err salt e (sym (rw bad at h)))
  | inl made ↦ elim (Outcome-cases (d.env.random d.env.draws)) [
    | inr (e, bad) ↦ absurd (ok-ne-err salt e (sym (rw (made, bad) at h)))
    | inl (source, drew) ↦ elim (Option-cases (d.disk.errors (suc d.disk.operations))) [
      | inr (e, bad) ↦ absurd (ok-ne-err salt e (sym (rw (made, drew, bad) at h)))
      | inl wrote ↦
          let e : read_full 16 source ≡ salt = ok-injective _ salt (rw (made, drew, wrote) at h) in
          (rw (made, drew, wrote, e) refl, rw (sym e) (length-read_full 16 source))
    ]
  ]
]

read_salt-Keeps :
    (e : Option Error) (file : Option Bytes) (d : Device) (salt : Bytes)
    → d.salt ≡ file
    → (read_salt e file d).0 ≡ ok salt
    → Keeps (read_salt e file d) salt
read_salt-Keeps none none d salt held h = create_salt-Keeps d salt h
read_salt-Keeps (some e) file d salt held h = create_salt-Keeps d salt h
read_salt-Keeps none (some b) d salt held h = elim (Bool-cases (length b == salt_size)) [
  | inl right ↦
      let same : b ≡ salt = ok-injective b salt (rw right at h) in
      (rw right (rw same at held), rw (sym same) ((nat_beq_iff (length b) 16).0 right))
  | inr wrong ↦ absurd (ok-ne-err salt (failure (codes "invalid salt file")) (sym (rw wrong at h)))
]

load_or_create_salt-Keeps :
    (d : Device) (salt : Bytes)
    → (load_or_create_salt d).0 ≡ ok salt
    → Keeps (load_or_create_salt d) salt
unfolding load_or_create_salt
load_or_create_salt-Keeps d salt h =
    read_salt-Keeps (d.disk.errors d.disk.operations) d.salt _ salt refl h

read_again :
    (d : Device) (salt : Bytes)
    → d.salt ≡ some salt
    → length salt ≡ salt_size
    → d.disk.errors d.disk.operations ≡ none
    → (load_or_create_salt d).0 ≡ ok salt
unfolding load_or_create_salt
read_again d salt held size reads = rw (reads, held, size) refl

-- A master password gives the same key again, on every device state that has the salt file which
-- the first call left and where the file is read without an error, and AES takes this key.
pub new_crypto-again :
    (c : Cipher) (password : Text) (d d' : Device) (key : Bytes)
    → (new_crypto c password d).0 ≡ ok key
    → d'.salt ≡ (new_crypto c password d).1.salt
    → d'.disk.errors d'.disk.operations ≡ none
    → ((new_crypto c password d').0 ≡ ok key) × (c.new_gcm key ≡ none)
unfolding new_crypto
new_crypto-again c password d d' key h held reads = elim (Bool-cases (is_empty password)) [
  | inl empty ↦ absurd (ok-ne-err key (sentinel err_empty_master_password) (sym (rw empty at h)))
  | inr full ↦
      let (salt, loaded, made, same) =
        continue-eq-ok (λ salt d. (c.scrypt_key password salt key_size, d)) (load_or_create_salt d)
          (rw full at h) in
      let (file, size) = load_or_create_salt-Keeps d salt loaded in
      let again : (load_or_create_salt d').0 ≡ ok salt =
        read_again d' salt ((rw (full, same) at held) ∙ file) size reads in
      (rw (full, again) made, c.new_gcm-scrypt_key password salt key made)
]
