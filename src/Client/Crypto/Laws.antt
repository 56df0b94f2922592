-- ===== src/Client/Crypto/Laws.antt =====
-- The round trip of a payload, and the key that a master password gives.
use goph_keeper.Base.{
  ℕ, zero, suc, ◌≤◌, ◌≡◌, refl, ap, sym, false, ltb, nat_eq, none, [], ◌∷◌, ◌++◌, length,
  length-append, Bytes, arith, ok, Outcome-cases, inl, inr, ok-injective, ok-ne-err, Option-cases,
}
use goph_keeper.Client.Device.{Device, read_full}
use goph_keeper.Client.Crypto.{Cipher, nonce_size, split_at, encrypt, decrypt}

pub length-read_full : (n : ℕ) (source : Bytes) → length (read_full n source) ≡ n
unfolding read_full
length-read_full zero source = refl
length-read_full (suc n) [] = omega (arith, length-read_full n [])
length-read_full (suc n) (b ∷ source) = omega (arith, length-read_full n source)

split_at-append : (front back : Bytes) → split_at (length front) (front ++ back) ≡ (front, back)
unfolding split_at
split_at-append [] back = refl
split_at-append (x ∷ front) back = rw (split_at-append front back) refl

sealed-decrypt :
    (c : Cipher) (key nonce text : Bytes)
    → c.new_gcm key ≡ none
    → length nonce ≡ nonce_size
    → decrypt c key (nonce ++ c.seal key nonce text) ≡ ok text
unfolding decrypt
sealed-decrypt c key nonce text fits size =
    let long : ltb (length (nonce ++ c.seal key nonce text)) 12 ≡ false =
      ground (arith, length-append nonce (c.seal key nonce text)) in
    let parts : split_at 12 (nonce ++ c.seal key nonce text) ≡ (nonce, c.seal key nonce text) =
      (rw size at (split_at-append nonce (c.seal key nonce text))) in
    rw (long, fits, parts, c.open_sealed-seal key nonce text)

-- What `encrypt` returns, if it returns.
abbrev IsSealed : Cipher → Bytes → Bytes → Bytes → Type 0
IsSealed c key text sealed =
    (nonce : Bytes) × (c.new_gcm key ≡ none)
    × (length nonce ≡ nonce_size)
    × (sealed ≡ nonce ++ c.seal key nonce text)

encrypt-eq-ok :
    (c : Cipher) (key text : Bytes) (d : Device) {sealed : Bytes}
    → (encrypt c key text d).0 ≡ ok sealed
    → IsSealed c key text sealed
unfolding encrypt
encrypt-eq-ok c key text d {sealed} h = elim (Option-cases (c.new_gcm key)) [
  | inr (e, bad) ↦ absurd (ok-ne-err sealed e (sym (rw bad at h)))
  | inl fits ↦ elim (Outcome-cases (d.env.random d.env.draws)) [
    | inr (e, bad) ↦ absurd (ok-ne-err sealed e (sym (rw (fits, bad) at h)))
    | inl (source, drew) ↦ (
      read_full nonce_size source,
      fits,
      length-read_full nonce_size source,
      sym (ok-injective _ sealed (rw (fits, drew) at h)),
    )
  ]
]

-- What `Encrypt` returns, `Decrypt` gives back under the same key, and it is at least as long as
-- the nonce.
pub decrypt-encrypt :
    (c : Cipher) (key text : Bytes) (d : Device) (sealed : Bytes)
    → (encrypt c key text d).0 ≡ ok sealed
    → (decrypt c key sealed ≡ ok text) × (nonce_size ≤ length sealed)
decrypt-encrypt c key text d sealed h =
    let (nonce, fits, size, e) = encrypt-eq-ok c key text d h in
    (
      rw e (sealed-decrypt c key nonce text fits size),
      omega (arith, ap (λ b. length b) e, length-append nonce (c.seal key nonce text), size),
    )
