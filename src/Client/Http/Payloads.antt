-- ===== src/Client/Http/Payloads.antt =====
-- The payloads of a push come back from a pull as they were.
use goph_keeper.Base.{
  ◌≡◌, refl, sym, ap, subst, Bool, false, ◌||◌, none, some, List, [], ◌∷◌, length, Bytes, ◌≤◌,
  is_empty, arith, ok, inl, inr, Bool-cases, ok-injective, continue-eq-ok,
}
use goph_keeper.Models.{Payload}
use goph_keeper.Client.Device.{Device}
use goph_keeper.Client.Crypto.{Cipher, encrypt}
use goph_keeper.Client.Crypto.Laws.{decrypt-encrypt}
use goph_keeper.Client.Api.{SyncItem}
use goph_keeper.Client.Http.{
  is_nil_or_empty, bytes, with_payload, encrypt_item, decrypt_items, encrypt_items,
}

neither : (a b : Bool) → a || b ≡ false → (a ≡ false) × (b ≡ false)
neither a b h = (ground arith, ground arith)

full_payload : (p : Payload) → is_nil_or_empty p ≡ false → some (bytes p) ≡ p
full_payload none h = ground arith
full_payload (some b) h = refl

not_empty : (b : Bytes) → 12 ≤ length b → is_empty b ≡ false
not_empty [] h = absurd (omega (arith, h))
not_empty (x ∷ b) h = refl

-- An item that was encrypted is decrypted to itself in front of any others.
encrypt_item-decrypted :
    (c : Cipher) (key : Bytes) (item sealed : SyncItem) (rest out : List SyncItem) (d : Device)
    → (encrypt_item c key item d).0 ≡ ok sealed
    → decrypt_items c key rest ≡ ok out
    → decrypt_items c key (sealed ∷ rest) ≡ ok (item ∷ out)
unfolding decrypt_items
encrypt_item-decrypted c key item sealed rest out d done later =
    elim (Bool-cases (item.deleted || is_nil_or_empty item.payload)) [
      | inl plain ↦
          let same : item ≡ sealed = ok-injective item sealed (rw plain at done) in
          rw (sym same, plain, later) refl
      | inr open_item ↦
          let (text, sealing, next, _) =
            continue-eq-ok _ (encrypt c key (bytes item.payload) d) (rw open_item at done) in
          let same : with_payload c item text ≡ sealed = ok-injective _ sealed next in
          let (live, full) = neither item.deleted (is_nil_or_empty item.payload) open_item in
          let (opens, long) = decrypt-encrypt c key (bytes item.payload) d text sealing in
          let closed : item.deleted || is_empty text ≡ false =
            rw (live, not_empty text long) refl in
          rw (sym same, closed, opens, later)
            (ap (λ p. ok (record item { payload = p } ∷ out)) (full_payload item.payload full))
    ]

-- What the push encrypts, the pull decrypts to the same items under the same key: payloads that
-- are not empty of items that are not deleted, and all others as they are.
pub decrypt_items-encrypt_items :
    (c : Cipher) (key : Bytes) (items sealed : List SyncItem) (d : Device)
    → (encrypt_items c key items d).0 ≡ ok sealed
    → decrypt_items c key sealed ≡ ok items
unfolding encrypt_items decrypt_items
decrypt_items-encrypt_items c key [] sealed d done =
    subst (λ x. decrypt_items c key x ≡ ok []) (ok-injective [] sealed done) refl
decrypt_items-encrypt_items c key (item ∷ items) sealed d done =
    let (first, sealing, next, _) = continue-eq-ok _ (encrypt_item c key item d) done in
    let (rest, resting, last, _) =
      continue-eq-ok _ (encrypt_items c key items (encrypt_item c key item d).1) next in
    let same : first ∷ rest ≡ sealed = ok-injective _ sealed last in
    subst (λ x. decrypt_items c key x ≡ ok (item ∷ items)) same
      (encrypt_item-decrypted c key item first rest items d sealing
        (decrypt_items-encrypt_items c key items rest _ resting))
