-- ===== src/Client/Service/Secrets.antt =====
-- What `Get` returns after `Add` and `Update` of the client service.
use goph_keeper.Base.{
  suc, ◌≤◌, ◌≡◌, refl, ◌∙◌, ap, sym, Bool, true, false, ◌||◌, text_beq_refl, text_eq, Option, none,
  some, [], ◌∷◌, length, Text, Bytes, codes, is_empty, is_blank, trim_space, arith, ok, failure,
  Outcome-cases, inl, inr, ok-injective, ok-ne-err, continue-eq-ok, Bool-cases, Option-cases,
}
use goph_keeper.Models.{Time}
use goph_keeper.Database.{IsUp}
use goph_keeper.Client.Items.{Item, to_second}
use goph_keeper.Client.LocalRows.{LocalRow}
use goph_keeper.Client.LocalRows.Views.{IsLocal, find_local}
use goph_keeper.Client.Device.{Device, now}
use goph_keeper.Client.Crypto.{Cipher, encrypt, decrypt}
use goph_keeper.Client.Crypto.Laws.{decrypt-encrypt}
use goph_keeper.Client.LocalStore
use goph_keeper.Client.LocalStore.Reads.{kept, instant, get_lem, upsert_lem, get-upsert, answer}
use goph_keeper.Client.ParseMeta.{parse_meta}
use goph_keeper.Client.Service.{new_id, put_encrypted, decrypted, add, get, update, created_or}

-- A device whose local store works.
abbrev IsSound : Device → Type 0
IsSound d = IsUp d.env × IsLocal d.rows

encrypt-IsSound :
    (c : Cipher) (key text : Bytes) (d : Device) → IsSound d → IsSound (encrypt c key text d).1
unfolding encrypt
encrypt-IsSound c key text d h = elim (Option-cases (c.new_gcm key)) [
  | inr (e, bad) ↦ rw bad h
  | inl fits ↦ elim (Outcome-cases (d.env.random d.env.draws)) [
    | inr (e, bad) ↦ rw (fits, bad) h
    | inl (source, drew) ↦ rw (fits, drew) h
  ]
]

abbrev with_sealed : Item → Bytes → Item
with_sealed item sealed = record item { payload = some sealed }

decrypted_lem :
    (c : Cipher) (key sealed text : Bytes) (item : Item)
    → decrypt c key sealed ≡ ok text
    → 12 ≤ length sealed
    → decrypted c (some key) key (with_sealed item sealed)
      ≡ ok (record item { payload = some text })
decrypted_lem c key [] text item opens long = absurd (omega (arith, long))
decrypted_lem c key (b ∷ sealed) text item opens long = rw opens refl

-- The item that `Get` returns after a write of the service.
abbrev read_back : Text → Item → Bytes → Item
read_back id item payload = record (kept item) { id = id; payload = some payload }

put_encrypted_lem :
    (c : Cipher) (key payload : Bytes) (item : Item) (d : Device) (id : Text)
    → IsSound d
    → is_blank id ≡ false
    → (put_encrypted c (some key) key payload item d).0 ≡ ok id
    → (get c (some key) id (put_encrypted c (some key) key payload item d).1).0
      ≡ ok (read_back id item payload)
unfolding get
put_encrypted_lem c key payload item d id h named done =
    let (sealed, sealing, next, _) = continue-eq-ok _ (encrypt c key payload d) done in
    let (up, local) = encrypt-IsSound c key payload d h in
    let written = with_sealed item sealed in
    let (stored, got, _) = get-upsert written true id (encrypt c key payload d).1 up local in
    let (opens, long) = decrypt-encrypt c key payload d sealed sealing in
    let same : item.id ≡ id = ok-injective item.id id (rw stored at next) in
    rw (sealing, stored, named, got, same, text_beq_refl id)
      (decrypted_lem c key sealed payload (record (kept item) { id = id }) opens long)

neither : (a b : Bool) → a || b ≡ false → (a ≡ false) × (b ≡ false)
neither a b h = (ground arith, ground arith)

new_id_lem :
    (d : Device)
    → IsSound d
    → IsSound (new_id d).1
      × ((new_id d).1.env.clock (new_id d).1.env.ticks ≡ d.env.clock d.env.ticks)
unfolding new_id
new_id_lem d h = elim (Outcome-cases (d.env.random d.env.draws)) [
  | inl (source, drew) ↦ (rw drew h, rw drew refl)
  | inr (e, bad) ↦ (rw bad h, rw bad refl)
]

abbrev changed_at : Text → Text → Bytes → Text → Time → Time → Item
changed_at id type payload meta created at = record {
  id = id;
  type = type;
  payload = some payload;
  meta = some (parse_meta meta);
  deleted = false;
  created_at = created;
  updated_at = at;
}

-- The item of `Add` and `Update` after a write and a read.
abbrev pub changed_item : Text → Text → Bytes → Text → Time → Time → Item
changed_item id secret_type payload meta created updated = record {
  id = id;
  type = trim_space secret_type;
  payload = some payload;
  meta = some (parse_meta meta);
  deleted = false;
  created_at = to_second created;
  updated_at = to_second updated;
}

-- After an `Add` that returned an identifier, `Get` of it returns the payload in plain, with the
-- trimmed type, the parsed metadata and the time of the call in whole seconds. The rows are sound,
-- the database answers and the identifier is not blank.
pub get-add :
    (c : Cipher) (key : Bytes) (secret_type payload meta id : Text) (d : Device)
    → IsUp d.env
    → IsLocal d.rows
    → (add c (some key) secret_type payload meta d).0 ≡ ok id
    → is_blank id ≡ false
    → (get c (some key) id (add c (some key) secret_type payload meta d).1).0
      ≡ ok (
          changed_item id secret_type payload meta
            (d.env.clock d.env.ticks)
            (d.env.clock d.env.ticks))
unfolding add
get-add c key secret_type payload meta id d up local done named =
    elim (Bool-cases (is_empty (trim_space secret_type) || is_empty payload)) [
      | inl bad ↦
          absurd
            (ok-ne-err id (failure (codes "type and payload are required")) (sym (rw bad at done)))
      | inr good ↦
          let (made, naming, next, same) = continue-eq-ok _ (new_id d) (rw good at done) in
          let (sound, time) = new_id_lem d (up, local) in
          let tick = (new_id d).1.env.clock (new_id d).1.env.ticks in
          let item = changed_at made (trim_space secret_type) payload meta tick tick in
          let at = d.env.clock d.env.ticks in
          let shown : read_back id item payload ≡ changed_item id secret_type payload meta at at =
            rw time refl in
          rw (good, naming)
            (put_encrypted_lem c key payload item (now (new_id d).1).1 id sound named next
              ∙ ap (λ x. ok x) shown)
    ]

pub get_clock :
    (id : Text) (d : Device)
    → ((LocalStore.get id d).1.env.clock ≡ d.env.clock)
      × ((LocalStore.get id d).1.env.ticks ≡ d.env.ticks)
unfolding LocalStore.get
get_clock id d = elim (Option-cases (d.env.replies d.env.calls).build) [
  | inl built ↦ rw built (refl, refl)
  | inr (e, bad) ↦ rw bad (refl, refl)
]

get-IsSound : (id : Text) (d : Device) → IsSound d → IsSound (LocalStore.get id d).1
get-IsSound id d (up, local) = let (_, rows, up') = get_lem id d up local in (up', rw rows local)

put_encrypted_id :
    (c : Cipher) (key payload : Bytes) (item : Item) (d : Device) (id : Text)
    → IsSound d
    → (put_encrypted c (some key) key payload item d).0 ≡ ok id
    → item.id ≡ id
put_encrypted_id c key payload item d id h done =
    let (sealed, sealing, next, _) = continue-eq-ok _ (encrypt c key payload d) done in
    let (up, _) = encrypt-IsSound c key payload d h in
    let (stored, _, _) = upsert_lem (with_sealed item sealed) true (encrypt c key payload d).1 up in
    ok-injective item.id id (rw stored at next)

-- The time of creation that the row holds, or the given one.
abbrev pub first_created : Time → Option LocalRow → Time
first_created at none = at
first_created at (some r) = instant r.created_at

created_or-answer :
    (c : Cipher) (key : Bytes) (at : Time) (row : Option LocalRow)
    → created_or c (some key) at (answer row) ≡ first_created at row
created_or-answer c key at none = refl
created_or-answer c key at (some r) = refl

-- After an `Update` that succeeded, `Get` of the identifier returns the new payload in plain, with
-- the trimmed type, the parsed metadata, the time of the call, and the time of creation of the item
-- that was there, or else the time of the call, in whole seconds. The rows are sound and the
-- database answers.
pub get-update :
    (c : Cipher) (key : Bytes) (id secret_type payload meta done_id : Text) (d : Device)
    → IsUp d.env
    → IsLocal d.rows
    → (update c (some key) id secret_type payload meta d).0 ≡ ok done_id
    → (get c (some key) done_id (update c (some key) id secret_type payload meta d).1).0
      ≡ ok (
          changed_item done_id secret_type payload meta
            (first_created (d.env.clock d.env.ticks) (find_local id d.rows))
            (d.env.clock (suc d.env.ticks)))
unfolding update
get-update c key id secret_type payload meta done_id d up local done =
    elim (Bool-cases (is_blank id || is_blank secret_type || is_empty payload)) [
      | inl bad ↦ absurd (
          ok-ne-err done_id (failure (codes "id, type and payload are required"))
            (sym (rw bad at done)))
      | inr good ↦
          let named : is_blank id ≡ false =
            (neither _ (is_blank secret_type) (neither _ (is_empty payload) good).0).0 in
          let d' = (LocalStore.get id (now d).1).1 in
          let sound : IsSound d' = get-IsSound id (now d).1 (up, local) in
          let (clock, ticks) = get_clock id (now d).1 in
          let (got, _, _) = get_lem id (now d).1 up local in
          let created =
            created_or c (some key) (d.env.clock d.env.ticks) (LocalStore.get id (now d).1).0 in
          let item =
            changed_at id (trim_space secret_type) payload meta created
              (d'.env.clock d'.env.ticks) in
          let next : (put_encrypted c (some key) key payload item (now d').1).0 ≡ ok done_id =
            rw good at done in
          let same = put_encrypted_id c key payload item (now d').1 done_id sound next in
          let blank : is_blank done_id ≡ false = rw same at named in
          let at = d.env.clock (suc d.env.ticks) in
          let before = first_created (d.env.clock d.env.ticks) (find_local id d.rows) in
          let shown : read_back done_id item payload
              ≡ changed_item done_id secret_type payload meta before at =
            rw
              (
                clock,
                ticks,
                got,
                created_or-answer c key (d.env.clock d.env.ticks) (find_local id d.rows),
              )
              refl in
          rw good (
            put_encrypted_lem c key payload item (now d').1 done_id sound blank next
            ∙ ap (λ x. ok x) shown)
    ]
