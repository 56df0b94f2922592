-- ===== src/Client/Commands/Frames.antt =====
-- What the steps of a command leave as it was on the device.
use goph_keeper.Base.{
  suc, ◌≡◌, refl, ◌∙◌, inl, inr, ◌||◌, true, false, Option, none, some, Text, Bytes, is_empty,
  trim_space, length, ◌==◌, nat_eq, Error, Outcome, ok, err, Outcome-cases, Option-cases,
  Bool-cases, continue, return, hex_encode,
}
use goph_keeper.Database.{ticked, drawn}
use goph_keeper.Client.Items.{Item}
use goph_keeper.Client.LocalRows.{local_row}
use goph_keeper.Client.LocalRows.Views.{IsLocal, put_local-IsLocal, local_row-IsRow}
use goph_keeper.Client.Device.{Device, next_error, read_full}
use goph_keeper.Client.Crypto.{
  Cipher, new_crypto, encrypt, load_or_create_salt, create_salt, read_salt, salt_size,
}
use goph_keeper.Client.LocalStore.{upsert}
use goph_keeper.Client.ParseMeta.{parse_meta}
use goph_keeper.Client.Service.{new_id, add, put_encrypted}
use goph_keeper.Client.Commands.Store.{Opening, new_local_store}

-- The salt, and the replies of the database and of the files, are the same.
abbrev pub Kept : Device → Device → Type 0
Kept d d' = (d'.salt ≡ d.salt) × (d'.env.replies ≡ d.env.replies) × (d'.disk.errors ≡ d.disk.errors)

-- So are the rows.
abbrev pub KeptRows : Device → Device → Type 0
KeptRows d d' =
    (d'.rows ≡ d.rows)
    × (d'.salt ≡ d.salt)
    × (d'.env.replies ≡ d.env.replies)
    × (d'.disk.errors ≡ d.disk.errors)

Kept-trans : (d d' d'' : Device) → Kept d d' → Kept d' d'' → Kept d d''
Kept-trans d d' d'' (salt, replies, errors) (salt', replies', errors') =
    (salt' ∙ salt, replies' ∙ replies, errors' ∙ errors)

-- Nothing but the salt, the random source and the count of file operations changes.
abbrev pub Still : Device → Device → Type 0
Still d d' =
    (d'.rows ≡ d.rows) × (d'.env.replies ≡ d.env.replies) × (d'.disk.errors ≡ d.disk.errors)

create_salt_frame : (d : Device) → Still d (create_salt d).1
create_salt_frame d = elim (Option-cases (d.disk.errors d.disk.operations)) [
  | inr (e, bad) ↦ rw bad (refl, refl, refl)
  | inl made ↦ elim (Outcome-cases (d.env.random d.env.draws)) [
    | inr (e, bad) ↦ rw (made, bad) (refl, refl, refl)
    | inl (b, drew) ↦ elim (Option-cases (d.disk.errors (suc d.disk.operations))) [
      | inr (e, bad) ↦ rw (made, drew, bad) (refl, refl, refl)
      | inl wrote ↦ rw (made, drew, wrote) (refl, refl, refl)
    ]
  ]
]

read_salt_frame :
    (e : Option Error) (file : Option Bytes) (d : Device) → Still d (read_salt e file d).1
read_salt_frame none none d = create_salt_frame d
read_salt_frame (some e) file d = create_salt_frame d
read_salt_frame none (some b) d = elim (Bool-cases (length b == salt_size)) [
  | inl fits ↦ rw fits (refl, refl, refl)
  | inr other ↦ rw other (refl, refl, refl)
]

salt_frame : (d : Device) → Still d (load_or_create_salt d).1
unfolding load_or_create_salt
salt_frame d = read_salt_frame (d.disk.errors d.disk.operations) d.salt (next_error d).1

pub new_crypto_frame :
    (c : Cipher) (password : Text) (d : Device) → Still d (new_crypto c password d).1
unfolding new_crypto
new_crypto_frame c password d = elim (Bool-cases (is_empty password)) [
  | inl empty ↦ rw empty (refl, refl, refl)
  | inr full ↦ elim (Outcome-cases (load_or_create_salt d).0) [
    | inl (salt, loaded) ↦ rw (full, loaded) (salt_frame d)
    | inr (e, bad) ↦ rw (full, bad) (salt_frame d)
  ]
]

pub new_local_store_frame : (o : Opening) (d : Device) → KeptRows d (new_local_store o d).1
unfolding new_local_store
new_local_store_frame o d = elim (Option-cases (d.disk.errors d.disk.operations)) [
  | inr (e, bad) ↦ rw bad (refl, refl, refl, refl)
  | inl made ↦ elim (Option-cases o.open_error) [
    | inr (e, bad) ↦ rw (made, bad) (refl, refl, refl, refl)
    | inl opened ↦ elim (Option-cases (d.env.replies d.env.calls).exec) [
      | inl ran ↦ rw (made, opened, ran) (refl, refl, refl, refl)
      | inr (e, bad) ↦ elim (Option-cases o.close_error) [
        | inl closed ↦ rw (made, opened, bad, closed) (refl, refl, refl, refl)
        | inr (x, worse) ↦ rw (made, opened, bad, worse) (refl, refl, refl, refl)
      ]
    ]
  ]
]

-- After a write of the service: the salt and the replies are the same, and the rows are sound.
abbrev pub Sound : Device → Device → Type 0
Sound d d' = Kept d d' × IsLocal d'.rows

upsert_frame : (item : Item) (d : Device) → IsLocal d.rows → Sound d (upsert item true d).1
unfolding upsert
upsert_frame item d local = elim (Option-cases (d.env.replies d.env.calls).build) [
  | inr (e, bad) ↦ rw bad ((refl, refl, refl), local)
  | inl built ↦ elim (Option-cases (d.env.replies d.env.calls).exec) [
    | inr (e, bad) ↦ rw (built, bad) ((refl, refl, refl), local)
    | inl ran ↦
        rw (built, ran)
          (
            (refl, refl, refl),
            put_local-IsLocal (local_row item true) d.rows (local_row-IsRow item true) local,
          )
  ]
]

encrypt_frame : (c : Cipher) (key text : Bytes) (d : Device) → KeptRows d (encrypt c key text d).1
unfolding encrypt
encrypt_frame c key text d = elim (Option-cases (c.new_gcm key)) [
  | inr (e, bad) ↦ rw bad (refl, refl, refl, refl)
  | inl fits ↦ elim (Outcome-cases (d.env.random d.env.draws)) [
    | inr (e, bad) ↦ rw (fits, bad) (refl, refl, refl, refl)
    | inl (source, drew) ↦ rw (fits, drew) (refl, refl, refl, refl)
  ]
]

returned_state :
    (id : Text) (x : Outcome (Unit {0}) × Device)
    → (continue (λ _. return {S = Device} id) x).1 ≡ x.1
returned_state id (ok tt, d) = refl
returned_state id (err e, d) = refl

put_encrypted_frame :
    (c : Cipher) (key payload : Bytes) (item : Item) (d : Device)
    → IsLocal d.rows
    → Sound d (put_encrypted c (some key) key payload item d).1
put_encrypted_frame c key payload item d local =
    let (rows, salt, replies, errors) = encrypt_frame c key payload d in
    let kept : Kept d (encrypt c key payload d).1 = (salt, replies, errors) in
    elim (Outcome-cases (encrypt c key payload d).0) [
      | inr (e, bad) ↦ rw bad (kept, rw rows local)
      | inl (sealed, sealing) ↦
          let written = record item { payload = some sealed } in
          let (kept', local') = upsert_frame written (encrypt c key payload d).1 (rw rows local) in
          let last = returned_state item.id (upsert written true (encrypt c key payload d).1) in
          let d' = (encrypt c key payload d).1 in
          rw (sealing, last) (Kept-trans d d' (upsert written true d').1 kept kept', local')
    ]

pub add_frame :
    (c : Cipher) (key : Bytes) (type payload meta : Text) (d : Device)
    → IsLocal d.rows
    → Sound d (add c (some key) type payload meta d).1
unfolding add new_id
add_frame c key type payload meta d local =
    elim (Bool-cases (is_empty (trim_space type) || is_empty payload)) [
      | inl bad ↦ rw bad ((refl, refl, refl), local)
      | inr good ↦ elim (Outcome-cases (d.env.random d.env.draws)) [
        | inr (e, bad) ↦ rw (good, bad) ((refl, refl, refl), local)
        | inl (source, drew) ↦
            rw (good, drew)
              (put_encrypted_frame c key payload
                (record {
                  id = hex_encode (read_full 16 source);
                  type = trim_space type;
                  payload = some payload;
                  meta = some (parse_meta meta);
                  deleted = false;
                  created_at = d.env.clock d.env.ticks;
                  updated_at = d.env.clock d.env.ticks;
                })
                (record d { env = ticked (drawn d.env) }) local)
      ]
    ]
