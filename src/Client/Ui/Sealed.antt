-- ===== src/Client/Ui/Sealed.antt =====
-- client/ui/ui.go: what "Add" stores, and what "Get" shows of it.
use goph_keeper.Base.{
  ◌≡◌, refl, sym, ap, ◌∙◌, inl, inr, ◌⊎◌, true, false, some, [], ◌∷◌, ◌++◌, Text, Bytes, codes,
  Outcome, ok, err, is_empty, is_blank, trim_space, Outcome-cases, Option-cases, continue, return,
  hex_encode,
}
use mathlib.Core.Bool.{false≢true}
use goph_keeper.Database.{IsUp, ticked, drawn}
use goph_keeper.Client.Items.{Item}
use goph_keeper.Client.LocalRows.{LocalRows, local_row, put_local}
use goph_keeper.Client.LocalRows.Views.{IsLocal}
use goph_keeper.Client.Device.{Device, read_full}
use goph_keeper.Client.Crypto.{Cipher, encrypt, decrypt}
use goph_keeper.Client.Crypto.Laws.{decrypt-encrypt}
use goph_keeper.Client.LocalStore
use goph_keeper.Client.LocalStore.{upsert}
use goph_keeper.Client.Api.{Api}
use goph_keeper.Client.Sync.{State}
use goph_keeper.Client.Service.{new_id, add, get, decrypted}
use goph_keeper.Client.Service.Secrets.{get-add, changed_item}
use goph_keeper.Client.Ui.{
  Ui, secret_screen, add_secret, get_secret, add_item, finished, report, get_item, put_sealed,
  new_item, opened, new_local_id, payload_of,
}
use goph_keeper.Client.Ui.Reachable.{Reach, IsKey, Reach-IsUnlocked, add_secret-SameLock}

upsert-rows :
    (item : Item) (d : Device)
    → ((upsert item true d).1.rows ≡ d.rows)
      ⊎ ((upsert item true d).1.rows ≡ put_local (local_row item true) d.rows)
unfolding upsert
upsert-rows item d = elim (Option-cases (d.env.replies d.env.calls).build) [
  | inr (e, bad) ↦ inl (rw bad refl)
  | inl built ↦ elim (Option-cases (d.env.replies d.env.calls).exec) [
    | inr (e, bad) ↦ inl (rw (built, bad) refl)
    | inl ran ↦ inr (rw (built, ran) refl)
  ]
]

encrypt-rows : (c : Cipher) (key text : Bytes) (d : Device) → (encrypt c key text d).1.rows ≡ d.rows
unfolding encrypt
encrypt-rows c key text d = elim (Option-cases (c.new_gcm key)) [
  | inr (e, bad) ↦ rw bad refl
  | inl fits ↦ elim (Outcome-cases (d.env.random d.env.draws)) [
    | inr (e, bad) ↦ rw (fits, bad) refl
    | inl (source, drew) ↦ rw (fits, drew) refl
  ]
]

return-rows :
    (id : Text) (x : Outcome (Unit {0}) × Device)
    → (continue (λ _. return {S = Device} id) x).1.rows ≡ x.1.rows
return-rows id (ok tt, d) = refl
return-rows id (err e, d) = refl

module _ (c : Cipher) (key payload : Bytes) where
  -- The rows after a write of an item with its payload encrypted.
  abbrev pub PutSealed : LocalRows → LocalRows → Type 0
  PutSealed rows rows' =
      (item : Item) × (sealed : Bytes) × (item.payload ≡ some sealed)
      × (decrypt c key sealed ≡ ok payload)
      × (rows' ≡ put_local (local_row item true) rows)

  put_sealed-PutSealed :
      (item : Item) (d : Device)
      → ((put_sealed c (some key) payload item d).1.rows ≡ d.rows)
        ⊎ PutSealed d.rows (put_sealed c (some key) payload item d).1.rows
  put_sealed-PutSealed item d = elim (Outcome-cases (encrypt c key payload d).0) [
    | inr (e, bad) ↦ inl (rw bad (encrypt-rows c key payload d))
    | inl (sealed, sealing) ↦
        let written = record item { payload = some sealed } in
        let d' = (encrypt c key payload d).1 in
        let (opens, _) = decrypt-encrypt c key payload d sealed sealing in
        let last = return-rows item.id (upsert written true d') in
        elim (upsert-rows written d') [
          | inl same ↦ inl (rw sealing (last ∙ same ∙ encrypt-rows c key payload d))
          | inr put ↦ inr (
            written,
            sealed,
            refl,
            opens,
            rw sealing (
                last
                ∙ put
                ∙ ap (λ rows. put_local (local_row written true) rows)
                    (encrypt-rows c key payload d)),
          )
        ]
  ]

  add_item-PutSealed :
      (type meta : Text) (d : Device)
      → ((add_item c (some key) type payload meta d).1.rows ≡ d.rows)
        ⊎ PutSealed d.rows (add_item c (some key) type payload meta d).1.rows
  unfolding add_item new_local_id
  add_item-PutSealed type meta d = elim (Outcome-cases (d.env.random d.env.draws)) [
    | inr (e, bad) ↦ inl (rw bad refl)
    | inl (source, drew) ↦ rw drew (
        put_sealed-PutSealed
          (new_item (hex_encode (read_full 16 source)) type payload meta (d.env.clock d.env.ticks))
          (record d { env = ticked (drawn d.env) }))
  ]

  opened_lem : (item : Item) → opened c (some key) item ≡ decrypted c (some key) key item
  opened_lem item = elim (Option-cases item.payload) [
    | inl absent ↦ rw absent refl
    | inr ([], e) ↦ rw e refl
    | inr (b ∷ sealed, e) ↦ elim (Outcome-cases (decrypt c key (b ∷ sealed))) [
      | inl (text, opens) ↦ rw (e, opens) refl
      | inr (x, bad) ↦ rw (e, bad) refl
    ]
  ]

  get_item-get :
      (id : Text) (d : Device)
      → is_blank id ≡ false
      → get_item c (some key) id d ≡ get c (some key) id d
  unfolding get_item get
  get_item-get id d named = rw named (same (LocalStore.get id d))
    where
      same :
          (x : Outcome Item × Device)
          → continue (λ item d'. (opened c (some key) item, d')) x
            ≡ continue (λ item d'. (decrypted c (some key) key item, d')) x
      same (ok item, d') = ap (λ o. (o, d')) (opened_lem item)
      same (err e, d') = refl

  add_item-add :
      (type meta : Text) (d : Device)
      → trim_space type ≡ type
      → is_empty type ≡ false
      → is_empty payload ≡ false
      → add_item c (some key) type payload meta d ≡ add c (some key) type payload meta d
  unfolding add_item add new_local_id new_id
  add_item-add type meta d trimmed typed given = rw (trimmed, typed, given) refl

module _ (c : Cipher) (A : Api) where
  finished-state :
      {X : Type 0} (success : X → Ui A → Ui A) (x : Outcome X) (ui : Ui A)
      → ((x : X) (v : Ui A) → (success x v).state ≡ v.state)
      → (finished c A success x ui).state ≡ ui.state
  finished-state success (ok x) ui same = same x ui
  finished-state success (err e) ui same = refl

  add_secret-rows :
      (key : Bytes) (type payload meta : Text) (ui : Ui A)
      → ui.master_password_set ≡ true
      → ui.crypto ≡ some key
      → (add_secret c A type payload meta ui).state.0
        ≡ (add_item c (some key) type payload meta ui.state.0).1
  unfolding add_secret
  add_secret-rows key type payload meta ui on held =
      let x = add_item c (some key) type payload meta ui.state.0 in
      rw (on, held)
        (ap (λ s. s.0)
          (finished-state (λ id. report c A (codes "Created: " ++ id)) x.0
            (record ui { state = (x.1, ui.state.1); crypto = some key; master_password_set = true })
            (λ x v. refl)))

  -- The button "Add" leaves the rows as they are, or writes one row, in every state that the
  -- interface reaches: the payload of the row is what the master password's key encrypts, and
  -- decrypts to the text of the form. It never stores a payload in plain.
  pub add_secret-PutSealed :
      {s : State A} {ui : Ui A} (r : Reach c A s ui) (type payload meta : Text)
      → let ui' = add_secret c A type payload meta ui in
        (ui'.state.0.rows ≡ ui.state.0.rows)
        ⊎ ((key : Bytes) × IsKey c A key
            × (ui.crypto ≡ some key)
            × PutSealed c key payload ui.state.0.rows ui'.state.0.rows)
  unfolding add_secret
  add_secret-PutSealed {s} {ui} r type payload meta = elim (Reach-IsUnlocked c A r) [
    | inl (off, absent) ↦ inl (rw off refl)
    | inr (key, on, held, made) ↦ elim (add_item-PutSealed c key payload type meta ui.state.0) [
      | inl same ↦ inl (ap (λ d. d.rows) (add_secret-rows key type payload meta ui on held) ∙ same)
      | inr put ↦ inr (key, made, held, rw (add_secret-rows key type payload meta ui on held) put)
    ]
  ]

  get_secret-screen :
      (key : Bytes) (id : Text) (item : Item) (ui : Ui A)
      → ui.master_password_set ≡ true
      → ui.crypto ≡ some key
      → (get_item c (some key) id ui.state.0).0 ≡ ok item
      → (get_secret c A id ui).screen ≡ secret_screen item (trim_space (payload_of c item))
  unfolding get_secret
  get_secret-screen key id item ui on held got = rw (on, held, got) refl

  -- A secret that the button "Add" stored is what the button "Get" shows right after it, in every
  -- state that the interface reaches with the master password set: with its payload in plain, the
  -- type, the parsed metadata and the time of its creation in whole seconds. Type and payload are
  -- not empty and the type has no spaces around it, the identifier is not blank, the rows are sound
  -- and the database answers.
  pub get_secret-add_secret :
      {s : State A} {ui : Ui A} (r : Reach c A s ui) (type payload meta id : Text)
      → ui.master_password_set ≡ true
      → IsUp ui.state.0.env
      → IsLocal ui.state.0.rows
      → trim_space type ≡ type
      → is_empty type ≡ false
      → is_empty payload ≡ false
      → is_blank id ≡ false
      → (add_item c ui.crypto type payload meta ui.state.0).0 ≡ ok id
      → let at = ui.state.0.env.clock ui.state.0.env.ticks in
        (get_secret c A id (add_secret c A type payload meta ui)).screen
        ≡ secret_screen (changed_item id type payload meta at at) (trim_space payload)
  get_secret-add_secret {s} {ui} r type payload meta id set up local trimmed typed given named
        done =
      elim (Reach-IsUnlocked c A r) [
        | inl (off, absent) ↦ absurd (false≢true (sym off ∙ set))
        | inr (key, on, held, made) ↦
            let same = add_item-add c key payload type meta ui.state.0 trimmed typed given in
            let done' = rw (held, same) at done in
            let got = get-add c key type payload meta id ui.state.0 up local done' named in
            let (mark, lock) = add_secret-SameLock c A type payload meta ui in
            get_secret-screen key id _ (add_secret c A type payload meta ui) (mark ∙ on)
              (lock ∙ held)
              (rw
                (
                  add_secret-rows key type payload meta ui on held,
                  same,
                  get_item-get c key payload id (add c (some key) type payload meta ui.state.0).1
                      named,
                )
                got)
      ]
