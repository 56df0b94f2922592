-- ===== src/Client/Ui/Reachable.antt =====
-- client/ui/ui.go: what holds in every state that the terminal interface can reach.
use goph_keeper.Base.{
  ◌≡◌, refl, ◌∙◌, inl, inr, ◌⊎◌, Bool, true, false, none, some, Text, Bytes, codes, ok,
  if◌then◌else◌, ◌==◌, text_eq, ◌++◌, trim_space, pos, decimal, Outcome-cases, Run,
}
use goph_keeper.Client.Device.{Device}
use goph_keeper.Client.Crypto.{Cipher, new_crypto}
use goph_keeper.Client.LocalStore
use goph_keeper.Client.Api.{Api}
use goph_keeper.Client.Sync.{State, on_device, on_api}
use goph_keeper.Client.Ui.{
  Ui, started, Action, perform, submit_form, set_password, list_secrets, add_form, get_form,
  sync_now, cancel, submit_auth, set_master_password, show_list, add_secret, get_secret,
  synchronise, add_item, after, close, report, locked, get_item, do_sync, secret_screen,
  secrets_screen, payload_of,
}

module _ (c : Cipher) (A : Api) where
  pub data Reach (s : State A) : Ui A → Type 0 where
    here : Reach s (started c A s)
    next : {ui : Ui A} → Reach s ui → (a : Action) → Reach s (perform c A a ui)

  -- The key of the interface is one that a master password gave on a device.
  abbrev pub IsKey : Bytes → Type 0
  IsKey key = (master : Text) × (d : Device) × ((new_crypto c master d).0 ≡ ok key)

  -- There is a key exactly if the master password is marked as set.
  abbrev pub IsUnlocked : Ui A → Type 0
  IsUnlocked ui =
      ((ui.master_password_set ≡ false) × (ui.crypto ≡ none))
      ⊎ ((key : Bytes) × (ui.master_password_set ≡ true) × (ui.crypto ≡ some key) × IsKey key)

  -- A handler that leaves the key and its mark as they are.
  abbrev pub SameLock : Ui A → Ui A → Type 0
  SameLock ui ui' = (ui'.master_password_set ≡ ui.master_password_set) × (ui'.crypto ≡ ui.crypto)

  SameLock-IsUnlocked : (ui ui' : Ui A) → SameLock ui ui' → IsUnlocked ui → IsUnlocked ui'
  SameLock-IsUnlocked ui ui' (mark, key) (inl (off, absent)) = inl (mark ∙ off, key ∙ absent)
  SameLock-IsUnlocked ui ui' (mark, key) (inr (k, on, held, made)) =
      inr (k, mark ∙ on, key ∙ held, made)

  after-SameLock :
      {X : Type 0} (success : X → Ui A → Ui A) (m : Run (State A) X) (ui : Ui A)
      → ((x : X) (v : Ui A) → SameLock v (success x v))
      → SameLock ui (after c A success m ui)
  after-SameLock success m ui same = elim (Outcome-cases (m ui.state).0) [
    | inl (x, done) ↦ rw done (same x (record ui { state = (m ui.state).1 }))
    | inr (e, bad) ↦ rw bad (refl, refl)
  ]

  set-IsUnlocked :
      (master : Text) (ui : Ui A) → IsUnlocked ui → IsUnlocked (set_master_password c A master ui)
  unfolding set_master_password
  set-IsUnlocked master ui h = elim (Outcome-cases (new_crypto c master ui.state.0).0) [
    | inl (key, done) ↦ rw done (inr (key, refl, refl, (master, ui.state.0, done)))
    | inr (e, bad) ↦ rw bad h
  ]

  if-SameLock :
      (b : Bool) (ui x y : Ui A) → SameLock ui x → SameLock ui y → SameLock ui (if b then x else y)
  if-SameLock true ui x y h k = h
  if-SameLock false ui x y h k = k

  pub add_secret-SameLock :
      (type payload meta : Text) (ui : Ui A) → SameLock ui (add_secret c A type payload meta ui)
  unfolding add_secret
  add_secret-SameLock type payload meta ui =
      if-SameLock ui.master_password_set ui _ (locked c A ui)
        (after-SameLock (λ id. report c A (codes "Created: " ++ id))
          (on_device A (add_item c ui.crypto type payload meta)) ui (λ x v. (refl, refl)))
        (refl, refl)

  unchanged :
      (a : Action) (ui : Ui A)
      → SameLock ui (perform c A a ui)
      → IsUnlocked ui
      → IsUnlocked (perform c A a ui)
  unchanged a ui same h = SameLock-IsUnlocked ui (perform c A a ui) same h

  perform-IsUnlocked : (a : Action) (ui : Ui A) → IsUnlocked ui → IsUnlocked (perform c A a ui)
  unfolding perform submit_auth show_list synchronise add_secret get_secret
  perform-IsUnlocked (submit_form mode email password) ui h =
      unchanged (submit_form mode email password) ui
        (after-SameLock (λ _. report c A (codes "OK"))
          (on_api A ((if mode == codes "register" then A.register else A.login) email password)) ui
          (λ x v. (refl, refl)))
        h
  perform-IsUnlocked (set_password master) ui h = set-IsUnlocked master ui h
  perform-IsUnlocked list_secrets ui h =
      unchanged list_secrets ui
        (after-SameLock (λ items v. record v { screen = secrets_screen items })
          (on_device A (LocalStore.list false)) ui (λ x v. (refl, refl)))
        h
  perform-IsUnlocked (add_form type payload meta) ui h =
      unchanged (add_form type payload meta) ui (add_secret-SameLock type payload meta ui) h
  perform-IsUnlocked (get_form id) ui h =
      unchanged (get_form id) ui
        (if-SameLock ui.master_password_set ui _ (locked c A ui)
          (after-SameLock
            (λ item v. record v { screen = secret_screen item (trim_space (payload_of c item)) })
            (on_device A (get_item c ui.crypto id)) (close c A ui) (λ x v. (refl, refl)))
          (refl, refl))
        h
  perform-IsUnlocked sync_now ui h =
      unchanged sync_now ui
        (after-SameLock (λ n. report c A (codes "Synced " ++ decimal (pos n) ++ codes " items"))
          (do_sync A) ui (λ x v. (refl, refl)))
        h
  perform-IsUnlocked cancel ui h = unchanged cancel ui ((refl, refl)) h

  -- In every state that the interface reaches, from its start with any device, the master
  -- password is marked as set exactly if there is a key, and the key is one that a master password gave.
  pub Reach-IsUnlocked : {s : State A} {ui : Ui A} → Reach s ui → IsUnlocked ui
  Reach-IsUnlocked here = inl (refl, refl)
  Reach-IsUnlocked (next {ui} r a) = perform-IsUnlocked a ui (Reach-IsUnlocked r)
