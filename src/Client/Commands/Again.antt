-- ===== src/Client/Commands/Again.antt =====
-- cmd/client/main.go: on the device, what `add` stored is what a later `get` reads.
use goph_keeper.Base.{
  ◌≡◌, refl, ◌∙◌, inl, inr, false, none, some, Text, Bytes, is_blank, Unicode, ok, Outcome-cases,
  Bool-cases,
}
use goph_keeper.Client.LocalStore.Reads.{get_lem, answer}
use goph_keeper.Client.Crypto.Salt.{new_crypto-again}
use goph_keeper.Client.Commands.Frames.{new_crypto_frame, new_local_store_frame, add_frame}
use goph_keeper.Client.Service.Secrets.{get-add, changed_item}
use goph_keeper.Client.Device.{Device, IsWritable}
use goph_keeper.Client.LocalRows.Views.{IsLocal, find_local}
use goph_keeper.Database.{IsUp}
use goph_keeper.Client.Crypto.{Cipher, new_crypto}
use goph_keeper.Client.Service
use goph_keeper.Client.Api.{Api}
use goph_keeper.Client.Commands.Store.{new_local_store}
use goph_keeper.Client.Commands.Main.{Outside}

get_same :
    (c : Cipher) (key : Bytes) (id : Text) (d d' : Device)
    → IsUp d.env
    → IsLocal d.rows
    → IsUp d'.env
    → d'.rows ≡ d.rows
    → (Service.get c (some key) id d').0 ≡ (Service.get c (some key) id d).0
unfolding Service.get
get_same c key id d d' up local up' same = elim (Bool-cases (is_blank id)) [
  | inl blank ↦ rw blank refl
  | inr named ↦
      let (got, _, _) = get_lem id d up local in
      let (got', _, _) = get_lem id d' up' (rw same local) in
      elim (Outcome-cases (answer (find_local id d.rows))) [
        | inl (item, e) ↦ rw (named, got, got', same, e) refl
        | inr (x, e) ↦ rw (named, got, got', same, e) refl
      ]
]

module _ (u : Unicode) (c : Cipher) (A : Api) (o : Outside A) where
  -- The device when the handler of a command starts, after the key and the local store.
  abbrev pub ready : Text → Device → Device
  ready master d = (new_local_store o.opening (new_crypto c master d).1).1

  opened_store :
      (d : Device)
      → IsUp d.env
      → IsWritable d
      → o.opening.open_error ≡ none
      → (new_local_store o.opening d).0 ≡ ok tt
  unfolding new_local_store
  opened_store d up writable opens = rw (writable d.disk.operations, opens, up d.env.calls) refl

  pub get_again :
      (master type payload meta id : Text) (key : Bytes) (d : Device)
      → is_blank id ≡ false
      → IsUp d.env
      → IsLocal d.rows
      → IsWritable d
      → o.opening.open_error ≡ none
      → (new_crypto c master d).0 ≡ ok key
      → (Service.add c (some key) type payload meta (ready master d)).0 ≡ ok id
      → let d2 = ready master d in
        let d3 = (Service.add c (some key) type payload meta d2).1 in
        let at = d2.env.clock d2.env.ticks in
        ((new_crypto c master d3).0 ≡ ok key)
        × ((new_local_store o.opening (new_crypto c master d3).1).0 ≡ ok tt)
        × ((Service.get c (some key) id (ready master d3)).0
            ≡ ok (changed_item id type payload meta at at))
  get_again master type payload meta id key d named up local writable opens made adding =
      let d1 = (new_crypto c master d).1 in
      let (rows1, replies1, errors1) = new_crypto_frame c master d in
      let d2 = ready master d in
      let (rows2, salt2, replies2, errors2) = new_local_store_frame o.opening d1 in
      let local2 : IsLocal d2.rows = rw (rows2, rows1) local in
      let up2 : IsUp d2.env = rw (replies2, replies1) up in
      let d3 = (Service.add c (some key) type payload meta d2).1 in
      let ((salt3, replies3, errors3), local3) = add_frame c key type payload meta d2 local2 in
      let up3 : IsUp d3.env = rw replies3 up2 in
      let writable3 : IsWritable d3 = λ n. rw (errors3, errors2, errors1) (writable n) in
      let (again, _) =
        new_crypto-again c master d d3 key made (salt3 ∙ salt2) (writable3 d3.disk.operations) in
      let d4 = (new_crypto c master d3).1 in
      let (rows4, replies4, errors4) = new_crypto_frame c master d3 in
      let up4 : IsUp d4.env = rw replies4 up3 in
      let opened = opened_store d4 up4 (λ n. rw errors4 (writable3 n)) opens in
      let d5 = ready master d3 in
      let (rows5, _, replies5, _) = new_local_store_frame o.opening d4 in
      let up5 : IsUp d5.env = rw replies5 up4 in
      (
        again,
        opened,
        get_same c key id d3 d5 up3 local3 up5 (rows5 ∙ rows4)
            ∙ get-add c key type payload meta id d2 up2 local2 adding named,
      )
