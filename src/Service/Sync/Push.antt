-- ===== src/Service/Sync/Push.antt =====
-- The loop of `Push`: what success and failure say of the items, over every store.
use goph_keeper.Base.{
  ℕ, ◌+◌, ◌≡◌, refl, ◌∙◌, true, false, not, ◌&&◌, ◌||◌, List, [], ◌∷◌, ◌++◌, Text, is_blank,
  if◌then◌else◌, length, All, ok, err, continue, continue-eq-ok, continue_congr, Error, sentinel,
  err_sync_invalid_id, err_sync_invalid_type, Bool-cases, inl, inr, arith,
}
use goph_keeper.Models.{Secret}
use goph_keeper.Service.Secrets.{SecretStore}
use goph_keeper.Service.Sync.{push_item, push_from, push}

-- An item that `Push` accepts: it has an id, and a type unless it is deleted.
abbrev pub IsPushable : Secret → Type 0
IsPushable item = (is_blank item.id ≡ false) × ((not item.deleted && is_blank item.type) ≡ false)

-- The error for an item that it does not accept; the id is looked at first.
abbrev pub refusal : Secret → Error
refusal item =
    if is_blank item.id then sentinel err_sync_invalid_id else sentinel err_sync_invalid_type

module _ (S : SecretStore) (owner_id : Text) where
  push_item-IsPushable :
      (item : Secret) (w : S.State) → (push_item S owner_id item w).0 ≡ ok tt → IsPushable item
  unfolding push_item
  push_item-IsPushable item w h = elim (Bool-cases (is_blank item.id)) [
    | inl blank ↦ cc (rw (blank, push_item) at h)
    | inr named ↦ elim (Bool-cases (not item.deleted && is_blank item.type)) [
      | inl untyped ↦ cc (rw (named, untyped, push_item) at h)
      | inr typed ↦ (named, typed)
    ]
  ]

  push_from-eq-ok :
      (n k : ℕ) (items : List Secret) (w : S.State)
      → (push_from S owner_id n items w).0 ≡ ok k
      → (k ≡ n + length items) × All IsPushable items
  unfolding push_from
  push_from-eq-ok n k [] w h = (ground arith, tt)
  push_from-eq-ok n k (item ∷ items) w h =
      let (_, first, rest, _) = continue-eq-ok _ (push_item S owner_id item w) h in
      let (count, valid) = push_from-eq-ok (n + 1) k items _ rest in
      (omega arith, (push_item-IsPushable item w first, valid))

  -- A push that succeeds reports the number of all items that it was given, and accepted each of
  -- them: none lacks an id, and none that is not deleted lacks a type.
  pub push-eq-ok :
      (k : ℕ) (items : List Secret) (w : S.State)
      → (push S owner_id items w).0 ≡ ok k
      → (k ≡ length items) × All IsPushable items
  unfolding push
  push-eq-ok k items w h =
      let (count, valid) = push_from-eq-ok 0 k items w h in (omega arith, valid)

  push_item_refused :
      (item : Secret) (w : S.State)
      → (is_blank item.id || not item.deleted && is_blank item.type) ≡ true
      → push_item S owner_id item w ≡ (err (refusal item), w)
  unfolding push_item
  push_item_refused item w h = elim (Bool-cases (is_blank item.id)) [
    | inl blank ↦ rw blank
    | inr named ↦ rw (named, (rw named at h))
  ]

  push_from-append :
      (n : ℕ) (items more : List Secret) (w : S.State)
      → push_from S owner_id n (items ++ more) w
        ≡ continue (λ k. push_from S owner_id k more) (push_from S owner_id n items w)
  unfolding push_from
  push_from-append n [] more w = refl
  push_from-append n (item ∷ items) more w =
      continue_congr _ _ _ (push_item S owner_id item w)
        (λ _ v. push_from-append (n + 1) items more v)

  -- A push stops at the first item that it does not accept, with the error for that item and no
  -- count, and keeps what the items before it have done: it is no transaction.
  pub push_refused :
      (items more : List Secret) (item : Secret) (k : ℕ) (w w' : S.State)
      → push S owner_id items w ≡ (ok k, w')
      → (is_blank item.id || not item.deleted && is_blank item.type) ≡ true
      → push S owner_id (items ++ item ∷ more) w ≡ (err (refusal item), w')
  unfolding push
  push_refused items more item k w w' before bad =
      push_from-append 0 items (item ∷ more) w
      ∙ rw before (rw (push_item_refused item w' bad, push_from))
