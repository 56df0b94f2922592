-- ===== src/Service/Isolation.antt =====
-- The services keep owners apart over every store that does.
use goph_keeper.Base.{
  ℕ, ◌+◌, ◌≡◌, refl, ◌∙◌, ◌≢◌, List, [], ◌∷◌, Text, Outcome, ok, err, continue, return, Run,
  is_blank, not, ◌&&◌, Bool-cases, inl, inr,
}
use goph_keeper.Models.{Time, Payload, Meta, Secret, is_zero}
use goph_keeper.Service.Secrets.{SecretStore, create, get, list, update, delete}
use goph_keeper.Service.Sync.{or_now, pull, push_item, push_from, push}

-- What each owner has in a state, and that a call for one owner leaves what others have alone.
pub record Isolates (S : SecretStore) : Type 1 where
  pub Rows : Type 0
  pub rows_of : Text → S.State → Rows
  pub create_others :
      (s : Secret) (w : S.State) (o : Text)
      → s.owner_id ≢ o
      → rows_of o (S.create s w).1 ≡ rows_of o w
  pub update_others :
      (s : Secret) (w : S.State) (o : Text)
      → s.owner_id ≢ o
      → rows_of o (S.update s w).1 ≡ rows_of o w
  pub upsert_others :
      (s : Secret) (w : S.State) (o : Text)
      → s.owner_id ≢ o
      → rows_of o (S.upsert s w).1 ≡ rows_of o w
  pub delete_others :
      (a id : Text) (w : S.State) (o : Text) → a ≢ o → rows_of o (S.delete a id w).1 ≡ rows_of o w
  pub get_all :
      (a id : Text) (w : S.State) (o : Text) → rows_of o (S.get_by_id a id w).1 ≡ rows_of o w
  pub list_all :
      (a : Text) (w : S.State) (o : Text) → rows_of o (S.list_by_owner a w).1 ≡ rows_of o w
  pub updated_all :
      (a : Text) (t : Time) (w : S.State) (o : Text)
      → rows_of o (S.list_updated_since a t w).1 ≡ rows_of o w
  pub now_all : (w : S.State) (o : Text) → rows_of o (S.now_fn w).1 ≡ rows_of o w
  pub id_all : (w : S.State) (o : Text) → rows_of o (S.id_fn w).1 ≡ rows_of o w

-- A call of `SecretService` or `SyncService`.
pub data Call : Type 0 where
  create_call : Text → Payload → Meta → Call
  get_call : Text → Call
  list_call : Call
  update_call : Text → Text → Payload → Meta → Call
  delete_call : Text → Call
  pull_call : Time → Call
  push_call : List Secret → Call

module _ (S : SecretStore) where
  unfoldable pub call : Text → Call → S.State → S.State
  unfolding create get list update delete pull push
  call a (create_call t p m) w = (create S a t p m w).1
  call a (get_call id) w = (get S a id w).1
  call a list_call w = (list S a w).1
  call a (update_call id t p m) w = (update S a id t p m w).1
  call a (delete_call id) w = (delete S a id w).1
  call a (pull_call since) w = (pull S a since w).1
  call a (push_call items) w = (push S a items w).1

module _ (S : SecretStore) (L : Isolates S) (o : Text) where
  abbrev Keeps : {A : Type 0} → Run S.State A → Type 0
  Keeps m = (w : S.State) → L.rows_of o (m w).1 ≡ L.rows_of o w

  continue-Keeps :
      {A B : Type 0} (f : A → Run S.State B) (x : Outcome A × S.State) (w : S.State)
      → ((a : A) → Keeps (f a))
      → L.rows_of o x.1 ≡ L.rows_of o w
      → L.rows_of o (continue f x).1 ≡ L.rows_of o w
  continue-Keeps f (ok a, w') w k h = k a w' ∙ h
  continue-Keeps f (err e, w') w k h = h

  or_now-Keeps : (t : Time) → Keeps (or_now S t)
  unfolding or_now
  or_now-Keeps t w = elim (Bool-cases (is_zero t)) [
    | inl zero_time ↦ rw zero_time (L.now_all w o)
    | inr given ↦ rw given
  ]

  module _ (a : Text) (d : a ≢ o) where
    upsert-Keeps :
        (s : Secret) → s.owner_id ≡ a → Keeps (λ w. continue (λ _. return tt) (S.upsert s w))
    upsert-Keeps s e w =
        continue-Keeps (λ _. return (tt {0})) (S.upsert s w) w (λ _ w'. refl)
          (L.upsert_others s w o (rw e d))

    push_item-Keeps : (item : Secret) → Keeps (push_item S a item)
    unfolding push_item
    push_item-Keeps item w = elim (Bool-cases (is_blank item.id)) [
      | inl blank ↦ rw blank
      | inr named ↦ rw named (elim (Bool-cases (not item.deleted && is_blank item.type)) [
        | inl untyped ↦ rw untyped
        | inr typed ↦ rw typed (
            continue-Keeps _ (or_now S item.created_at w) w
              (λ created v.
                continue-Keeps _ (or_now S item.updated_at v) v (λ updated. upsert-Keeps _ refl)
                  (or_now-Keeps item.updated_at v))
              (or_now-Keeps item.created_at w))
      ])
    ]

    push_from-Keeps : (n : ℕ) (items : List Secret) → Keeps (push_from S a n items)
    unfolding push_from
    push_from-Keeps n [] w = refl
    push_from-Keeps n (item ∷ items) w =
        continue-Keeps (λ _. push_from S a (n + 1) items) (push_item S a item w) w
          (λ _. push_from-Keeps (n + 1) items) (push_item-Keeps item w)

    -- Whatever a caller asks of the services, other owners' rows stay as they are, if the store
    -- under the services keeps owners apart.
    pub call-keeps : (c : Call) (w : S.State) → L.rows_of o (call S a c w) ≡ L.rows_of o w
    unfolding call
    call-keeps (create_call t p m) w =
        continue-Keeps _ (S.id_fn w) w
          (λ id v.
            continue-Keeps _ (S.now_fn v) v (λ now u. L.create_others _ u o d) (L.now_all v o))
          (L.id_all w o)
    call-keeps (get_call id) w = L.get_all a id w o
    call-keeps list_call w = L.list_all a w o
    call-keeps (update_call id t p m) w =
        continue-Keeps _ (S.now_fn w) w (λ now v. L.update_others _ v o d) (L.now_all w o)
    call-keeps (delete_call id) w = L.delete_others a id w o d
    call-keeps (pull_call since) w = L.updated_all a since w o
    call-keeps (push_call items) w = push_from-Keeps 0 items w
