-- ===== src/Repository/Secrets/Statements.antt =====
-- What a statement that succeeds does to the table, and the invariant and the owners under it.
use goph_keeper.Base.{
  ◌≡◌, refl, ◌≢◌, false, some, ◌∷◌, Text, Bytes, text_eq, text_beq_iff, arith, Option-cases, ok,
  ◌⊎◌, inl, inr, keep,
}
use goph_keeper.Models.{Secret, Time}
use goph_keeper.Repository.Secrets.{
  Secrets, SecretRow, put_row, insert_row, upsert_row, update_where, has_id, to_row, is_live,
  set_contents, set_deleted, update_contents,
}
use goph_keeper.Repository.Secrets.Keys.{IsMeta, IsTable, put_row-IsTable, update_where-IsTable}
use goph_keeper.Repository.Secrets.Owners.{owned_rows, owned_rows-put_row, owned_rows-update_where}

pub insert_row-eq-ok :
    (s : Secret) (rows rows' : Secrets)
    → insert_row s rows ≡ ok rows'
    → (b : Bytes) × (s.payload ≡ some b) × (has_id s.id rows ≡ false) × (rows' ≡ to_row s b ∷ rows)
unfolding insert_row
insert_row-eq-ok s rows rows' h = ground arith

pub upsert_row-eq-ok :
    (s : Secret) (rows rows' : Secrets)
    → upsert_row s rows ≡ ok rows'
    → (b : Bytes) × (s.payload ≡ some b) × (rows' ≡ put_row (to_row s b) rows)
unfolding upsert_row
upsert_row-eq-ok s rows rows' h = ground arith

pub update_contents-eq-ok :
    (s : Secret) (rows rows' : Secrets)
    → update_contents s rows ≡ ok rows'
    → (rows' ≡ rows)
      ⊎ ((b : Bytes) × (s.payload ≡ some b)
          × (rows' ≡ update_where (is_live s.owner_id s.id) (set_contents s b) rows))
unfolding update_contents
update_contents-eq-ok s rows rows' h = elim (Option-cases s.payload) [
  | inl nil ↦ inl (ground arith)
  | inr (b, e) ↦ inr (b, e, ground arith)
]

-- A statement of an owner: it keeps the table sound and other owners' rows as they are.
pub record IsConfined (owner_id : Text) (rows rows' : Secrets) : Type 0 where
  pub sound : IsTable rows → IsTable rows'
  pub others : (o : Text) → owner_id ≢ o → owned_rows o rows' ≡ owned_rows o rows

pub unchanged-IsConfined : (owner_id : Text) (rows : Secrets) → IsConfined owner_id rows rows
unchanged-IsConfined owner_id rows = record { sound = λ h. h; others = λ o d. refl }

pub insert_row-IsConfined :
    (s : Secret) (rows rows' : Secrets)
    → insert_row s rows ≡ ok rows'
    → IsConfined s.owner_id rows rows'
unfolding owned_rows keep
insert_row-IsConfined s rows rows' h =
    let (b, _, fresh, e) = insert_row-eq-ok s rows rows' h in
    rw e (record {
      sound = λ t. (fresh, (s.meta, refl), t);
      others = λ o d. ground (arith, text_beq_iff s.owner_id o);
    })

pub upsert_row-IsConfined :
    (s : Secret) (rows rows' : Secrets)
    → upsert_row s rows ≡ ok rows'
    → IsConfined s.owner_id rows rows'
upsert_row-IsConfined s rows rows' h =
    let (b, _, e) = upsert_row-eq-ok s rows rows' h in
    rw e (record {
      sound = λ t. put_row-IsTable (to_row s b) rows (s.meta, refl) t;
      others = λ o d. owned_rows-put_row o (to_row s b) rows d;
    })

-- An `UPDATE` of the live row that keeps key and owner.
update_live-IsConfined :
    (owner_id id : Text) (f : SecretRow → SecretRow) (rows : Secrets)
    → ((r : SecretRow) → ((f r).id ≡ r.id) × ((f r).owner_id ≡ r.owner_id))
    → ((r : SecretRow) → IsMeta r.meta → IsMeta (f r).meta)
    → IsConfined owner_id rows (update_where (is_live owner_id id) f rows)
update_live-IsConfined owner_id id f rows same meta = record {
  sound = λ t. update_where-IsTable (is_live owner_id id) f rows (λ r. (same r).0) meta t;
  others = λ o d.
      owned_rows-update_where o (is_live owner_id id) f rows (λ r h.
        (ground (arith, text_beq_iff r.owner_id owner_id, text_beq_iff r.id id), (same r).1));
}

pub update_contents-IsConfined :
    (s : Secret) (rows rows' : Secrets)
    → update_contents s rows ≡ ok rows'
    → IsConfined s.owner_id rows rows'
update_contents-IsConfined s rows rows' h = elim (update_contents-eq-ok s rows rows' h) [
  | inl same ↦ rw same (unchanged-IsConfined s.owner_id rows)
  | inr (b, _, e) ↦ rw e (
      update_live-IsConfined s.owner_id s.id (set_contents s b) rows (λ r. (refl, refl))
        (λ r m. (s.meta, refl)))
]

pub delete_row-IsConfined :
    (owner_id id : Text) (now : Time) (rows : Secrets)
    → IsConfined owner_id rows (update_where (is_live owner_id id) (set_deleted now) rows)
delete_row-IsConfined owner_id id now rows =
    update_live-IsConfined owner_id id (set_deleted now) rows (λ r. (refl, refl)) (λ r m. m)
