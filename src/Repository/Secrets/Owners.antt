-- ===== src/Repository/Secrets/Owners.antt =====
-- What one owner's calls leave alone: the rows of every other owner.
use goph_keeper.Base.{
  ◌≡◌, refl, ◌≢◌, Bool, true, [], ◌∷◌, Text, text_eq, text_beq_iff, ◌==◌, keep, arith,
}
use goph_keeper.Repository.Secrets.{Secrets, SecretRow, put_row, update_where}

-- The rows of an owner, deleted ones included.
unfoldable pub owned_rows : Text → Secrets → Secrets
owned_rows o rows = keep (λ r. r.owner_id == o) rows

pub owned_rows-put_row :
    (o : Text) (new : SecretRow) (rows : Secrets)
    → new.owner_id ≢ o
    → owned_rows o (put_row new rows) ≡ owned_rows o rows
unfolding owned_rows keep put_row
owned_rows-put_row o new [] d = ground (arith, text_beq_iff new.owner_id o)
owned_rows-put_row o new (old ∷ rows) d = ground (
  arith,
  text_beq_iff new.owner_id o,
  text_beq_iff old.owner_id new.owner_id,
  text_beq_iff old.owner_id o,
  owned_rows-put_row o new rows d,
)

-- An `UPDATE` that keeps the owner, of rows that are not `o`'s.
pub owned_rows-update_where :
    (o : Text) (p : SecretRow → Bool) (f : SecretRow → SecretRow) (rows : Secrets)
    → ((r : SecretRow) → p r ≡ true → (r.owner_id ≢ o) × ((f r).owner_id ≡ r.owner_id))
    → owned_rows o (update_where p f rows) ≡ owned_rows o rows
unfolding owned_rows keep update_where
owned_rows-update_where o p f [] h = refl
owned_rows-update_where o p f (r ∷ rows) h = ground (
  arith,
  h r,
  owned_rows-update_where o p f rows h,
  text_beq_iff r.owner_id o,
  text_beq_iff (f r).owner_id o,
)
