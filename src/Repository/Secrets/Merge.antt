-- ===== src/Repository/Secrets/Merge.antt =====
-- The conflict rule of `Upsert` on one table: what each key holds afterwards.
pub mod Convergence
use goph_keeper.Base.{
  ℕ, ◌≤◌, ◌≡◌, refl, Option, none, some, [], ◌∷◌, Text, text_eq, text_beq_iff, ◌==◌, if◌then◌else◌,
  arith,
}
use goph_keeper.Repository.Secrets.{Secrets, SecretRow, supersedes, put_row}

-- The row that a key holds.
unfoldable pub find_row : Text → Secrets → Option SecretRow
find_row id [] = none
find_row id (r ∷ rows) = if r.id == id then some r else find_row id rows

-- The last writer wins, unless the row is another owner's.
abbrev pub merge : SecretRow → Option SecretRow → SecretRow
merge new none = new
merge new (some old) = if supersedes new old then new else old

pub find_row-put_row :
    (j : Text) (new : SecretRow) (rows : Secrets)
    → find_row j (put_row new rows)
      ≡ (if new.id == j then some (merge new (find_row new.id rows)) else find_row j rows)
unfolding find_row put_row
find_row-put_row j new [] = refl
find_row-put_row j new (old ∷ rows) = ground (
  arith,
  text_beq_iff new.id j,
  text_beq_iff old.id new.id,
  text_beq_iff old.id j,
  find_row-put_row j new rows,
)

pub find_row-id : (j : Text) (rows : Secrets) (r : SecretRow) → find_row j rows ≡ some r → r.id ≡ j
unfolding find_row
find_row-id j [] r h = ground arith
find_row-id j (q ∷ rows) r h = ground (arith, text_beq_iff q.id j, find_row-id j rows r)
