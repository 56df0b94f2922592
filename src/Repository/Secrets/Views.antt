-- ===== src/Repository/Secrets/Views.antt =====
-- Reads and updates of a table in terms of the row that a key holds.
use mathlib.Core.Option
use goph_keeper.Base.{
  ◌≡◌, refl, Bool, false, not, Option, none, some, [], ◌∷◌, Text, text_eq, text_beq_iff, ◌==◌, ◌&&◌,
  if◌then◌else◌, arith, keep, Bool-cases, inl, inr,
}
use goph_keeper.Repository.Secrets.{Secrets, SecretRow, update_where, has_id, is_live}
use goph_keeper.Repository.Secrets.Keys.{IsTable}
use goph_keeper.Repository.Secrets.Merge.{find_row}

pub has_id-find_row : (j : Text) (rows : Secrets) → has_id j rows ≡ false → find_row j rows ≡ none
unfolding has_id find_row
has_id-find_row j [] h = refl
has_id-find_row j (r ∷ rows) h = ground (arith, has_id-find_row j rows)

pub find_row-update_where :
    (j : Text) (p : SecretRow → Bool) (f : SecretRow → SecretRow) (rows : Secrets)
    → ((r : SecretRow) → (f r).id ≡ r.id)
    → find_row j (update_where p f rows)
      ≡ Option.map (λ r. if p r then f r else r) (find_row j rows)
unfolding find_row update_where
find_row-update_where j p f [] same = refl
find_row-update_where j p f (r ∷ rows) same = elim (Bool-cases (p r)) [
  | inl hit ↦ rw hit (
      ground (
        arith,
        same r,
        text_beq_iff (f r).id j,
        text_beq_iff r.id j,
        find_row-update_where j p f rows same,
      ))
  | inr miss ↦ rw miss (ground (arith, text_beq_iff r.id j, find_row-update_where j p f rows same))
]

-- The rows of `WHERE id = … AND owner_id = … AND deleted = false`, given what the key holds.
abbrev pub live_of : Text → Text → Option SecretRow → Secrets
live_of owner_id id none = []
live_of owner_id id (some r) = if r.owner_id == owner_id && not r.deleted then r ∷ [] else []

keep-is_live_absent :
    (owner_id id : Text) (rows : Secrets)
    → has_id id rows ≡ false
    → keep (is_live owner_id id) rows ≡ []
unfolding keep has_id
keep-is_live_absent owner_id id [] h = refl
keep-is_live_absent owner_id id (r ∷ rows) h = ground (arith, keep-is_live_absent owner_id id rows)

pub keep-is_live :
    (owner_id id : Text) (rows : Secrets)
    → IsTable rows
    → keep (is_live owner_id id) rows ≡ live_of owner_id id (find_row id rows)
unfolding keep find_row
keep-is_live owner_id id [] h = refl
keep-is_live owner_id id (r ∷ rows) (u, m, h) = elim (Bool-cases (r.id == id)) [
  | inl same ↦
      let e : r.id ≡ id = (text_beq_iff r.id id).0 same in
      let absent = keep-is_live_absent owner_id id rows (rw e at u) in rw (same, absent)
  | inr differ ↦ rw differ (keep-is_live owner_id id rows h)
]
