-- ===== src/Repository/Secrets/Keys.antt =====
-- The primary key: no two rows have the same `id`; and what the JSON columns hold.
use goph_keeper.Base.{
  ◌≡◌, refl, ◌≢◌, subst, Bool-cases, inl, inr, Bool, false, [], ◌∷◌, Text, text_eq, text_beq_iff,
  ◌==◌, arith,
}
use goph_keeper.Models.{Meta}
use goph_keeper.Database.{MetaJson, marshal_meta}
use goph_keeper.Repository.Secrets.{Secrets, SecretRow, supersedes, put_row, update_where, has_id}

-- The column holds what `json.Marshal` writes for a map.
abbrev pub IsMeta : MetaJson → Type 0
IsMeta j = (m : Meta) × (j ≡ marshal_meta m)

-- Keys are unique, and every `meta` decodes.
abbrev pub IsTable : Secrets → Type 0
IsTable [] = Unit
IsTable (r ∷ rows) = (has_id r.id rows ≡ false) × IsMeta r.meta × IsTable rows

has_id-put_row :
    (j : Text) (new : SecretRow) (rows : Secrets)
    → new.id ≢ j
    → has_id j rows ≡ false
    → has_id j (put_row new rows) ≡ false
unfolding has_id put_row
has_id-put_row j new [] d h = ground (arith, text_beq_iff new.id j)
has_id-put_row j new (old ∷ rows) d h = ground (
  arith,
  text_beq_iff new.id j,
  text_beq_iff old.id new.id,
  text_beq_iff old.id j,
  has_id-put_row j new rows d,
)

pub put_row-IsTable :
    (new : SecretRow) (rows : Secrets) → IsMeta new.meta → IsTable rows → IsTable (put_row new rows)
unfolding put_row has_id
put_row-IsTable new [] m h = (refl, m, tt)
put_row-IsTable new (old ∷ rows) m (u, k, h) = elim (Bool-cases (old.id == new.id)) [
  | inl same ↦
      let e : old.id ≡ new.id = (text_beq_iff old.id new.id).0 same in
      rw same (elim (Bool-cases (supersedes new old)) [
        | inl later ↦ rw later (subst (λ j. has_id j rows ≡ false) e u, m, h)
        | inr stale ↦ rw stale (u, k, h)
      ])
  | inr differ ↦ rw differ (
    has_id-put_row old.id new rows (λ e. ground (arith, text_beq_iff old.id new.id)) u,
    k,
    put_row-IsTable new rows m h,
  )
]

has_id-update_where :
    (j : Text) (p : SecretRow → Bool) (f : SecretRow → SecretRow) (rows : Secrets)
    → ((r : SecretRow) → (f r).id ≡ r.id)
    → has_id j (update_where p f rows) ≡ has_id j rows
unfolding has_id update_where
has_id-update_where j p f [] h = refl
has_id-update_where j p f (r ∷ rows) h = elim (Bool-cases (p r)) [
  | inl hit ↦ rw (hit, h r, has_id-update_where j p f rows h)
  | inr miss ↦ rw (miss, has_id-update_where j p f rows h)
]

pub update_where-IsTable :
    (p : SecretRow → Bool) (f : SecretRow → SecretRow) (rows : Secrets)
    → ((r : SecretRow) → (f r).id ≡ r.id)
    → ((r : SecretRow) → IsMeta r.meta → IsMeta (f r).meta)
    → IsTable rows
    → IsTable (update_where p f rows)
unfolding update_where
update_where-IsTable p f [] same meta h = tt
update_where-IsTable p f (r ∷ rows) same meta (u, k, h) = elim (Bool-cases (p r)) [
  | inl hit ↦ rw hit (
    rw (has_id-update_where (f r).id p f rows same) (rw (same r) u),
    meta r k,
    update_where-IsTable p f rows same meta h,
  )
  | inr miss ↦
      rw miss (
        rw (has_id-update_where r.id p f rows same) u,
        k,
        update_where-IsTable p f rows same meta h,
      )
]
