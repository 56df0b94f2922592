-- ===== src/Client/LocalRows/Views.antt =====
-- The row under each key of the local table, and the invariant of the table.
use mathlib.Core.Option
use mathlib.Core.Option.{none-ne-some, some-injective}
use goph_keeper.Base.{
  ℕ, ◌≡◌, refl, subst, Bool, false, Option, none, some, List, [], ◌∷◌, Text, text_eq, text_beq_iff,
  ◌==◌, if◌then◌else◌, contains, keep, Bool-cases, inl, inr, arith,
}
use goph_keeper.Repository.Secrets.Keys.{IsMeta}
use goph_keeper.Client.Items.{Item, Stamp, rfc3339}
use goph_keeper.Client.LocalRows.{LocalRow, LocalRows, local_row, put_local, clean_rows}

unfoldable pub find_local : Text → LocalRows → Option LocalRow
find_local id [] = none
find_local id (r ∷ rows) = if r.id == id then some r else find_local id rows

pub find_local-put_local :
    (j : Text) (new : LocalRow) (rows : LocalRows)
    → find_local j (put_local new rows) ≡ (if new.id == j then some new else find_local j rows)
unfolding find_local put_local
find_local-put_local j new [] = refl
find_local-put_local j new (old ∷ rows) = ground (
  arith,
  text_beq_iff new.id j,
  text_beq_iff old.id new.id,
  text_beq_iff old.id j,
  find_local-put_local j new rows,
)

abbrev pub cleaned : List Text → LocalRow → LocalRow
cleaned ids r = if contains ids r.id then record r { dirty = false } else r

pub find_local-clean_rows :
    (j : Text) (ids : List Text) (rows : LocalRows)
    → find_local j (clean_rows ids rows) ≡ Option.map (cleaned ids) (find_local j rows)
unfolding find_local clean_rows
find_local-clean_rows j ids [] = refl
find_local-clean_rows j ids (r ∷ rows) = elim (Bool-cases (contains ids r.id)) [
  | inl hit ↦ rw hit (ground (arith, find_local-clean_rows j ids rows))
  | inr miss ↦ rw miss (ground (arith, find_local-clean_rows j ids rows))
]

-- A row that the program wrote: its metadata and its two instants decode.
abbrev pub IsStamp : Stamp → Type 0
IsStamp s = (n : ℕ) × (s ≡ rfc3339 n)

pub record IsRow (r : LocalRow) : Type 0 where
  pub meta_decodes : IsMeta r.meta
  pub created_decodes : IsStamp r.created_at
  pub updated_decodes : IsStamp r.updated_at

-- Keys are unique and every row decodes.
abbrev pub IsLocal : LocalRows → Type 0
IsLocal [] = Unit
IsLocal (r ∷ rows) = (find_local r.id rows ≡ none) × IsRow r × IsLocal rows

pub put_local-IsLocal :
    (new : LocalRow) (rows : LocalRows) → IsRow new → IsLocal rows → IsLocal (put_local new rows)
unfolding put_local find_local
put_local-IsLocal new [] m h = (refl, m, tt)
put_local-IsLocal new (old ∷ rows) m (u, k, h) = elim (Bool-cases (old.id == new.id)) [
  | inl same ↦
      let e : old.id ≡ new.id = (text_beq_iff old.id new.id).0 same in
      rw same (subst (λ j. find_local j rows ≡ none) e u, m, h)
  | inr differ ↦ rw differ (
    ground (
      arith,
      find_local-put_local old.id new rows,
      text_beq_iff new.id old.id,
      text_beq_iff old.id new.id,
    ),
    k,
    put_local-IsLocal new rows m h,
  )
]

pub clean_rows-IsLocal :
    (ids : List Text) (rows : LocalRows) → IsLocal rows → IsLocal (clean_rows ids rows)
unfolding clean_rows
clean_rows-IsLocal ids [] h = tt
clean_rows-IsLocal ids (r ∷ rows) (u, k, h) = elim (Bool-cases (contains ids r.id)) [
  | inl hit ↦ rw hit (
    rw (find_local-clean_rows r.id ids rows, u),
    record {
      meta_decodes = k.meta_decodes;
      created_decodes = k.created_decodes;
      updated_decodes = k.updated_decodes;
    },
    clean_rows-IsLocal ids rows h,
  )
  | inr miss ↦
      rw miss (rw (find_local-clean_rows r.id ids rows, u), k, clean_rows-IsLocal ids rows h)
]

pub local_row-IsRow : (item : Item) (dirty : Bool) → IsRow (local_row item dirty)
unfolding local_row
local_row-IsRow item dirty = record {
  meta_decodes = (item.meta, refl);
  created_decodes = (_, refl);
  updated_decodes = (_, refl);
}

pub find_local-IsRow :
    (j : Text) (rows : LocalRows) (r : LocalRow)
    → IsLocal rows
    → find_local j rows ≡ some r
    → IsRow r
unfolding find_local
find_local-IsRow j [] r h e = absurd (none-ne-some r e)
find_local-IsRow j (q ∷ rows) r (u, m, h) e = elim (Bool-cases (q.id == j)) [
  | inl same ↦ subst (λ x. IsRow x) (some-injective q r (rw same at e)) m
  | inr differ ↦ find_local-IsRow j rows r h (rw differ at e)
]

abbrev pub rows_of : Option LocalRow → LocalRows
rows_of none = []
rows_of (some r) = r ∷ []

-- `WHERE id = …` gives the row of the key, if any.
pub keep-find_local :
    (id : Text) (rows : LocalRows)
    → IsLocal rows
    → keep (λ r. r.id == id) rows ≡ rows_of (find_local id rows)
unfolding keep find_local
keep-find_local id [] h = refl
keep-find_local id (r ∷ rows) (u, m, h) = elim (Bool-cases (r.id == id)) [
  | inl same ↦
      let e : r.id ≡ id = (text_beq_iff r.id id).0 same in
      rw (same, keep-find_local id rows h, (rw e at u))
  | inr differ ↦ rw differ (keep-find_local id rows h)
]
