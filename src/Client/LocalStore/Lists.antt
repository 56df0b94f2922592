-- ===== src/Client/LocalStore/Lists.antt =====
-- What `List` and `ListDirty` return on a local database that answers, also after `MarkClean`.
use mathlib.Core.List.{Perm}
use goph_keeper.Base.{
  ◌≡◌, refl, Bool, true, false, not, ◌&&◌, ◌||◌, List, [], ◌∷◌, map, Text, text_eq, arith, keep,
  sort_by, contains, All, All-keep, All-sort_by, IsSorted, sort_by-perm, sort_by-IsSorted,
  Bool-cases, inl, inr, ok,
}
use goph_keeper.Database.{IsUp}
use goph_keeper.Database.Rows.{decoded}
use goph_keeper.Database.Rows.Scans.{scan_rows-fine}
use goph_keeper.Client.Items.{Stamp, rfc3339, malformed}
use goph_keeper.Client.LocalRows.{
  LocalRow, LocalRows, stamp_leb, newer_first, older_first, clean_rows,
}
use goph_keeper.Client.LocalRows.Views.{IsRow, IsLocal, clean_rows-IsLocal}
use goph_keeper.Client.Device.{Device}
use goph_keeper.Client.LocalStore.{plain_labels, decode_row, list, list_dirty, mark_clean}
use goph_keeper.Client.LocalStore.Reads.{local_item, decode_row-IsRow}

stamp_total : (s t : Stamp) → stamp_leb s t ≡ false → stamp_leb t s ≡ true
stamp_total (rfc3339 m) (rfc3339 n) h = ground arith
stamp_total (rfc3339 m) (malformed t) h = ground arith
stamp_total (malformed s) (rfc3339 n) h = refl
stamp_total (malformed s) (malformed t) h = refl

stamp_trans : (s t u : Stamp) → stamp_leb s t ≡ true → stamp_leb t u ≡ true → stamp_leb s u ≡ true
stamp_trans (rfc3339 m) (rfc3339 n) (rfc3339 k) h g = ground arith
stamp_trans (rfc3339 m) t (malformed u) h g = refl
stamp_trans (rfc3339 m) (malformed n) (rfc3339 k) h g = ground arith
stamp_trans (malformed s) (rfc3339 n) u h g = ground arith
stamp_trans (malformed s) (malformed t) (rfc3339 u) h g = ground arith
stamp_trans (malformed s) (malformed t) (malformed u) h g = refl

All-IsRow : (rows : LocalRows) → IsLocal rows → All (λ r. IsRow r) rows
All-IsRow [] h = tt
All-IsRow (r ∷ rows) (u, k, h) = (k, All-IsRow rows h)

All-decoded :
    (rows : LocalRows)
    → All (λ r. IsRow r) rows
    → All (λ r. decode_row r ≡ decoded (local_item r)) rows
All-decoded [] h = tt
All-decoded (r ∷ rows) (k, h) = (decode_row-IsRow r k, All-decoded rows h)

decodable :
    (p : LocalRow → Bool) (before : LocalRow → LocalRow → Bool) (rows : LocalRows)
    → IsLocal rows
    → All (λ r. decode_row r ≡ decoded (local_item r)) (sort_by before (keep p rows))
decodable p before rows h = All-decoded _ (
    All-sort_by before (λ r. IsRow r) (keep p rows)
      (All-keep (λ r. IsRow r) p rows (All-IsRow rows h)))

-- `List` returns exactly the items of the rows, the deleted ones only if asked for, each once, the
-- last updated first; it does not fail. The rows are sound and the database answers.
pub list-perm :
    (include_deleted : Bool) (d : Device)
    → IsUp d.env
    → IsLocal d.rows
    → (rows : LocalRows) × ((list include_deleted d).0 ≡ ok (map local_item rows))
      × Perm rows (keep (λ r. include_deleted || not r.deleted) d.rows)
      × IsSorted newer_first rows
unfolding list
list-perm include_deleted d up h =
    let shown = keep (λ r. include_deleted || not r.deleted) d.rows in
    (
      sort_by newer_first shown,
      rw (up d.env.calls) (
          scan_rows-fine plain_labels decode_row local_item 0 _
            (decodable (λ r. include_deleted || not r.deleted) newer_first d.rows h)),
      sort_by-perm newer_first shown,
      sort_by-IsSorted newer_first (λ a b k. stamp_total b.updated_at a.updated_at k)
          (λ a b c k l. stamp_trans c.updated_at b.updated_at a.updated_at l k) shown,
    )

pub list_dirty_lem :
    (d : Device)
    → IsUp d.env
    → IsLocal d.rows
    → (rows : LocalRows) × ((list_dirty d).0 ≡ ok (map local_item rows))
      × Perm rows (keep (λ r. r.dirty) d.rows)
      × IsSorted older_first rows
unfolding list_dirty
list_dirty_lem d up h =
    let dirty = keep (λ r. r.dirty) d.rows in
    (
      sort_by older_first dirty,
      rw (up d.env.calls) (
          scan_rows-fine plain_labels decode_row local_item 0 _
            (decodable (λ r. r.dirty) older_first d.rows h)),
      sort_by-perm older_first dirty,
      sort_by-IsSorted older_first (λ a b k. stamp_total a.updated_at b.updated_at k)
          (λ a b c k l. stamp_trans a.updated_at b.updated_at c.updated_at k l) dirty,
    )

-- The rows that stay as they are when others become clean.
still_dirty :
    (ids : List Text) (rows : LocalRows)
    → keep (λ r. r.dirty) (clean_rows ids rows)
      ≡ keep (λ r. r.dirty && not (contains ids r.id)) rows
unfolding keep clean_rows
still_dirty ids [] = refl
still_dirty ids (r ∷ rows) = elim (Bool-cases (contains ids r.id)) [
  | inl hit ↦ rw (hit, still_dirty ids rows) (ground arith)
  | inr miss ↦ rw (miss, still_dirty ids rows) (ground arith)
]

pub mark_clean_lem :
    (ids : List Text) (d : Device)
    → IsUp d.env
    → IsLocal d.rows
    → ((mark_clean ids d).0 ≡ ok tt)
      × (keep (λ r. r.dirty) (mark_clean ids d).1.rows
          ≡ keep (λ r. r.dirty && not (contains ids r.id)) d.rows)
      × IsLocal (mark_clean ids d).1.rows
      × IsUp (mark_clean ids d).1.env
unfolding mark_clean
mark_clean_lem [] d up h = (refl, ground arith, h, up)
mark_clean_lem (id ∷ ids) d up h = (
  rw (up d.env.calls),
  rw (up d.env.calls, still_dirty (id ∷ ids) d.rows),
  rw (up d.env.calls) (clean_rows-IsLocal (id ∷ ids) d.rows h),
  λ n. rw (up d.env.calls) (up n),
)

-- After `MarkClean` of some identifiers, `ListDirty` returns exactly the items of the rows that
-- were dirty before and have another identifier, each once, the last updated at the end; neither
-- fails. The rows are sound and the database answers.
pub list_dirty-mark_clean :
    (ids : List Text) (d : Device)
    → IsUp d.env
    → IsLocal d.rows
    → ((mark_clean ids d).0 ≡ ok tt)
      × (rows : LocalRows) × ((list_dirty (mark_clean ids d).1).0 ≡ ok (map local_item rows))
      × Perm rows (keep (λ r. r.dirty && not (contains ids r.id)) d.rows)
      × IsSorted older_first rows
list_dirty-mark_clean ids d up h =
    let (done, same, sound, up') = mark_clean_lem ids d up h in
    let (rows, listed, perm, sorted) = list_dirty_lem (mark_clean ids d).1 up' sound in
    (done, rows, listed, (rw same at perm), sorted)
