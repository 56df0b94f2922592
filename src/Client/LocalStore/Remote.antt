-- ===== src/Client/LocalStore/Remote.antt =====
-- `ApplyRemote`: what it leaves under each key.
use goph_keeper.Base.{
  ap, ◌≤◌, ◌/◌, ◌%◌, ◌<◌, ◌≡◌, refl, ◌∙◌, Bool, true, false, Option, none, some, List, [], ◌∷◌,
  Text, text_eq, text_beq_iff, text_beq_refl, ◌==◌, ltb, if◌then◌else◌, arith, Bool-cases, inl, inr,
  Outcome, ok, is_error,
}
use goph_keeper.Models.{Time}
use goph_keeper.Database.{IsUp}
use goph_keeper.Client.Items.{Item, Stamp, rfc3339, malformed, to_second}
use goph_keeper.Client.LocalRows.{LocalRow, LocalRows, local_row}
use goph_keeper.Client.LocalRows.Views.{
  IsLocal, find_local, find_local-put_local, put_local-IsLocal, local_row-IsRow,
}
use goph_keeper.Client.Device.{Device, Disk}
use goph_keeper.Client.LocalStore.{decide, upsert, get, apply_item, apply_remote}
use goph_keeper.Client.LocalStore.Reads.{instant, answer, get_lem, upsert_lem}

-- What one remote item makes of the row under its key: it is put in, clean, if there is none or
-- if it is later than the row.
abbrev pub settle : Item → Option LocalRow → Option LocalRow
settle item none = some (local_row item false)
settle item (some r) =
    if ltb (instant r.updated_at) item.updated_at then some (local_row item false) else some r

-- The row under `j` after a list of remote items.
abbrev pub settle_all : Text → List Item → Option LocalRow → Option LocalRow
settle_all j [] row = row
settle_all j (item ∷ items) row = settle_all j items (if item.id == j then settle item row else row)

get-disk : (id : Text) (d : Device) → IsUp d.env → (get id d).1.disk ≡ d.disk
unfolding get
get-disk id d up = rw (up d.env.calls) refl

upsert-disk :
    (item : Item) (dirty : Bool) (d : Device) → IsUp d.env → (upsert item dirty d).1.disk ≡ d.disk
unfolding upsert
upsert-disk item dirty d up = rw (up d.env.calls) refl

-- A call succeeds, keeps the rows sound and the disk as it was, and leaves `after` under each key.
abbrev pub Leaves : Disk → (Text → Option LocalRow) → Outcome (Unit {0}) × Device → Type 0
Leaves disk after x =
    (x.0 ≡ ok tt)
    × ((j : Text) → find_local j x.1.rows ≡ after j)
    × IsLocal x.1.rows
    × IsUp x.1.env
    × (x.1.disk ≡ disk)

upsert-Leaves :
    (item : Item) (d : Device)
    → IsUp d.env
    → IsLocal d.rows
    → Leaves d.disk
        (λ j. if item.id == j then some (local_row item false) else find_local j d.rows)
        (upsert item false d)
unfolding local_row
upsert-Leaves item d up h =
    let (done, rows, up') = upsert_lem item false d up in
    (
      done,
      λ j. rw rows (find_local-put_local j (local_row item false) d.rows),
      rw rows (put_local-IsLocal (local_row item false) d.rows (local_row-IsRow item false) h),
      up',
      upsert-disk item false d up,
    )

abbrev settled : Item → Option LocalRow → LocalRows → Text → Option LocalRow
settled item row rows j = if item.id == j then settle item row else find_local j rows

kept_under :
    (item : Item) (j : Text) (rows : LocalRows) (row : Option LocalRow)
    → find_local item.id rows ≡ row
    → find_local j rows ≡ (if item.id == j then row else find_local j rows)
kept_under item j rows row found = elim (Bool-cases (item.id == j)) [
  | inl same ↦ rw same (rw ((text_beq_iff item.id j).0 same) at found)
  | inr differ ↦ rw differ
]

decide-Leaves :
    (item : Item) (row : Option LocalRow) (d : Device)
    → IsUp d.env
    → IsLocal d.rows
    → find_local item.id d.rows ≡ row
    → Leaves d.disk (settled item row d.rows) (decide item (answer row) d)
unfolding is_error
decide-Leaves item none d up h found = upsert-Leaves item d up h
decide-Leaves item (some r) d up h found =
    elim (Bool-cases (ltb (instant r.updated_at) item.updated_at)) [
      | inl later ↦ rw later (upsert-Leaves item d up h)
      | inr earlier ↦ rw earlier (refl, λ j. kept_under item j d.rows (some r) found, h, up, refl)
    ]

apply_item-Leaves :
    (item : Item) (d : Device)
    → IsUp d.env
    → IsLocal d.rows
    → Leaves d.disk (settled item (find_local item.id d.rows) d.rows) (apply_item item d)
unfolding apply_item
apply_item-Leaves item d up h =
    let (got, rows, up') = get_lem item.id d up h in
    let step =
      decide-Leaves item (find_local item.id d.rows) (get item.id d).1 up' (rw rows h)
        (rw rows refl) in
    rw got (rw (rows, get-disk item.id d up) at step)

settle_at :
    (item : Item) (j : Text) (rows : LocalRows)
    → settled item (find_local item.id rows) rows j
      ≡ (if item.id == j then settle item (find_local j rows) else find_local j rows)
settle_at item j rows = elim (Bool-cases (item.id == j)) [
  | inl same ↦ rw same (rw ((text_beq_iff item.id j).0 same) refl)
  | inr differ ↦ rw differ
]

pub apply_remote-Leaves :
    (items : List Item) (d : Device)
    → IsUp d.env
    → IsLocal d.rows
    → Leaves d.disk (λ j. settle_all j items (find_local j d.rows)) (apply_remote items d)
unfolding apply_remote
apply_remote-Leaves [] d up h = (refl, λ j. refl, h, up, refl)
apply_remote-Leaves (item ∷ items) d up h =
    let (done, rows, sound, up', disk) = apply_item-Leaves item d up h in
    let (all, rest, sound', up'', disk') =
      apply_remote-Leaves items (apply_item item d).1 up' sound in
    (
      rw done all,
      λ j. rw done (rest j ∙ ap (λ row. settle_all j items row) (rows j ∙ settle_at item j d.rows)),
      rw done sound',
      rw done up'',
      rw done (disk' ∙ disk),
    )

-- `ApplyRemote` succeeds, keeps the rows sound, and leaves under each key what its items leave
-- there one after the other: an item is put in, clean, if there is no row or the item is later
-- than the row, and changes nothing otherwise. The rows are sound and the database answers.
pub find_local-apply_remote :
    (items : List Item) (d : Device)
    → IsUp d.env
    → IsLocal d.rows
    → ((apply_remote items d).0 ≡ ok tt)
      × ((j : Text)
          → find_local j (apply_remote items d).1.rows ≡ settle_all j items (find_local j d.rows))
      × IsLocal (apply_remote items d).1.rows
find_local-apply_remote items d up h =
    let (done, rows, sound, _, _) = apply_remote-Leaves items d up h in (done, rows, sound)

-- The row under a key is there and no earlier than the given instant, in whole seconds.
abbrev pub IsLater : Time → Option LocalRow → Type 0
IsLater t none = ⊥
IsLater t (some q) = t ≤ instant q.updated_at

to_second-later : (s : Stamp) (u : Time) → ltb (instant s) u ≡ true → instant s ≤ to_second u
to_second-later (rfc3339 n) u h = ground arith
to_second-later (malformed text) u h = omega arith

settle-IsLater :
    (t : Time) (item : Item) (r : LocalRow)
    → t ≤ instant r.updated_at
    → (q : LocalRow) × (settle item (some r) ≡ some q) × (t ≤ instant q.updated_at)
unfolding local_row
settle-IsLater t item r h = elim (Bool-cases (ltb (instant r.updated_at) item.updated_at)) [
  | inl later ↦ (
    local_row item false,
    rw later,
    omega (arith, to_second-later r.updated_at item.updated_at later, h),
  )
  | inr earlier ↦ (r, rw earlier, h)
]

settle_all-IsLater :
    (t : Time) (j : Text) (items : List Item) (r : LocalRow)
    → t ≤ instant r.updated_at
    → IsLater t (settle_all j items (some r))
settle_all-IsLater t j [] r h = h
settle_all-IsLater t j (item ∷ items) r h = elim (Bool-cases (item.id == j)) [
  | inl same ↦
      let (q, e, k) = settle-IsLater t item r h in rw (same, e) (settle_all-IsLater t j items q k)
  | inr differ ↦ rw differ (settle_all-IsLater t j items r h)
]

-- `ApplyRemote` removes no row and sets none back: under the key of a row there is a row after it,
-- no earlier than the row was. The rows are sound and the database answers.
pub apply_remote-IsLater :
    (items : List Item) (d : Device) (j : Text) (r : LocalRow)
    → IsUp d.env
    → IsLocal d.rows
    → find_local j d.rows ≡ some r
    → IsLater (instant r.updated_at) (find_local j (apply_remote items d).1.rows)
apply_remote-IsLater items d j r up h found =
    let (_, rows, _, _, _) = apply_remote-Leaves items d up h in
    rw (rows j, found) (settle_all-IsLater (instant r.updated_at) j items r (omega arith))

-- A local edit of a key is lost to a remote item of the same second, whichever of the two is the
-- later: if the item's time is not a whole second, `ApplyRemote` puts it in place of the row
-- just written by `Upsert`, and marks the row as clean. The rows are sound and the database
-- answers.
pub apply_remote-upsert_same_second :
    (edit remote : Item) (d : Device)
    → IsUp d.env
    → IsLocal d.rows
    → edit.id ≡ remote.id
    → remote.updated_at / 1000000000 ≡ edit.updated_at / 1000000000
    → 0 < remote.updated_at % 1000000000
    → find_local edit.id (apply_remote (remote ∷ []) (upsert edit true d).1).1.rows
      ≡ some (local_row remote false)
unfolding local_row
apply_remote-upsert_same_second edit remote d up h same second fraction =
    let (_, rows, up') = upsert_lem edit true d up in
    let sound : IsLocal (upsert edit true d).1.rows =
      rw rows (put_local-IsLocal (local_row edit true) d.rows (local_row-IsRow edit true) h) in
    let (_, after, _, _, _) = apply_remote-Leaves (remote ∷ []) (upsert edit true d).1 up' sound in
    let here : find_local edit.id (upsert edit true d).1.rows ≡ some (local_row edit true) =
      rw (rows, find_local-put_local edit.id (local_row edit true) d.rows, text_beq_refl edit.id)
        refl in
    let newer : ltb (to_second edit.updated_at) remote.updated_at ≡ true = ground arith in
    rw (after edit.id, here, same, text_beq_refl remote.id, newer) refl
