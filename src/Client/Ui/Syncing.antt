-- ===== src/Client/Ui/Syncing.antt =====
-- client/ui/ui.go: the synchronisation of the terminal interface, beside that of the service.
use mathlib.Core.Option
use goph_keeper.Base.{
  ◌≡◌, refl, sym, ap, ◌∙◌, inl, inr, true, Option, none, some, List, [], ◌∷◌, map, length, Text,
  text_eq, ◌==◌, ltb, ok, ok-ne-err, Outcome-cases, Bool-cases,
}
use goph_keeper.Models.{Time}
use goph_keeper.Database.{IsUp}
use goph_keeper.Client.Items.{Item}
use goph_keeper.Client.LocalRows.{LocalRow, local_row}
use goph_keeper.Client.LocalRows.Views.{IsLocal, find_local}
use goph_keeper.Client.Device.{Device, IsWritable, now}
use goph_keeper.Client.LocalStore.{list_dirty, apply_remote}
use goph_keeper.Client.LocalStore.Reads.{instant}
use goph_keeper.Client.LocalStore.Lists.{mark_clean_lem}
use goph_keeper.Client.LocalStore.Remote
use goph_keeper.Client.LocalStore.Remote.{settle_all, apply_remote-Leaves}
use goph_keeper.Client.Api.{Api, SyncItem, from_sync_items, to_sync_items}
use goph_keeper.Client.Sync.{load_since, clean_pushed, exchange, sync}
use goph_keeper.Client.Sync.Dirty.{clean}
use goph_keeper.Client.Sync.Laws.{
  read_device, read_frame, clean_pushed_lem, save_lem, tidy, find_local-sync,
}
use goph_keeper.Client.Ui.{push_dirty, apply_pulled, do_sync}

settle-clean :
    (item : Item) (row : Option LocalRow)
    → Remote.settle item (Option.map clean row) ≡ Option.map clean (Remote.settle item row)
unfolding local_row
settle-clean item none = refl
settle-clean item (some r) = elim (Bool-cases (ltb (instant r.updated_at) item.updated_at)) [
  | inl later ↦ rw later refl
  | inr earlier ↦ rw earlier refl
]

settle_all-clean :
    (j : Text) (items : List Item) (row : Option LocalRow)
    → settle_all j items (Option.map clean row) ≡ Option.map clean (settle_all j items row)
settle_all-clean j [] row = refl
settle_all-clean j (item ∷ items) row = elim (Bool-cases (item.id == j)) [
  | inl same ↦ rw (same, settle-clean item row) (settle_all-clean j items (Remote.settle item row))
  | inr differ ↦ rw differ (settle_all-clean j items row)
]

clean_pushed_sound :
    (dirty : List Item) (d : Device)
    → IsUp d.env
    → IsLocal d.rows
    → IsLocal (clean_pushed dirty d).1.rows × IsUp (clean_pushed dirty d).1.env
unfolding clean_pushed
clean_pushed_sound [] d up local = (local, up)
clean_pushed_sound (item ∷ dirty) d up local =
    let (_, _, sound, up') = mark_clean_lem (map (λ x. x.id) (item ∷ dirty)) d up local in
    (sound, up')

module _ (A : Api) where
  -- The push that `exchange` makes before the pull, with the cleaning that follows it here.
  push_dirty_lem :
      (dirty : List Item) (since : Time) (items : List SyncItem) (d : Device) (s : A.State)
      → (exchange A true dirty since s).0 ≡ ok items
      → (s' : A.State) × (push_dirty A dirty (d, s)
          ≡ ((clean_pushed dirty d).0, ((clean_pushed dirty d).1, s')))
        × ((A.sync_pull_encrypted since s').0 ≡ ok items)
  unfolding push_dirty clean_pushed exchange
  push_dirty_lem [] since items d s done = (s, refl, done)
  push_dirty_lem (item ∷ dirty) since items d s done =
      let pushed = A.sync_push_encrypted (to_sync_items (item ∷ dirty)) s in
      elim (Outcome-cases pushed.0) [
        | inr (e, bad) ↦ absurd (ok-ne-err items e (sym (rw bad at done)))
        | inl (n, sent) ↦ elim (Outcome-cases (A.sync_pull_encrypted since pushed.1).0) [
          | inr (e, bad) ↦ absurd (ok-ne-err items e (sym (rw (sent, bad) at done)))
          | inl (got, pulled) ↦ (pushed.1, rw sent refl, pulled ∙ (rw (sent, pulled) at done))
        ]
      ]

  find_local-do_sync :
      (d : Device) (s : A.State) (since : Time) (dirty : List Item) (items : List SyncItem)
      → IsUp d.env
      → IsLocal d.rows
      → IsWritable d
      → (load_since d).0 ≡ ok since
      → (list_dirty (load_since d).1).0 ≡ ok dirty
      → (exchange A true dirty since s).0 ≡ ok items
      → ((do_sync A (d, s)).0 ≡ ok (length items))
        × ((j : Text)
            → find_local j (do_sync A (d, s)).1.0.rows
              ≡ Option.map clean (settle_all j (from_sync_items items) (find_local j d.rows)))
  unfolding do_sync apply_pulled
  find_local-do_sync d s since dirty items up local writable loaded listed exchanged =
      let (rows, _, disk, replies) = read_frame d in
      let d1 = read_device d in
      let up1 : IsUp d1.env = rw replies up in
      let (s', pushed, pulled) = push_dirty_lem dirty since items d1 s exchanged in
      let (tidied, cleaned_rows, disk2) = clean_pushed_lem dirty d1 up1 in
      let d2 = (clean_pushed dirty d1).1 in
      let (sound2, up2) = clean_pushed_sound dirty d1 up1 (rw rows local) in
      let (applied, settled, _, up3, disk3) =
        apply_remote-Leaves (from_sync_items items) d2 up2 sound2 in
      let d3 = (apply_remote (from_sync_items items) d2).1 in
      let writable3 : IsWritable (now d3).1 = λ n. rw (disk3, disk2, disk) (writable n) in
      let (saved, table, _) = save_lem (d3.env.clock d3.env.ticks) (now d3).1 writable3 in
      (
        rw (loaded, listed, pushed, tidied, pulled, applied, saved) refl,
        λ j.
            rw (loaded, listed, pushed, tidied, pulled, applied, saved, table)
              (settled j
                ∙ ap (λ row. settle_all j (from_sync_items items) row)
                    (cleaned_rows j ∙ (rw rows (tidy j d dirty [] up local listed)))
                ∙ settle_all-clean j (from_sync_items items) (find_local j d.rows)),
      )

  -- The synchronisation of the interface and that of the service do the same where both requests
  -- succeed, the push first: each reports what was pulled, and they leave the same row under every
  -- key, although the interface marks what it pushed as clean before it pulls. The rows are sound,
  -- the database answers and the files are read and written without an error.
  pub do_sync-sync :
      (d : Device) (s : A.State) (since : Time) (dirty : List Item) (items : List SyncItem)
      → IsUp d.env
      → IsLocal d.rows
      → IsWritable d
      → (load_since d).0 ≡ ok since
      → (list_dirty (load_since d).1).0 ≡ ok dirty
      → (exchange A true dirty since s).0 ≡ ok items
      → ((do_sync A (d, s)).0 ≡ ok (length items))
        × ((sync A true (d, s)).0 ≡ ok items)
        × ((j : Text)
            → find_local j (do_sync A (d, s)).1.0.rows ≡ find_local j (sync A true (d, s)).1.0.rows)
  do_sync-sync d s since dirty items up local writable loaded listed exchanged =
      let (done, rows) =
        find_local-do_sync d s since dirty items up local writable loaded listed exchanged in
      let (done', rows') =
        find_local-sync A true d s since dirty items up local writable loaded listed exchanged in
      (done, done', λ j. rows j ∙ sym (rows' j))
