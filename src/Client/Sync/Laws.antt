-- ===== src/Client/Sync/Laws.antt =====
-- What `Sync` leaves on the device where a request fails, and where both succeed.
use mathlib.Core.Option
use mathlib.Core.Option.{none-ne-some, some-injective}
use goph_keeper.Base.{
  ℕ, ◌⊎◌, true, false, is_empty, if◌then◌else◌, suc, ◌≡◌, refl, ◌∙◌, ap, sym, Bool, text_eq, Option,
  none, some, List, [], ◌∷◌, map, Text, ok, err, Error, ok-injective, inl, inr, Option-cases,
}
use goph_keeper.Models.{Time}
use goph_keeper.Database.{IsUp}
use goph_keeper.Client.Items.{Item, format_time}
use goph_keeper.Client.LocalRows.{LocalRow}
use goph_keeper.Client.LocalRows.Views.{IsLocal, find_local, find_local-clean_rows, cleaned}
use goph_keeper.Client.Device.{Device, IsWritable, now}
use goph_keeper.Client.LocalStore.{list_dirty, mark_clean, apply_remote}
use goph_keeper.Client.LocalStore.Reads.{local_item}
use goph_keeper.Client.LocalStore.Lists.{list_dirty_lem}
use goph_keeper.Client.LocalStore.Remote.{settle_all, apply_remote-Leaves}
use goph_keeper.Client.SyncStore
use goph_keeper.Client.Api.{Api, SyncItem, to_sync_items, from_sync_items}
use goph_keeper.Client.Sync.{load_since, clean_pushed, exchange, settle, sync}
use goph_keeper.Client.Sync.Dirty.{clean, settle_all-IsCovered, cleaned-IsCovered, covered}

list_dirty_frame :
    (d : Device)
    → ((list_dirty d).1.rows ≡ d.rows)
      × ((list_dirty d).1.last_sync ≡ d.last_sync)
      × ((list_dirty d).1.disk ≡ d.disk)
      × ((list_dirty d).1.env.replies ≡ d.env.replies)
unfolding list_dirty
list_dirty_frame d = elim (Option-cases (d.env.replies d.env.calls).build) [
  | inr (e, bad) ↦ rw bad (refl, refl, refl, refl)
  | inl built ↦ elim (Option-cases (d.env.replies d.env.calls).exec) [
    | inr (e, bad) ↦ rw (built, bad) (refl, refl, refl, refl)
    | inl ran ↦ rw (built, ran) (refl, refl, refl, refl)
  ]
]

-- The device after `Sync` has read what it sends.
abbrev pub read_device : Device → Device
read_device d = (list_dirty (load_since d).1).1

pub read_frame :
    (d : Device)
    → ((read_device d).rows ≡ d.rows)
      × ((read_device d).last_sync ≡ d.last_sync)
      × ((read_device d).disk.errors ≡ d.disk.errors)
      × ((read_device d).env.replies ≡ d.env.replies)
unfolding SyncStore.load
read_frame d =
    let (rows, last, disk, replies) = list_dirty_frame (load_since d).1 in
    (rows, last, ap (λ x. x.errors) disk, replies)

module _ (A : Api) (dirty : List Item) (since : Time) (s : A.State) (e : Error) where
  -- The push is the first request that fails, or the pull after a push that succeeded; and the
  -- same with the pull in front.
  abbrev pub PushThenPull : Type 0
  PushThenPull =
      ((A.sync_push_encrypted (to_sync_items dirty) s).0 ≡ err e)
      ⊎ ((n : ℕ) × ((A.sync_push_encrypted (to_sync_items dirty) s).0 ≡ ok n)
          × ((A.sync_pull_encrypted since (A.sync_push_encrypted (to_sync_items dirty) s).1).0
              ≡ err e))

  abbrev pub PullThenPush : Type 0
  PullThenPush =
      ((A.sync_pull_encrypted since s).0 ≡ err e)
      ⊎ ((items : List SyncItem) × ((A.sync_pull_encrypted since s).0 ≡ ok items)
          × ((A.sync_push_encrypted (to_sync_items dirty) (A.sync_pull_encrypted since s).1).0
              ≡ err e))

  -- The error is that of the request that fails first; nothing is pushed if nothing is dirty.
  abbrev pub RequestFails : Bool → Type 0
  RequestFails push_first =
      ((dirty ≡ []) × ((A.sync_pull_encrypted since s).0 ≡ err e))
      ⊎ ((is_empty dirty ≡ false) × (if push_first then PushThenPull else PullThenPush))

  exchange_failed :
      (push_first : Bool)
      → RequestFails push_first
      → (exchange A push_first dirty since s).0 ≡ err e
  unfolding exchange
  exchange_failed push_first (inl (none_dirty, failed)) = rw none_dirty failed
  exchange_failed true (inr (some_dirty, inl failed)) = rw (some_dirty, failed) refl
  exchange_failed true (inr (some_dirty, inr (n, pushed, failed))) =
      rw (some_dirty, pushed, failed) refl
  exchange_failed false (inr (some_dirty, inl failed)) = rw (some_dirty, failed) refl
  exchange_failed false (inr (some_dirty, inr (items, got, failed))) =
      rw (some_dirty, got, failed) refl

-- If a request of `Sync` fails, in either order, `Sync` returns the error of the one that failed
-- first and leaves the local rows and the time of the last synchronisation as they were. The push
-- is a request only if a row is dirty. The time and the dirty rows were read.
pub sync_failed :
    (A : Api) (push_first : Bool) (d : Device) (s : A.State) (since : Time) (dirty : List Item)
    (e : Error)
    → (load_since d).0 ≡ ok since
    → (list_dirty (load_since d).1).0 ≡ ok dirty
    → RequestFails A dirty since s e push_first
    → ((sync A push_first (d, s)).0 ≡ err e)
      × ((sync A push_first (d, s)).1.0.rows ≡ d.rows)
      × ((sync A push_first (d, s)).1.0.last_sync ≡ d.last_sync)
unfolding sync
sync_failed A push_first d s since dirty e loaded listed fails =
    let failed = exchange_failed A dirty since s e push_first fails in
    let (rows, last, _, _) = read_frame d in
    (
      rw (loaded, listed, failed) refl,
      rw (loaded, listed, failed) rows,
      rw (loaded, listed, failed) last,
    )

untouched : (row : Option LocalRow) → row ≡ Option.map (cleaned []) row
untouched none = refl
untouched (some r) = refl

pub clean_pushed_lem :
    (dirty : List Item) (d : Device)
    → IsUp d.env
    → ((clean_pushed dirty d).0 ≡ ok tt)
      × ((j : Text)
          → find_local j (clean_pushed dirty d).1.rows
            ≡ Option.map (cleaned (map (λ item. item.id) dirty)) (find_local j d.rows))
      × ((clean_pushed dirty d).1.disk ≡ d.disk)
unfolding mark_clean clean_pushed
clean_pushed_lem [] d up = (refl, λ j. untouched (find_local j d.rows), refl)
clean_pushed_lem (item ∷ dirty) d up = (
  rw (up d.env.calls) refl,
  λ j. rw (up d.env.calls) (find_local-clean_rows j (item.id ∷ map (λ x. x.id) dirty) d.rows),
  rw (up d.env.calls) refl,
)

pub save_lem :
    (t : Time) (d : Device)
    → IsWritable d
    → ((SyncStore.save t d).0 ≡ ok tt)
      × ((SyncStore.save t d).1.rows ≡ d.rows)
      × ((SyncStore.save t d).1.last_sync ≡ some (format_time t))
unfolding SyncStore.save
save_lem t d up =
    let (a, b) : (d.disk.errors d.disk.operations ≡ none)
        × (d.disk.errors (suc d.disk.operations) ≡ none) =
      (up d.disk.operations, up (suc d.disk.operations)) in
    (rw (a, b) refl, rw (a, b) refl, rw (a, b) refl)

-- The requests' result, given the rows that were dirty.
pub tidy :
    (j : Text) (d : Device) (dirty items : List Item)
    → IsUp d.env
    → IsLocal d.rows
    → (list_dirty (load_since d).1).0 ≡ ok dirty
    → Option.map (cleaned (map (λ item. item.id) dirty)) (settle_all j items (find_local j d.rows))
      ≡ Option.map clean (settle_all j items (find_local j d.rows))
unfolding SyncStore.load
tidy j d dirty items up local listed =
    let (rows, same, perm, _) = list_dirty_lem (load_since d).1 up local in
    let e : map local_item rows ≡ dirty = ok-injective _ dirty (rw same at listed) in
    rw (sym e) (
      cleaned-IsCovered _ j _
        (settle_all-IsCovered _ j items (find_local j d.rows) (covered j d.rows rows perm)))

-- `Sync` returns what it pulled if both requests succeed, in either order. It then leaves under each
-- key what the pulled items leave there one after the other, each if there is no row or the item is
-- later than the row, and every row clean. The rows are sound, the database answers and the files
-- are read and written without an error.
pub find_local-sync :
    (A : Api) (push_first : Bool) (d : Device) (s : A.State) (since : Time) (dirty : List Item)
    (items : List SyncItem)
    → IsUp d.env
    → IsLocal d.rows
    → IsWritable d
    → (load_since d).0 ≡ ok since
    → (list_dirty (load_since d).1).0 ≡ ok dirty
    → (exchange A push_first dirty since s).0 ≡ ok items
    → ((sync A push_first (d, s)).0 ≡ ok items)
      × ((j : Text)
          → find_local j (sync A push_first (d, s)).1.0.rows
            ≡ Option.map clean (settle_all j (from_sync_items items) (find_local j d.rows)))
unfolding sync settle
find_local-sync A push_first d s since dirty items up local writable loaded listed exchanged =
    let (rows, _, disk, replies) = read_frame d in
    let d1 = read_device d in
    let up1 : IsUp d1.env = rw replies up in
    let (applied, settled, _, up2, disk2) =
      apply_remote-Leaves (from_sync_items items) d1 up1 (rw rows local) in
    let d2 = (apply_remote (from_sync_items items) d1).1 in
    let (tidied, cleaned_rows, disk3) = clean_pushed_lem dirty d2 up2 in
    let d2' = (clean_pushed dirty d2).1 in
    let d3 = (now d2').1 in
    let writable3 : IsWritable d3 = λ n. rw (disk3, disk2, disk) (writable n) in
    let (saved, table, _) = save_lem (d2'.env.clock d2'.env.ticks) d3 writable3 in
    (
      rw (loaded, listed, exchanged, applied, tidied, saved) refl,
      λ j.
          rw (loaded, listed, exchanged, applied, tidied, saved, table)
            (cleaned_rows j
              ∙ ap (λ x. Option.map (cleaned (map (λ item. item.id) dirty)) x) (settled j)
              ∙ (rw rows (tidy j d dirty (from_sync_items items) up local listed))),
    )
