-- ===== src/Client/Sync.antt =====
-- client/service/service.go: `Register`, `Login` and `Sync`, over any API client. The state is the
-- device with the state of the API client.
pub mod Dirty
pub mod Laws
use goph_keeper.Base.{
  ℕ, Bool, true, false, ◌||◌, Option, none, some, List, [], ◌∷◌, map, Text, codes, is_empty,
  trim_space, if◌then◌else◌, Outcome, ok, err, Error, failure, is_error, err_sync_not_found, Run,
  continue, ◌>>=◌, ◌>>◌, return, raise,
}
use goph_keeper.Models.{Time}
use goph_keeper.Client.Items.{Item}
use goph_keeper.Client.Device.{Device, now}
use goph_keeper.Client.LocalStore.{list_dirty, mark_clean, apply_remote}
use goph_keeper.Client.SyncStore
use goph_keeper.Client.Api.{Api, SyncItem, to_sync_items, from_sync_items}

-- Both goroutines have ended: the error is that of the one that failed first.
abbrev pub joined : {A B : Type 0} → Outcome A → Outcome B → Outcome (A × B)
joined (err e) second = err e
joined (ok a) (err e) = err e
joined (ok a) (ok b) = ok (a, b)

abbrev pulled : {A B : Type 0} → Outcome (A × B) → Outcome A
pulled (ok (items, _)) = ok items
pulled (err e) = err e

abbrev pushed_and_pulled : {A B : Type 0} → Outcome (A × B) → Outcome B
pushed_and_pulled (ok (_, items)) = ok items
pushed_and_pulled (err e) = err e

-- `Load`, where no state counts as the zero time.
abbrev pub or_zero : Outcome Time → Outcome Time
or_zero (ok t) = ok t
or_zero (err e) = if is_error e err_sync_not_found then ok 0 else err e

abbrev pub load_since : Run Device Time
load_since d = let (since, d') = SyncStore.load d in (or_zero since, d')

unfoldable pub clean_pushed : List Item → Run Device (Unit {0})
clean_pushed dirty = if is_empty dirty then return tt else mark_clean (map (λ item. item.id) dirty)

module _ (A : Api) where
  abbrev pub State : Type 0
  State = Device × A.State

  abbrev pub on_device : {X : Type 0} → Run Device X → Run State X
  on_device m (d, s) = let (x, d') = m d in (x, (d', s))

  abbrev pub on_api : {X : Type 0} → Run A.State X → Run State X
  on_api m (d, s) = let (x, s') = m s in (x, (d, s'))

  abbrev checked : (Text → Text → Run A.State (Unit {0})) → Text → Text → Run State (Unit {0})
  checked request email password =
      if is_empty email || is_empty password
      then raise (failure (codes "email and password are required"))
      else on_api (request email password)

  unfoldable pub register : Text → Text → Run State (Unit {0})
  register email password = checked A.register (trim_space email) (trim_space password)

  unfoldable pub login : Text → Text → Run State (Unit {0})
  login email password = checked A.login (trim_space email) (trim_space password)

  -- The two requests of the group, the push only if there is something to push. They run at the
  -- same time: `push_first` says which of them the server meets first. A request that the other's
  -- failure cancels is one that fails by itself.
  unfoldable pub exchange : Bool → List Item → Time → Run A.State (List SyncItem)
  exchange push_first dirty since s =
      if is_empty dirty
      then A.sync_pull_encrypted since s
      else (if push_first
          then (let (applied, s') = A.sync_push_encrypted (to_sync_items dirty) s in
              let (items, s'') = A.sync_pull_encrypted since s' in
              (pushed_and_pulled (joined applied items), s''))
          else (let (items, s') = A.sync_pull_encrypted since s in
              let (applied, s'') = A.sync_push_encrypted (to_sync_items dirty) s' in
              (pulled (joined items applied), s'')))

  -- What `Sync` does after the requests.
  unfoldable pub settle : List Item → List SyncItem → Run Device (List SyncItem)
  settle dirty items = do
    apply_remote (from_sync_items items)
    clean_pushed dirty
    at ← now
    SyncStore.save at
    return items

  unfoldable pub sync : Bool → Run State (List SyncItem)
  unfolding exchange settle
  sync push_first = do
    since ← on_device load_since
    dirty ← on_device list_dirty
    items ← on_api (exchange push_first dirty since)
    on_device (settle dirty items)
