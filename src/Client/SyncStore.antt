-- ===== src/Client/SyncStore.antt =====
-- client/store/sync_store.go: the file `last_sync`.
use goph_keeper.Base.{
  ◌≤◌, suc, ◌≡◌, refl, arith, is_blank, if◌then◌else◌, Option, none, some, Outcome, ok, err, Error,
  sentinel, err_sync_not_found, Run, ◌>>=◌, ◌>>◌,
}
use goph_keeper.Models.{Time}
use goph_keeper.Client.Items.{Stamp, rfc3339, malformed, format_time, parse_time, to_second}
use goph_keeper.Client.Device.{Device, next_error, plain, IsWritable}

unfoldable pub save : Time → Run Device (Unit {0})
save t = do
  mkdir ← next_error
  plain mkdir
  write ← next_error
  plain write
  λ d. (ok tt, record d { last_sync = some (format_time t) })

abbrev parsed : Stamp → Outcome Time
parsed (rfc3339 n) = parse_time (rfc3339 n)
parsed (malformed text) =
    if is_blank text then err (sentinel err_sync_not_found) else parse_time (malformed text)

-- The text of the file without the spaces around it; a blank file counts as none.
abbrev read : Option Error → Option Stamp → Outcome Time
read none none = err (sentinel err_sync_not_found)
read none (some stamp) = parsed stamp
read (some e) file = err e

unfoldable pub load : Run Device Time
load = do e ← next_error; λ d. (read e d.last_sync, d)

-- `Load` after a `Save` that succeeded returns the time saved, cut to the second, if the file is
-- read without an error; what is loaded is never later than what was saved.
pub load-save_time :
    (t : Time) (d : Device)
    → IsWritable d
    → ((save t d).0 ≡ ok tt) × ((load (save t d).1).0 ≡ ok (to_second t)) × (to_second t ≤ t)
unfolding save load
load-save_time t d up = (
  rw (up d.disk.operations, up (suc d.disk.operations)) refl,
  rw (up d.disk.operations, up (suc d.disk.operations), up (suc (suc d.disk.operations))) refl,
  omega arith,
)
