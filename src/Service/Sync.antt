-- ===== src/Service/Sync.antt =====
-- service/sync.go, over any store of secrets.
pub mod Push
use goph_keeper.Base.{
  ℕ, suc, ◌+◌, Bool, true, false, not, ◌&&◌, List, [], ◌∷◌, Text, is_blank, if◌then◌else◌, Outcome,
  Run, ◌>>=◌, ◌>>◌, continue, return, raise, sentinel, err_sync_invalid_id, err_sync_invalid_type,
}
use goph_keeper.Models.{Time, Secret, is_zero}
use goph_keeper.Service.Secrets.{SecretStore}

module _ (S : SecretStore) where
  unfoldable pub pull : Text → Time → Run S.State (List Secret)
  pull owner_id since = S.list_updated_since owner_id since

  -- `if t.IsZero() { t = s.nowFn() }`
  unfoldable pub or_now : Time → Run S.State Time
  or_now t = if is_zero t then S.now_fn else return t

  -- The body of the loop of `Push`.
  unfoldable pub push_item : Text → Secret → Run S.State (Unit {0})
  push_item owner_id item =
      if is_blank item.id
      then raise (sentinel err_sync_invalid_id)
      else if not item.deleted && is_blank item.type
      then raise (sentinel err_sync_invalid_type)
      else do
        created_at ← or_now item.created_at
        updated_at ← or_now item.updated_at
        S.upsert
            (record item { created_at = created_at; updated_at = updated_at; owner_id = owner_id })
        return tt

  unfoldable pub push_from : Text → ℕ → List Secret → Run S.State ℕ
  push_from owner_id applied [] = return applied
  push_from owner_id applied (item ∷ items) = do
    push_item owner_id item
    push_from owner_id (applied + 1) items

  unfoldable pub push : Text → List Secret → Run S.State ℕ
  unfolding push_from
  push owner_id items = push_from owner_id 0 items
