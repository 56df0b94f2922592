-- ===== src/Client/Api.antt =====
-- client/api/client.go as the service uses it: the items of the protocol, and the calls.
use goph_keeper.Base.{ℕ, Bool, Text, List, map, Run}
use goph_keeper.Models.{Time, Meta, Payload}
use goph_keeper.Client.Items.{Item}

pub record SyncItem : Type 0 where
  pub id : Text
  pub type : Text
  pub payload : Payload
  pub meta : Meta
  pub deleted : Bool
  pub created_at : Time
  pub updated_at : Time

-- The calls of `*api.Client` that the service makes, on any state.
pub record Api : Type 1 where
  pub State : Type 0
  pub register : Text → Text → Run State (Unit {0})
  pub login : Text → Text → Run State (Unit {0})
  pub sync_push_encrypted : List SyncItem → Run State ℕ
  pub sync_pull_encrypted : Time → Run State (List SyncItem)

abbrev pub to_sync_item : Item → SyncItem
to_sync_item it = record {
  id = it.id;
  type = it.type;
  payload = it.payload;
  meta = it.meta;
  deleted = it.deleted;
  created_at = it.created_at;
  updated_at = it.updated_at;
}

abbrev pub from_sync_item : SyncItem → Item
from_sync_item it = record {
  id = it.id;
  type = it.type;
  payload = it.payload;
  meta = it.meta;
  deleted = it.deleted;
  created_at = it.created_at;
  updated_at = it.updated_at;
}

abbrev pub to_sync_items : List Item → List SyncItem
to_sync_items items = map to_sync_item items

abbrev pub from_sync_items : List SyncItem → List Item
from_sync_items items = map from_sync_item items
