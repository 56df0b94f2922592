-- ===== src/Service/Postgres/Pushes.antt =====
-- A push to the Postgres store that answers: which rows the table holds afterwards.
use goph_keeper.Base.{
  ℕ, suc, ◌+◌, ◌≡◌, refl, ap, sym, subst, text_beq_iff, ◌∙◌, ◌≢◌, false, none, some, List, [], ◌∷◌,
  map, Text, text_eq, ◌==◌, if◌then◌else◌, length, All, ok, Bool-cases, inl, inr, arith,
}
use goph_keeper.Models.{Time, Secret, is_zero}
use goph_keeper.Database.{IsUp}
use goph_keeper.Repository.Secrets.{SecretRow, supersedes, put_row}
use goph_keeper.Repository.Secrets.Merge.{find_row, find_row-put_row}
use goph_keeper.Repository.Secrets.Merge.Convergence.{put_all}
use goph_keeper.Repository.Server.{Server}
use goph_keeper.Repository.PostgresSecrets.Upserts.{row_of, upsert_done}
use goph_keeper.Service.Sync.{or_now, push_item, push_from, push}
use goph_keeper.Service.Sync.Push.{IsPushable}
use goph_keeper.Service.Postgres.{postgres_store}

-- The readings of the clock that an item takes: one for each time that is zero.
abbrev pub readings : Time → ℕ → ℕ
readings t n = if is_zero t then suc n else n

abbrev pub or_clock : (ℕ → Time) → ℕ → Time → Time
or_clock clock n t = if is_zero t then clock n else t

-- The item as it is stored, with the clock at its `n`-th reading.
abbrev pub stamped : Text → (ℕ → Time) → ℕ → Secret → Secret
stamped owner_id clock n item = record item {
  created_at = or_clock clock n item.created_at;
  updated_at = or_clock clock (readings item.created_at n) item.updated_at;
  owner_id = owner_id;
}

abbrev pub stamped_all : Text → (ℕ → Time) → ℕ → List Secret → List Secret
stamped_all owner_id clock n [] = []
stamped_all owner_id clock n (item ∷ items) =
    stamped owner_id clock n item
    ∷ stamped_all owner_id clock (readings item.updated_at (readings item.created_at n)) items

or_now_up :
    (t : Time) (w : Server)
    → or_now postgres_store t w ≡ (
      ok (or_clock w.env.clock w.env.ticks t),
      record w { env = record w.env { ticks = readings t w.env.ticks } },
    )
unfolding or_now
or_now_up t w = elim (Bool-cases (is_zero t)) [
  | inl zero_time ↦ rw zero_time
  | inr given ↦ rw given
]

abbrev pub pushed : Text → Secret → Server → Server
pushed owner_id item w = record w {
  secrets = put_row (row_of (stamped owner_id w.env.clock w.env.ticks item)) w.secrets;
  env = record w.env {
    calls = suc w.env.calls;
    ticks = readings item.updated_at (readings item.created_at w.env.ticks);
  };
}

pub push_item_up :
    (owner_id : Text) (item : Secret) (w : Server)
    → IsUp w.env
    → IsPushable item
    → item.payload ≢ none
    → push_item postgres_store owner_id item w ≡ (ok tt, pushed owner_id item w)
unfolding push_item
push_item_up owner_id item w up (named, typed) p = rw (
  named,
  typed,
  or_now_up item.created_at w,
  or_now_up item.updated_at,
  upsert_done (stamped owner_id w.env.clock w.env.ticks item)
      (record w {
        env = record w.env {
          ticks = readings item.updated_at (readings item.created_at w.env.ticks);
        };
      })
      up p,
)

push_from_up :
    (owner_id : Text) (n : ℕ) (items : List Secret) (w : Server)
    → IsUp w.env
    → All IsPushable items
    → All (λ s. s.payload ≢ none) items
    → let after = push_from postgres_store owner_id n items w in
      (after.0 ≡ ok (n + length items))
      × (after.1.secrets
          ≡ put_all (map row_of (stamped_all owner_id w.env.clock w.env.ticks items)) w.secrets)
unfolding push_from
push_from_up owner_id n [] w up h p = (ground arith, refl)
push_from_up owner_id n (item ∷ items) w up (v, h) (p, q) =
    let (count, rows) = push_from_up owner_id (n + 1) items (pushed owner_id item w) up h q in
    rw (push_item_up owner_id item w up v p) (count ∙ ap ok (omega arith), rows)

-- On a database that answers, a push of items that are all accepted and all carry a payload
-- succeeds, reports their number, and leaves the table as the upserts of the items in order, each
-- under the caller's owner and with the clock's time in place of a zero time.
pub push_up :
    (owner_id : Text) (items : List Secret) (w : Server)
    → IsUp w.env
    → All IsPushable items
    → All (λ s. s.payload ≢ none) items
    → ((push postgres_store owner_id items w).0 ≡ ok (length items))
      × ((push postgres_store owner_id items w).1.secrets
          ≡ put_all (map row_of (stamped_all owner_id w.env.clock w.env.ticks items)) w.secrets)
unfolding push
push_up owner_id items w up h p =
    let (count, rows) = push_from_up owner_id 0 items w up h p in
    (count ∙ ap ok (omega arith), rows)

-- An item whose key holds a row of another owner, or a row that is as new in microseconds or
-- newer, is counted as applied although no key holds another row afterwards.
pub push_stale :
    (owner_id : Text) (item : Secret) (w : Server) (old : SecretRow)
    → IsUp w.env
    → IsPushable item
    → item.payload ≢ none
    → find_row item.id w.secrets ≡ some old
    → supersedes (row_of (stamped owner_id w.env.clock w.env.ticks item)) old ≡ false
    → ((push postgres_store owner_id (item ∷ []) w).0 ≡ ok 1)
      × ((j : Text)
          → find_row j (push postgres_store owner_id (item ∷ []) w).1.secrets
            ≡ find_row j w.secrets)
push_stale owner_id item w old up v p held stale =
    let (count, rows) = push_up owner_id (item ∷ []) w up (v, tt) (p, tt) in
    (
      count,
      λ j. rw rows (
          find_row-put_row j _ w.secrets ∙ elim (Bool-cases (item.id == j)) [
            | inl same ↦
                rw (same, held, stale)
                  (sym (
                    subst (λ k. find_row k w.secrets ≡ some old) ((text_beq_iff item.id j).0 same)
                      held))
            | inr differ ↦ rw differ
          ]),
    )
