-- ===== src/Repository/Memory.antt =====
-- repository/memory_store.go and memory_user_store.go. The mutex makes each method atomic.
pub mod Laws
use goph_keeper.Base.{
  ℕ, suc, Option, none, some, List, [], ◌∷◌, Text, Bytes, Comparable, ◌==◌, text_eq, if◌then◌else◌,
  Outcome, ok, err, Error, sentinel, err_user_exists, err_user_not_found, Run,
}
use goph_keeper.Models.{Time, User}
use goph_keeper.Repository.Users.{UserStore}

-- The map `items`.
abbrev pub Items : Type 0 → Type 0 → Type 0
Items K T = List (K × T)

unfoldable pub lookup : {K T : Type 0} ⦃e : Comparable K⦄ → K → Items K T → Option T
lookup key [] = none
lookup key ((k, item) ∷ items) = if k == key then some item else lookup key items

-- The methods of `MemoryStore[T, K]`, over its fields `keyFn`, `errExists` and `errNotFound`.
module _ {T K : Type 0} ⦃e : Comparable K⦄ (key_fn : T → K) (err_exists err_missing : Error) where
  unfoldable pub create : T → Run (Items K T) T
  create item items = elim (lookup (key_fn item) items) [
    | some _ ↦ (err err_exists, items)
    | none ↦ (ok item, (key_fn item, item) ∷ items)
  ]

  unfoldable pub get : K → Run (Items K T) T
  get key items = elim (lookup key items) [
    | none ↦ (err err_missing, items)
    | some item ↦ (ok item, items)
  ]

-- A process that keeps its users in memory.
pub record Process : Type 0 where
  pub items : Items Text User
  pub clock : ℕ → Time
  pub ticks : ℕ
  pub random : ℕ → Outcome Bytes
  pub draws : ℕ

-- A method of the map as a step of the process.
abbrev pub within : {A : Type 0} → Run (Items Text User) A → Run Process A
within m w = let (result, items) = m w.items in (result, record w { items = items })

-- `NewMemoryUserStore` and the methods of `MemoryUserStore`.
abbrev pub user_key : User → Text
user_key u = u.email

abbrev pub memory_store : UserStore
memory_store = record {
  State = Process;
  create = λ u. within (create user_key (sentinel err_user_exists) (sentinel err_user_not_found) u);
  get_by_email =
      λ e. within (get user_key (sentinel err_user_exists) (sentinel err_user_not_found) e);
  now_fn = λ w. (ok (w.clock w.ticks), record w { ticks = suc w.ticks });
  random_fn = λ w. (w.random w.draws, record w { draws = suc w.draws });
}
