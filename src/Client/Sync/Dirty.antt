-- ===== src/Client/Sync/Dirty.antt =====
-- The rows that `ListDirty` gave are those that `MarkClean` makes clean.
use mathlib.Core.List.{Perm}
use mathlib.Core.Logic.{∥∥₁_elim}
use mathlib.Core.Option
use mathlib.Core.Option.{none-ne-some, some-injective}
use mathlib.Core.Bool.{false≢true}
use mathlib.Core.List.{Permᴰ}
use goph_keeper.Base.{
  ltb, ◌≡◌, refl, ◌∙◌, ap, sym, subst, Bool, true, false, ◌||◌, ◌==◌, text_eq, text_beq_iff, Option,
  none, some, List, [], ◌∷◌, map, Text, contains, keep, inl, inr, Bool-cases, Option-cases,
}
use goph_keeper.Client.Items.{Item}
use goph_keeper.Client.LocalRows.{LocalRow, LocalRows, local_row}
use goph_keeper.Client.LocalRows.Views.{find_local, cleaned}
use goph_keeper.Client.LocalStore.Reads.{local_item, instant}
use goph_keeper.Client.LocalStore.Remote.{settle_all, apply_remote-Leaves}
use goph_keeper.Client.LocalStore.Remote

-- A row of a list has the key.
abbrev has_key : Text → LocalRows → Bool
has_key j rows = contains (map (λ item. item.id) (map local_item rows)) j

swap_tests : (a b c : Bool) → a || (b || c) ≡ (b || (a || c))
swap_tests true true c = refl
swap_tests true false c = refl
swap_tests false b c = refl

has_key-Permᴰ : (j : Text) {xs ys : LocalRows} → Permᴰ xs ys → has_key j xs ≡ has_key j ys
has_key-Permᴰ j Permᴰ.nil = refl
has_key-Permᴰ j (Permᴰ.cons {a} {b} {l₁} {l₂} e d) = rw (e, has_key-Permᴰ j d) refl
has_key-Permᴰ j (Permᴰ.swap {a} {b} {a'} {b'} {l} e e') =
    rw (e, e') (swap_tests (b'.id == j) (a'.id == j) (has_key j l))
has_key-Permᴰ j (Permᴰ.trans d d') = has_key-Permᴰ j d ∙ has_key-Permᴰ j d'

bool_set : IsSet Bool
bool_set = hlevel

has_key-perm : (j : Text) (xs ys : LocalRows) → Perm xs ys → has_key j xs ≡ has_key j ys
has_key-perm j xs ys perm = ∥∥₁_elim perm (bool_set _ _) (λ d. has_key-Permᴰ j d)

has_key-dirty :
    (j : Text) (rows : LocalRows) (r : LocalRow)
    → find_local j rows ≡ some r
    → r.dirty ≡ true
    → has_key j (keep (λ q. q.dirty) rows) ≡ true
unfolding find_local keep
has_key-dirty j [] r found dirty = absurd (none-ne-some r found)
has_key-dirty j (q ∷ rows) r found dirty = elim (Bool-cases (q.id == j)) [
  | inl same ↦
      let here : q ≡ r = some-injective q r (rw same at found) in
      rw (ap (λ x. x.dirty) here ∙ dirty, same) refl
  | inr differ ↦
      let rest = has_key-dirty j rows r (rw differ at found) dirty in
      elim (Bool-cases q.dirty) [ inl d ↦ rw (d, differ) rest | inr d ↦ rw d rest ]
]

abbrev pub clean : LocalRow → LocalRow
clean r = record r { dirty = false }

-- A row that cleaning will find, or that is clean.
abbrev pub IsCovered : List Text → Text → Option LocalRow → Type 0
IsCovered keys j none = Unit
IsCovered keys j (some r) = (r.id ≡ j) × (r.dirty ≡ true → contains keys j ≡ true)

settle-IsCovered :
    (keys : List Text) (item : Item) (row : Option LocalRow)
    → IsCovered keys item.id row
    → IsCovered keys item.id (Remote.settle item row)
unfolding local_row
settle-IsCovered keys item none h = (refl, λ e. absurd (false≢true e))
settle-IsCovered keys item (some r) h =
    elim (Bool-cases (ltb (instant r.updated_at) item.updated_at)) [
      | inl later ↦ rw later (refl, λ e. absurd (false≢true e))
      | inr earlier ↦ rw earlier h
    ]

pub settle_all-IsCovered :
    (keys : List Text) (j : Text) (items : List Item) (row : Option LocalRow)
    → IsCovered keys j row
    → IsCovered keys j (settle_all j items row)
settle_all-IsCovered keys j [] row h = h
settle_all-IsCovered keys j (item ∷ items) row h = elim (Bool-cases (item.id == j)) [
  | inl same ↦
      let e = (text_beq_iff item.id j).0 same in
      rw same (
        settle_all-IsCovered keys j items _ (
          subst (λ x. IsCovered keys x (Remote.settle item row)) e
            (settle-IsCovered keys item row (subst (λ x. IsCovered keys x row) (sym e) h))))
  | inr differ ↦ rw differ (settle_all-IsCovered keys j items row h)
]

pub cleaned-IsCovered :
    (keys : List Text) (j : Text) (row : Option LocalRow)
    → IsCovered keys j row
    → Option.map (cleaned keys) row ≡ Option.map clean row
cleaned-IsCovered keys j none h = refl
cleaned-IsCovered keys j (some r) (same, h) = elim (Bool-cases r.dirty) [
  | inl dirty ↦ rw (same, h dirty) refl
  | inr tidy ↦ elim (Bool-cases (contains keys r.id)) [
    | inl hit ↦ rw hit refl
    | inr miss ↦ rw miss (ap (λ b. some (record r { dirty = b })) tidy)
  ]
]

find_local-id : (j : Text) (rows : LocalRows) (r : LocalRow) → find_local j rows ≡ some r → r.id ≡ j
unfolding find_local
find_local-id j [] r found = absurd (none-ne-some r found)
find_local-id j (q ∷ rows) r found = elim (Bool-cases (q.id == j)) [
  | inl same ↦
      subst (λ x. x.id ≡ j) (some-injective q r (rw same at found)) ((text_beq_iff q.id j).0 same)
  | inr differ ↦ find_local-id j rows r (rw differ at found)
]

pub covered :
    (j : Text) (rows listed : LocalRows)
    → Perm listed (keep (λ q. q.dirty) rows)
    → IsCovered (map (λ item. item.id) (map local_item listed)) j (find_local j rows)
covered j rows listed perm = elim (Option-cases (find_local j rows)) [
  | inl absent ↦ rw absent tt
  | inr (r, found) ↦ rw found (
    find_local-id j rows r found,
    λ dirty. has_key-perm j listed _ perm ∙ has_key-dirty j rows r found dirty,
  )
]
