-- ===== src/Repository/Secrets/Merge/Convergence.antt =====
-- The order in which an owner's rows arrive does not matter.
use native.Mathlib.Decide.{ℕ_discrete}
use mathlib.Core.List.{Permᴰ, Memᴰ}
use goph_keeper.Base.{
  ◌≡◌, refl, subst, ◌∙◌, Option, none, some, List, [], ◌∷◌, Text, text_eq, text_beq_iff, ◌==◌,
  arith, Bool-cases, inl, inr, All, All-of_members, All-at, All-perm, ◌≢◌,
}
use goph_keeper.Repository.Secrets.{Secrets, SecretRow, put_row}
use goph_keeper.Repository.Secrets.Merge.{find_row, merge, find_row-put_row}

-- Rows of one owner that differ have different keys or different times.
pub record Compatible (a b : SecretRow) : Type 0 where
  pub same_owner : a.owner_id ≡ b.owner_id
  pub no_tie : a.id ≡ b.id → a.updated_at ≡ b.updated_at → a ≡ b

merge_comm_distinct :
    (a b : SecretRow) (o : Option SecretRow)
    → a.owner_id ≡ b.owner_id
    → a.updated_at ≢ b.updated_at
    → merge a (some (merge b o)) ≡ merge b (some (merge a o))
merge_comm_distinct a b none w d =
    ground (arith, text_beq_iff a.owner_id b.owner_id, text_beq_iff b.owner_id a.owner_id)
merge_comm_distinct a b (some old) w d = ground (
  arith,
  text_beq_iff a.owner_id b.owner_id,
  text_beq_iff b.owner_id a.owner_id,
  text_beq_iff old.owner_id a.owner_id,
  text_beq_iff old.owner_id b.owner_id,
)

merge_comm :
    (a b : SecretRow) (o : Option SecretRow)
    → Compatible a b
    → a.id ≡ b.id
    → merge a (some (merge b o)) ≡ merge b (some (merge a o))
merge_comm a b o c e = elim (ℕ_discrete a.updated_at b.updated_at) [
  | yes t ↦ subst (λ x. merge a (some (merge x o)) ≡ merge x (some (merge a o))) (c.no_tie e t) refl
  | no d ↦ merge_comm_distinct a b o c.same_owner d
]

-- Two tables that hold the same row under every key.
abbrev pub SameView : Secrets → Secrets → Type 0
SameView rows rows' = (j : Text) → find_row j rows ≡ find_row j rows'

put_row-SameView :
    (new : SecretRow) (rows rows' : Secrets)
    → SameView rows rows'
    → SameView (put_row new rows) (put_row new rows')
put_row-SameView new rows rows' same j =
    rw (find_row-put_row j new rows, find_row-put_row j new rows', same new.id, same j)

put_row_comm :
    (a b : SecretRow) (rows : Secrets)
    → Compatible a b
    → SameView (put_row a (put_row b rows)) (put_row b (put_row a rows))
put_row_comm a b rows c j = elim (Bool-cases (a.id == b.id)) [
  | inl same ↦
      let e : a.id ≡ b.id = (text_beq_iff a.id b.id).0 same in
      rw
        (
          find_row-put_row j a (put_row b rows),
          find_row-put_row j b (put_row a rows),
          find_row-put_row j b rows,
          find_row-put_row j a rows,
          find_row-put_row a.id b rows,
          find_row-put_row b.id a rows,
        )
        (ground (
          arith,
          text_beq_iff a.id b.id,
          text_beq_iff b.id a.id,
          text_beq_iff a.id j,
          text_beq_iff b.id j,
          merge_comm a b (find_row a.id rows) c e,
        ))
  | inr differ ↦
      rw
        (
          find_row-put_row j a (put_row b rows),
          find_row-put_row j b (put_row a rows),
          find_row-put_row j b rows,
          find_row-put_row j a rows,
          find_row-put_row a.id b rows,
          find_row-put_row b.id a rows,
        )
        (ground (
          arith,
          text_beq_iff a.id b.id,
          text_beq_iff b.id a.id,
          text_beq_iff a.id j,
          text_beq_iff b.id j,
        ))
]

-- The upserts of a batch, in order.
abbrev pub put_all : List SecretRow → Secrets → Secrets
put_all [] rows = rows
put_all (new ∷ more) rows = put_all more (put_row new rows)

put_all-SameView :
    (batch : List SecretRow) (rows rows' : Secrets)
    → SameView rows rows'
    → SameView (put_all batch rows) (put_all batch rows')
put_all-SameView [] rows rows' same = same
put_all-SameView (new ∷ batch) rows rows' same =
    put_all-SameView batch _ _ (put_row-SameView new rows rows' same)

module _ {P : SecretRow → Type 0}
    (compatible : (a b : SecretRow) → P a → P b → Compatible a b) where
  put_all-Permᴰ :
      {batch batch' : List SecretRow}
      → Permᴰ batch batch'
      → All P batch
      → (rows : Secrets) → SameView (put_all batch rows) (put_all batch' rows)
  put_all-Permᴰ Permᴰ.nil h rows = λ j. refl
  put_all-Permᴰ (Permᴰ.cons {a} {b} {l₁} {l₂} e d) (p, h) rows =
      subst (λ x. SameView (put_all l₁ (put_row a rows)) (put_all l₂ (put_row x rows))) e
        (put_all-Permᴰ d h (put_row a rows))
  put_all-Permᴰ (Permᴰ.swap {a} {b} {a'} {b'} {l} e e') (p, (q, h)) rows =
      subst
        (λ x.
          SameView (put_all l (put_row b (put_row a rows)))
            (put_all l (put_row b' (put_row x rows))))
        e'
        (subst
          (λ x.
            SameView (put_all l (put_row b (put_row a rows)))
              (put_all l (put_row x (put_row b rows))))
          e (put_all-SameView l _ _ (put_row_comm b a rows (compatible b a q p))))
  put_all-Permᴰ (Permᴰ.trans d d') h rows =
      λ j. put_all-Permᴰ d h rows j ∙ put_all-Permᴰ d' (All-perm P d h) rows j

pub option_row_set : IsSet (Option SecretRow)
option_row_set = hlevel

-- Any two rows of a list are compatible.
abbrev pub IsCompatible : List SecretRow → Type 0
IsCompatible rows = All (λ a. All (λ b. Compatible a b) rows) rows

-- Two orders of arrival of one batch leave the same row under every key, if the batch is one
-- owner's and no two different rows of it have both key and time in common.
pub put_all-perm :
    (batch batch' : List SecretRow) (rows : Secrets)
    → IsCompatible batch
    → Permᴰ batch batch'
    → SameView (put_all batch rows) (put_all batch' rows)
put_all-perm batch batch' rows c perm =
    put_all-Permᴰ {P = λ a. Memᴰ a batch}
      (λ a b m n.
        All-at (λ y. Compatible a y) n (All-at (λ x. All (λ y. Compatible x y) batch) m c))
      perm (All-of_members batch (λ a m. m)) rows
