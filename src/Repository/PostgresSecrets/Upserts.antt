-- ===== src/Repository/PostgresSecrets/Upserts.antt =====
-- `Upsert` against the view of the table by key.
use mathlib.Core.Logic.{∥∥₁_elim}
use mathlib.Core.List.{Perm}
use mathlib.Core.List.Permᴰ
use goph_keeper.Base.{
  ◌/◌, arith, not, Option, leb, text_beq, ◌≡◌, refl, ◌∙◌, none, some, List, [], ◌∷◌, map, Text,
  Bytes, text_eq, ◌==◌, if◌then◌else◌, All, ok, ◌≢◌, ap, sym, All-perm, Option-cases, inl, inr,
}
use goph_keeper.Models.{Secret, Payload}
use goph_keeper.Database.{IsUp, called, marshal_meta}
use goph_keeper.Repository.Secrets.{SecretRow, to_row, upsert_row, put_row}
use goph_keeper.Repository.Secrets.Merge.{find_row, merge, find_row-put_row}
use goph_keeper.Repository.Secrets.Merge.Convergence.{
  IsCompatible, SameView, put_all, put_all-perm, option_row_set,
}
use goph_keeper.Repository.Server.{Server}
use goph_keeper.Repository.PostgresSecrets.{upsert}
use goph_keeper.Repository.PostgresSecrets.Requests.{upsert_secret, serve, serve_all}

abbrev pub bytes : Payload → Bytes
bytes none = []
bytes (some b) = b

-- The row that an `INSERT` of the secret writes.
abbrev pub row_of : Secret → SecretRow
row_of s = to_row s (bytes s.payload)

-- The same, column by column.
abbrev pub written_row : Secret → SecretRow
written_row s = record {
  id = s.id;
  owner_id = s.owner_id;
  type = s.type;
  payload = bytes s.payload;
  meta = marshal_meta s.meta;
  created_at = s.created_at / 1000;
  updated_at = s.updated_at / 1000;
  deleted = s.deleted;
}

upsert_up :
    (s : Secret) (w : Server)
    → IsUp w.env
    → s.payload ≢ none
    → ((upsert s w).0 ≡ ok s) × ((upsert s w).1.secrets ≡ put_row (row_of s) w.secrets)
unfolding upsert upsert_row
upsert_up s w up p = elim (Option-cases s.payload) [
  | inl nil ↦ absurd (p nil)
  | inr (b, e) ↦ (rw (up w.env.calls, e), rw (up w.env.calls, e))
]

upsert-IsUp : (s : Secret) (w : Server) → IsUp w.env → IsUp (upsert s w).1.env
unfolding upsert upsert_row
upsert-IsUp s w up n = elim (Option-cases s.payload) [
  | inl nil ↦ rw (up w.env.calls, nil) (up n)
  | inr (b, e) ↦ rw (up w.env.calls, e) (up n)
]

-- The same as one equation.
pub upsert_done :
    (s : Secret) (w : Server)
    → IsUp w.env
    → s.payload ≢ none
    → upsert s w ≡ (ok s, record w { secrets = put_row (row_of s) w.secrets; env = called w.env })
unfolding upsert upsert_row
upsert_done s w up p = elim (Option-cases s.payload) [
  | inl nil ↦ absurd (p nil)
  | inr (b, e) ↦ rw (up w.env.calls, e)
]

-- The row that a key holds after a row came to it: a row of another owner stays, and so does one
-- that is as new or newer.
abbrev pub settled_row : SecretRow → Option SecretRow → SecretRow
settled_row new none = new
settled_row new (some old) =
    if not (text_beq old.owner_id new.owner_id)
    then old
    else if leb new.updated_at old.updated_at
    then old
    else new

merge-settled_row : (new : SecretRow) (old : Option SecretRow) → merge new old ≡ settled_row new old
merge-settled_row new none = refl
merge-settled_row new (some old) = ground arith

-- An `Upsert` that carries a payload, on a database that answers, returns the secret as it was
-- given. Its key then holds the secret if the key was free, or was the owner's with an older time
-- in microseconds, and what it held before if not. Other keys hold what they held.
pub find_row-upsert :
    (s : Secret) (w : Server)
    → IsUp w.env
    → s.payload ≢ none
    → ((upsert s w).0 ≡ ok s)
      × ((j : Text)
          → find_row j (upsert s w).1.secrets ≡ (
              if s.id == j
              then some (settled_row (written_row s) (find_row s.id w.secrets))
              else find_row j w.secrets))
find_row-upsert s w up p =
    let (result, stored) = upsert_up s w up p in
    (
      result,
      λ j.
          rw (stored, ← merge-settled_row (row_of s) (find_row s.id w.secrets))
            (find_row-put_row j (row_of s) w.secrets),
    )

serve_all-upsert_secret :
    (batch : List Secret) (w : Server)
    → IsUp w.env
    → All (λ s. s.payload ≢ none) batch
    → (serve_all (map upsert_secret batch) w).secrets ≡ put_all (map row_of batch) w.secrets
unfolding serve_all serve
serve_all-upsert_secret [] w up h = refl
serve_all-upsert_secret (s ∷ batch) w up (p, h) =
    serve_all-upsert_secret batch (upsert s w).1 (upsert-IsUp s w up) h
    ∙ ap (put_all (map row_of batch)) (upsert_up s w up p).1

-- What a batch of secrets leaves under each key does not depend on the order of its upserts, if
-- each carries a payload, all have one owner, no two different rows have key and time (in
-- microseconds) in common, and the database answers.
pub serve_all-perm :
    (batch batch' : List Secret) (w : Server)
    → IsUp w.env
    → All (λ s. s.payload ≢ none) batch
    → IsCompatible (map row_of batch)
    → Perm batch batch'
    → SameView
        (serve_all (map upsert_secret batch) w).secrets
        (serve_all (map upsert_secret batch') w).secrets
serve_all-perm batch batch' w up h c perm j = ∥∥₁_elim perm (option_row_set _ _) (λ d.
    ap (find_row j) (serve_all-upsert_secret batch w up h)
    ∙ put_all-perm (map row_of batch) (map row_of batch') w.secrets c (Permᴰ.map row_of d) j
    ∙ ap (find_row j)
        (sym (serve_all-upsert_secret batch' w up (All-perm (λ s. s.payload ≢ none) d h))))
