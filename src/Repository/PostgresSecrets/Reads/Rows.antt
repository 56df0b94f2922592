-- ===== src/Repository/PostgresSecrets/Reads/Rows.antt =====
-- Which rows the two listings are to return, and in which order.
use goph_keeper.Base.{
  ◌/◌, ◌≤◌, leb, text_beq, ◌≡◌, refl, Bool, true, false, not, [], ◌∷◌, Text, text_eq, if◌then◌else◌,
  arith, keep, All, IsSorted,
}
use goph_keeper.Models.{Time}
use goph_keeper.Repository.Secrets.{
  Secrets, SecretRow, is_owned_live, newer_first, is_updated_since, older_first,
}

-- The rows that a listing is to show, and those that a pull is to send.
abbrev pub is_shown : Text → SecretRow → Bool
is_shown owner_id r = if r.deleted then false else text_beq r.owner_id owner_id

abbrev pub is_sent : Text → Time → SecretRow → Bool
is_sent owner_id since r =
    if text_beq r.owner_id owner_id then not (leb r.updated_at (since / 1000)) else false

-- No row is updated later than one in front of it, and no row earlier.
abbrev pub LaterFirst : Secrets → Type 0
LaterFirst [] = Unit
LaterFirst (r ∷ rows) = All (λ q. q.updated_at ≤ r.updated_at) rows × LaterFirst rows

abbrev pub EarlierFirst : Secrets → Type 0
EarlierFirst [] = Unit
EarlierFirst (r ∷ rows) = All (λ q. r.updated_at ≤ q.updated_at) rows × EarlierFirst rows

pub keep_congr :
    (p q : SecretRow → Bool) (rows : Secrets)
    → ((r : SecretRow) → p r ≡ q r)
    → keep p rows ≡ keep q rows
unfolding keep
keep_congr p q [] h = refl
keep_congr p q (r ∷ rows) h = rw (h r, keep_congr p q rows h) refl

All-map :
    {P Q : SecretRow → Type 0} (rows : Secrets)
    → ((r : SecretRow) → P r → Q r)
    → All P rows
    → All Q rows
All-map [] f h = tt
All-map (r ∷ rows) f (p, h) = (f r p, All-map rows f h)

pub newer_first-LaterFirst : (rows : Secrets) → IsSorted newer_first rows → LaterFirst rows
newer_first-LaterFirst [] h = tt
newer_first-LaterFirst (r ∷ rows) (first, h) =
    (All-map rows (λ q e. ground (arith, e)) first, newer_first-LaterFirst rows h)

pub older_first-EarlierFirst : (rows : Secrets) → IsSorted older_first rows → EarlierFirst rows
older_first-EarlierFirst [] h = tt
older_first-EarlierFirst (r ∷ rows) (first, h) =
    (All-map rows (λ q e. ground (arith, e)) first, older_first-EarlierFirst rows h)

pub shown-owned_live :
    (owner_id : Text) (r : SecretRow) → is_owned_live owner_id r ≡ is_shown owner_id r
shown-owned_live owner_id r = ground arith

pub sent-updated_since :
    (owner_id : Text) (since : Time) (r : SecretRow)
    → is_updated_since owner_id since r ≡ is_sent owner_id since r
sent-updated_since owner_id since r = ground arith

pub total_newer : (a b : SecretRow) → newer_first a b ≡ false → newer_first b a ≡ true
total_newer a b h = ground arith

pub trans_newer :
    (a b c : SecretRow) → newer_first a b ≡ true → newer_first b c ≡ true → newer_first a c ≡ true
trans_newer a b c h k = ground arith

pub total_older : (a b : SecretRow) → older_first a b ≡ false → older_first b a ≡ true
total_older a b h = ground arith

pub trans_older :
    (a b c : SecretRow) → older_first a b ≡ true → older_first b c ≡ true → older_first a c ≡ true
trans_older a b c h k = ground arith
