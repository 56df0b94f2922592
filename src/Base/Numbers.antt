-- ===== src/Base/Numbers.antt =====
-- The type `int` of Go, and the functions of `strconv` and `fmt` that read and write its values and
-- those of `bool`.
use Prim.Native.Nat.{ℕ, zero, suc, ◌+◌, ◌-◌, ◌*◌, ◌/◌, ◌%◌, ◌^◌}
use mathlib.Core.Bool.{Bool, true, false, ◌&&◌}
use mathlib.Core.Option.{Option, none, some}
use mathlib.Core.List.{[], ◌∷◌, ◌++◌}
use goph_keeper.Base.Tests.{◌==◌, nat_eq, leb, ltb, if◌then◌else◌}
use goph_keeper.Base.Lists.{contains}
use goph_keeper.Base.Texts.{Text, codes, text_eq}

-- `negsuc n` is `-(n + 1)`.
pub data ℤ : Type 0 where
  pos negsuc : ℕ → ℤ

abbrev pub is_zero : ℤ → Bool
is_zero (pos zero) = true
is_zero (pos (suc _)) = false
is_zero (negsuc _) = false

-- Decimal digits after a number that was read before them.
unfoldable pub digits_from : ℕ → Text → Option ℕ
digits_from n [] = some n
digits_from n (c ∷ s) =
    let rest = digits_from (n * 10 + (c - b'0')) s in
    if leb b'0' c && leb c b'9' then rest else none

abbrev pub digits_of : Text → Option ℕ
digits_of [] = none
digits_of (c ∷ s) = digits_from 0 (c ∷ s)

-- A number with its sign, if it fits into 64 bits.
abbrev negated : ℕ → ℤ
negated zero = pos 0
negated (suc n) = negsuc n

abbrev positive_int : Option ℕ → Option ℤ
positive_int none = none
positive_int (some n) = if ltb n (2 ^ 63) then some (pos n) else none

abbrev negative_int : Option ℕ → Option ℤ
negative_int none = none
negative_int (some n) = if leb n (2 ^ 63) then some (negated n) else none

-- `strconv.Atoi`, with `none` for an error.
unfoldable pub atoi : Text → Option ℤ
unfolding digits_from
atoi [] = none
atoi (c ∷ s) =
    if c == b'-'
    then negative_int (digits_of s)
    else if c == b'+'
    then positive_int (digits_of s)
    else positive_int (digits_of (c ∷ s))

-- `strconv.ParseBool`, with `none` for an error.
unfoldable pub parse_bool : Text → Option Bool
parse_bool s =
    if contains
      (codes "1" ∷ codes "t" ∷ codes "T" ∷ codes "TRUE" ∷ codes "true" ∷ codes "True" ∷ []) s
    then some true
    else if contains
        (codes "0" ∷ codes "f" ∷ codes "F" ∷ codes "FALSE" ∷ codes "false" ∷ codes "False" ∷ []) s
    then some false
    else none

-- The decimal digits of a number below `10 ^ fuel`.
unfoldable pub decimal_digits : ℕ → ℕ → Text
decimal_digits zero n = []
decimal_digits (suc fuel) n = elim (n / 10) [
  | zero ↦ (b'0' + n) ∷ []
  | suc m ↦ decimal_digits fuel (suc m) ++ (b'0' + n % 10) ∷ []
]

-- `%d` of an `int`, which has at most 19 digits.
unfoldable pub decimal : ℤ → Text
unfolding decimal_digits
decimal (pos n) = decimal_digits 19 n
decimal (negsuc n) = b'-' ∷ decimal_digits 19 (suc n)
