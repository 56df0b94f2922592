-- ===== src/Base/Texts.antt =====
-- Go's strings as lists of code points, and the functions of `strings` and `unicode` that the
-- program calls. Strings are taken to be valid UTF-8.
use Prim.Native.Nat.{ℕ, ◌+◌, ◌-◌, ◌/◌, ◌%◌}
use Prim.Native.Char.{code}
use Prim.Native.String.{String}
use mathlib.Core.Path.{◌≡◌, refl}
use mathlib.Core.Logic.{◌↔◌}
use mathlib.Core.Bool.{Bool, true, false, ◌&&◌, ◌||◌}
use mathlib.Core.List.{List, [], ◌∷◌, map, reverse}
use native.Mathlib.Omega.{arith}
use goph_keeper.Base.Tests.{Comparable, ◌==◌, nat_eq, leb, if◌then◌else◌}

abbrev pub Text : Type 0
Text = List ℕ

abbrev pub Bytes : Type 0
Bytes = List ℕ

-- A string literal.
abbrev pub codes : String → Text
codes String.[] = []
codes (String.◌∷◌ c s) = code c ∷ codes s

unfoldable pub text_beq : Text → Text → Bool
text_beq [] [] = true
text_beq (a ∷ s) (b ∷ t) = a == b && text_beq s t
text_beq _ _ = false

pub text_beq_iff : (s t : Text) → (text_beq s t ≡ true) ↔ (s ≡ t)
unfolding text_beq
text_beq_iff [] [] = (λ _. refl, λ _. refl)
text_beq_iff [] (b ∷ t) = (λ h. cc, λ h. cc)
text_beq_iff (a ∷ s) [] = (λ h. cc, λ h. cc)
text_beq_iff (a ∷ s) (b ∷ t) =
    let (to, from) = text_beq_iff s t in
    (λ h. ground (arith, to (ground arith)), λ h. ground (arith, from (ground arith)))

instance abbrev pub text_eq : Comparable Text
text_eq = record {
  sound = λ s t. (text_beq_iff s t).0;
  complete = λ s t. (text_beq_iff s t).1;
  same = text_beq;
}

pub text_beq_refl : (s : Text) → text_beq s s ≡ true
text_beq_refl s = (text_beq_iff s s).1 refl

abbrev pub is_empty {ℓ} : {A : Type ℓ} → List A → Bool
is_empty [] = true
is_empty (_ ∷ _) = false

-- `unicode.IsSpace`.
unfoldable pub is_space : ℕ → Bool
is_space c =
    leb 9 c && leb c 13
    || c == 32
    || c == 0x85
    || c == 0xa0
    || c == 0x1680
    || leb 0x2000 c && leb c 0x200a
    || c == 0x2028
    || c == 0x2029
    || c == 0x202f
    || c == 0x205f
    || c == 0x3000

unfoldable pub trim_left : Text → Text
unfolding is_space
trim_left [] = []
trim_left (c ∷ s) = let rest = trim_left s in if is_space c then rest else c ∷ s

-- `strings.TrimSpace`.
unfoldable pub trim_space : Text → Text
unfolding trim_left
trim_space s = reverse (trim_left (reverse (trim_left s)))

-- The test `strings.TrimSpace(s) == ""`.
abbrev pub is_blank : Text → Bool
is_blank s = is_empty (trim_space s)

-- `hex.EncodeToString`.
abbrev hex_digit : ℕ → ℕ
hex_digit d = if leb d 9 then b'0' + d else b'a' + d - 10

unfoldable pub hex_encode : Bytes → Text
hex_encode [] = []
hex_encode (b ∷ bytes) = hex_digit (b / 16) ∷ hex_digit (b % 16) ∷ hex_encode bytes

-- The mapping of `unicode.ToLower` above ASCII, a table of the Unicode standard: it keeps spaces
-- apart from other runes.
pub record Unicode : Type 0 where
  pub lower_above : ℕ → ℕ
  pub is_space-lower_above : (c : ℕ) → is_space (lower_above c) ≡ is_space c

-- `unicode.ToLower`.
abbrev pub lower_rune : Unicode → ℕ → ℕ
lower_rune u c =
    if leb c 127 then (if leb b'A' c && leb c b'Z' then c + 32 else c) else u.lower_above c

-- `strings.ToLower`.
unfoldable pub to_lower : Unicode → Text → Text
to_lower u s = map (lower_rune u) s
