-- ===== src/Text.antt =====
-- Text as the list of its code points, with the functions of Go's `strings` that the program calls.
use Prim.Native.Char.{code}
use Prim.Native.String.{String}
use treckrr.Prelude.{
  ◌+◌, ◌≡◌, refl, arith, ℕ, Bool, true, false, ◌&&◌, ◌||◌, List, [], ◌∷◌, leb, ◌==◌, if◌then◌else◌,
}
use mathlib.Core.List.{reverse}

abbrev pub Text : Type 0
Text = List ℕ

-- A literal.
abbrev pub text : String → Text
text String.[] = []
text (String.◌∷◌ c s) = code c ∷ text s

abbrev pub is_empty : Text → Bool
is_empty [] = true
is_empty (c ∷ s) = false

unfoldable pub same_text : Text → Text → Bool
same_text [] [] = true
same_text [] (d ∷ t) = false
same_text (c ∷ s) [] = false
same_text (c ∷ s) (d ∷ t) = c == d && same_text s t

pub same_text_eq : (s t : Text) → same_text s t ≡ true → s ≡ t
unfolding same_text
same_text_eq [] [] e = refl
same_text_eq [] (d ∷ t) e = cc
same_text_eq (c ∷ s) [] e = cc
same_text_eq (c ∷ s) (d ∷ t) e =
    let (head, rest) : (c ≡ d) × (same_text s t ≡ true) = ground arith in
    let tail = same_text_eq s t rest in cc

pub same_text_refl : (s : Text) → same_text s s ≡ true
unfolding same_text
same_text_refl [] = refl
same_text_refl (c ∷ s) = ground (arith, same_text_refl s)

-- `unicode.IsSpace`
unfoldable pub is_space : ℕ → Bool
is_space c =
    leb 9 c && leb c 13
    || c == 32
    || c == 0x85
    || c == 0xa0
    || c == 0x1680
    || leb 0x2000 c && leb c 0x200a
    || c == 0x2028
    || c == 0x2029
    || c == 0x202f
    || c == 0x205f
    || c == 0x3000

unfoldable pub trim_left : Text → Text
trim_left [] = []
trim_left (c ∷ s) = let rest = trim_left s in if is_space c then rest else c ∷ s

-- `strings.TrimSpace`
unfoldable pub trim_space : Text → Text
unfolding trim_left is_space
trim_space s = reverse (trim_left (reverse (trim_left s)))

-- The bytes of a code point in UTF-8, and `len(s)`.
abbrev pub point_bytes : ℕ → ℕ
point_bytes c = if leb c 0x7f then 1 else if leb c 0x7ff then 2 else if leb c 0xffff then 3 else 4

unfoldable pub byte_length : Text → ℕ
byte_length [] = 0
byte_length (c ∷ s) = point_bytes c + byte_length s
