-- ===== src/Text.antt =====
-- Text as the list of its code points, with what the program calls of Go's package strings.
pub mod Trim
pub mod Split
use Prim.Native.Char.{code}
use Prim.Native.String.{String}
use mathlib.Core.List.{reverse}
use netjugo.Prelude.{
  ℕ, zero, suc, ◌+◌, Bool, true, false, ◌&&◌, ◌||◌, List, [], ◌∷◌, any, leb, ◌==◌, if◌then◌else◌,
}

abbrev pub Text : Type 0
Text = List ℕ

-- The code points of a literal.
abbrev pub codes : String → Text
codes String.[] = []
codes (String.◌∷◌ c s) = code c ∷ codes s

-- `unicode.IsSpace`: the white space of Unicode.
unfoldable pub is_space : ℕ → Bool
is_space c =
    leb 0x9 c && leb c 0xD
    || c == 0x20
    || c == 0x85
    || c == 0xA0
    || c == 0x1680
    || leb 0x2000 c && leb c 0x200A
    || c == 0x2028
    || c == 0x2029
    || c == 0x202F
    || c == 0x205F
    || c == 0x3000

unfoldable pub trim_left : Text → Text
trim_left [] = []
trim_left (c ∷ t) = if is_space c then trim_left t else c ∷ t

-- `strings.TrimSpace`.
unfoldable pub trim_space : Text → Text
trim_space t = reverse (trim_left (reverse (trim_left t)))

abbrev pub is_empty : Text → Bool
is_empty [] = true
is_empty (c ∷ t) = false

abbrev pub text_eq : Text → Text → Bool
text_eq [] [] = true
text_eq [] (d ∷ s) = false
text_eq (c ∷ t) [] = false
text_eq (c ∷ t) (d ∷ s) = c == d && text_eq t s

-- `strings.HasPrefix`, `strings.Contains` and `strings.Count` with one character.
abbrev pub starts_with : ℕ → Text → Bool
starts_with d [] = false
starts_with d (c ∷ t) = c == d

abbrev pub contains_char : ℕ → Text → Bool
contains_char d t = any (λ c. c == d) t

abbrev pub count_char : ℕ → Text → ℕ
count_char d [] = 0
count_char d (c ∷ t) = if c == d then suc (count_char d t) else count_char d t

-- A character before the first piece.
abbrev with_first : ℕ → List Text → List Text
with_first c [] = (c ∷ []) ∷ []
with_first c (piece ∷ rest) = (c ∷ piece) ∷ rest

-- `strings.Split` with one character: the pieces between its occurrences, at least one.
unfoldable pub split_on : ℕ → Text → List Text
split_on d [] = [] ∷ []
split_on d (c ∷ t) = let rest = split_on d t in if c == d then [] ∷ rest else with_first c rest
