-- ===== src/Go/Text.antt =====
-- Texts: `strings.TrimSpace` and the length in bytes. A Go string is the native text of its
-- characters, so a string that is not valid UTF-8 is not modelled; `len` counts the bytes.
use Prim.Native.Char.{Char, code}
use Prim.Native.String.{◌++◌ as cat, [], ◌∷◌}
use mathlib.Core.Bool.{◌||◌, ◌&&◌}
use goaxon.Prelude.{
  Bool-cases, inl, inr, String, ◌≡◌, refl, Bool, true, false, arith, leb, nat_beq, if◌then◌else◌,
  ap, ◌∙◌,
}

-- `%q`, for a text that needs no escapes, as the names of types do
abbrev pub quoted : String → String
quoted s = cat "\"" (cat s "\"")

-- `unicode.IsSpace`
unfoldable pub is_space : Char → Bool
is_space c =
    let n = code c in
    (leb 9 n && leb n 13)
    || nat_beq n 0x20
    || nat_beq n 0x85
    || nat_beq n 0xa0
    || nat_beq n 0x1680
    || (leb 0x2000 n && leb n 0x200a)
    || nat_beq n 0x2028
    || nat_beq n 0x2029
    || nat_beq n 0x202f
    || nat_beq n 0x205f
    || nat_beq n 0x3000

unfoldable pub trim_left : String → String
trim_left [] = []
trim_left (c ∷ s) = if is_space c then trim_left s else c ∷ s

-- a character in front of the rest, unless it is a space with nothing behind it
abbrev pub keep : Char → String → String
keep c [] = if is_space c then [] else c ∷ []
keep c (d ∷ s) = c ∷ d ∷ s

unfoldable pub trim_right : String → String
trim_right [] = []
trim_right (c ∷ s) = keep c (trim_right s)

-- `strings.TrimSpace`
unfoldable pub trim_space : String → String
trim_space s = trim_right (trim_left s)

-- No space at the front; no space at the end.
abbrev pub starts_clean : String → Bool
starts_clean [] = true
starts_clean (c ∷ s) = if is_space c then false else true

abbrev pub ends_clean : String → Bool
ends_clean [] = true
ends_clean (c ∷ []) = if is_space c then false else true
ends_clean (c ∷ d ∷ s) = ends_clean (d ∷ s)

trim_left-starts_clean : (s : String) → starts_clean (trim_left s) ≡ true
unfolding trim_left
trim_left-starts_clean [] = refl
trim_left-starts_clean (c ∷ s) = ground (arith, trim_left-starts_clean s)

keep-ends_clean : (c : Char) (s : String) → ends_clean s ≡ true → ends_clean (keep c s) ≡ true
keep-ends_clean c [] h = elim (Bool-cases (is_space c)) [
  | inl space ↦ rw space
  | inr other ↦ rw (other, other)
]
keep-ends_clean c (d ∷ s) h = h

trim_right-ends_clean : (s : String) → ends_clean (trim_right s) ≡ true
unfolding trim_right
trim_right-ends_clean [] = refl
trim_right-ends_clean (c ∷ s) = keep-ends_clean c (trim_right s) (trim_right-ends_clean s)

keep-starts_clean : (c : Char) (s : String) → is_space c ≡ false → starts_clean (keep c s) ≡ true
keep-starts_clean c [] h = ground arith
keep-starts_clean c (d ∷ s) h = ground arith

trim_right-starts_clean : (s : String) → starts_clean s ≡ true → starts_clean (trim_right s) ≡ true
unfolding trim_right
trim_right-starts_clean [] h = refl
trim_right-starts_clean (c ∷ s) h = keep-starts_clean c (trim_right s) (ground arith)

trim_left-clean : (s : String) → starts_clean s ≡ true → trim_left s ≡ s
unfolding trim_left
trim_left-clean [] h = refl
trim_left-clean (c ∷ s) h = ground arith

trim_right-clean : (s : String) → ends_clean s ≡ true → trim_right s ≡ s
unfolding trim_right
trim_right-clean [] h = refl
trim_right-clean (c ∷ []) h = ground arith
trim_right-clean (c ∷ d ∷ s) h = ap (keep c) (trim_right-clean (d ∷ s) h)

-- A trimmed text has no space at either end.
pub trim_space-starts_clean : (s : String) → starts_clean (trim_space s) ≡ true
unfolding trim_space
trim_space-starts_clean s = trim_right-starts_clean (trim_left s) (trim_left-starts_clean s)

pub trim_space-ends_clean : (s : String) → ends_clean (trim_space s) ≡ true
unfolding trim_space
trim_space-ends_clean s = trim_right-ends_clean (trim_left s)

-- A text with no space at either end is left as it is.
pub trim_space-clean : (s : String) → starts_clean s ≡ true → ends_clean s ≡ true → trim_space s ≡ s
unfolding trim_space
trim_space-clean s p q = ap trim_right (trim_left-clean s p) ∙ trim_right-clean s q
