-- ===== src/Base/Text.antt =====
-- Text as Rust's `str` and `format!` treat it, over code points.
pub mod Decimal
pub mod Trim
pub mod Splits
pub mod Spaced
use Prim.Native.Nat.{ℕ, zero, suc, ◌-◌}
use Prim.Native.Char.{Char, code}
use Prim.Native.String
use Prim.Native.String.{String, [], ◌∷◌}
use mathlib.Core.Bool.{Bool, true, false, ◌&&◌, ◌||◌}
use text.Mathlib.Text.{starts_with}
use croutond.Base.Tests.{leb, ◌==◌, if◌then◌else◌}

-- The tail of a format string.
infixr 66 ◌+++◌
abbrev pub ◌+++◌ : String → String → String
s +++ t = String.◌++◌ s t

-- `char::is_whitespace`: the code points of Unicode's White_Space property.
abbrev pub is_whitespace : ℕ → Bool
is_whitespace c =
    (leb 9 c && leb c 13)
    || c == 32
    || c == 0x85
    || c == 0xa0
    || c == 0x1680
    || (leb 0x2000 c && leb c 0x200a)
    || c == 0x2028
    || c == 0x2029
    || c == 0x202f
    || c == 0x205f
    || c == 0x3000

-- `str::trim_start`
unfoldable pub trim_start : String → String
trim_start [] = []
trim_start (c ∷ s) = if is_whitespace (code c) then trim_start s else c ∷ s

-- `str::trim_end`: a character stays if it is no whitespace, or if something stays behind it.
abbrev keep : Char → String → String
keep c [] = if is_whitespace (code c) then [] else c ∷ []
keep c (d ∷ s) = c ∷ d ∷ s

unfoldable pub trim_end : String → String
trim_end [] = []
trim_end (c ∷ s) = keep c (trim_end s)

-- `str::trim`
unfoldable pub trim : String → String
unfolding trim_start trim_end
trim s = trim_end (trim_start s)

-- `str::is_empty`
abbrev pub is_empty : String → Bool
is_empty [] = true
is_empty (c ∷ s) = false

-- Every character is whitespace.
abbrev pub is_blank : String → Bool
is_blank [] = true
is_blank (c ∷ s) = is_whitespace (code c) && is_blank s

abbrev pub nth_letter : ℕ → String → Char
nth_letter n [] = "z"
nth_letter zero (c ∷ s) = c
nth_letter (suc n) (c ∷ s) = nth_letter n s

-- `to_ascii_lowercase` of one character: the 26 capitals move, all else stays.
abbrev pub lower : Char → Char
lower c = elim (leb b'A' (code c) && leb (code c) b'Z') [
  | false ↦ c
  | true ↦ nth_letter (code c - b'A') "abcdefghijklmnopqrstuvwxyz"
]

-- `str::to_ascii_lowercase`
unfoldable pub to_ascii_lowercase : String → String
to_ascii_lowercase [] = []
to_ascii_lowercase (c ∷ s) = lower c ∷ to_ascii_lowercase s

-- `str::contains` with a text for its pattern.
unfoldable pub contains : String → String → Bool
contains t [] = is_empty t
contains t (c ∷ s) = starts_with (c ∷ s) t || contains t s
