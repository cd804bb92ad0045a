-- ===== src/Base/Text/Trim.antt =====
-- What trimming and lowering leave of a text.
use Prim.Native.Char.{Char, code}
use Prim.Native.String.{String, [], ◌∷◌}
use mathlib.Core.Path.{◌≡◌, refl}
use mathlib.Core.Bool.{true, false, ◌&&◌}
use mathlib.Core.Logic.{inl, inr}
use native.Mathlib.Omega.{arith}
use croutond.Base.Tests.{Bool-cases, leb}
use Prim.Native.Nat.{ℕ}
use croutond.Base.Text.{
  is_whitespace, trim_start, trim_end, keep, trim, is_empty, is_blank, lower, to_ascii_lowercase,
}

is_empty-keep :
    (c : Char) (s : String) → is_whitespace (code c) ≡ false → is_empty (keep c s) ≡ false
is_empty-keep c [] h = rw h
is_empty-keep c (d ∷ s) h = refl

is_empty-trim_end :
    (c : Char) (s : String) → is_whitespace (code c) ≡ false → is_empty (trim_end (c ∷ s)) ≡ false
unfolding trim_end
is_empty-trim_end c s h = is_empty-keep c (trim_end s) h

-- A text is empty once trimmed exactly when it is all whitespace.
pub is_empty-trim : (s : String) → is_empty (trim s) ≡ is_blank s
unfolding trim trim_start
is_empty-trim [] = refl
is_empty-trim (c ∷ s) = elim (Bool-cases (is_whitespace (code c))) [
  | inl h ↦ rw h (is_empty-trim s)
  | inr h ↦ rw h (is_empty-trim_end c s h)
]

not_capital : (n : ℕ) → is_whitespace n ≡ true → (leb b'A' n && leb n b'Z') ≡ false
not_capital n h = ground arith

lower-whitespace : (c : Char) → is_whitespace (code c) ≡ true → lower c ≡ c
lower-whitespace c h = rw (not_capital (code c) h, lower)

-- Lowering changes no whitespace.
pub to_ascii_lowercase-blank : (s : String) → is_blank s ≡ true → to_ascii_lowercase s ≡ s
unfolding to_ascii_lowercase
to_ascii_lowercase-blank [] h = refl
to_ascii_lowercase-blank (c ∷ s) h = elim (Bool-cases (is_whitespace (code c))) [
  | inl w ↦ rw (lower-whitespace c w, to_ascii_lowercase-blank s (ground arith))
  | inr n ↦ cc
]
