-- ===== src/Base/Text/Splits.antt =====
-- Splitting a text into its words, its lines, or in two.
use Prim.Native.Nat.{ℕ}
use Prim.Native.Char.{Char, code}
use Prim.Native.String.{String}
use mathlib.Core.Bool.{Bool, false, ◌&&◌}
use mathlib.Core.Option.{Option, none, some}
use mathlib.Core.List.{List, [], ◌∷◌}
use croutond.Base.Tests.{◌==◌, if◌then◌else◌}
use croutond.Base.Text.{is_empty, is_whitespace}

abbrev pub push_word : String × List String → List String
push_word (word, words) = if is_empty word then words else word ∷ words

-- The word that the text begins with, which may be empty, and the words behind it.
abbrev pub pieces : String → String × List String
pieces String.[] = (String.[], [])
pieces (String.◌∷◌ c s) =
    let (word, words) = pieces s in
    if is_whitespace (code c)
    then (String.[], push_word (word, words))
    else (String.◌∷◌ c word, words)

-- `str::split_whitespace`
unfoldable pub split_whitespace : String → List String
split_whitespace s = push_word (pieces s)

abbrev pub starts_line : String → Bool
starts_line String.[] = false
starts_line (String.◌∷◌ c s) = code c == 10

abbrev add_to_line : Char → List String → List String
add_to_line c [] = String.◌∷◌ c String.[] ∷ []
add_to_line c (line ∷ lines) = String.◌∷◌ c line ∷ lines

-- `str::lines`: a line ends with a line feed, and a carriage return in front of it belongs to the end.
unfoldable pub lines : String → List String
lines String.[] = []
lines (String.◌∷◌ c s) =
    let rest = lines s in
    if code c == 10
    then String.[] ∷ rest
    else if code c == 13 && starts_line s
    then rest
    else add_to_line c rest

-- `str::split_once` at a character of one byte, given by its code.
unfoldable pub split_once : ℕ → String → Option (String × String)
split_once sep String.[] = none
split_once sep (String.◌∷◌ c s) =
    let rest = split_once sep s in
    if code c == sep
    then some (String.[], s)
    else elim rest [ none ↦ none | some (before, after) ↦ some (String.◌∷◌ c before, after) ]
