-- ===== src/ProcessMetrics/Reads.antt =====
-- The two files of a process, read back together.
use Prim.Native.Char.{Char}
use croutond.Base.{
  ℕ, ◌≤◌, String, ◌≡◌, true, not, ◌==◌, Option, some, List, [], ◌∷◌, str_eq, if◌then◌else◌, err,
}
use croutond.Base.Words.{max_u64}
use croutond.Base.Text.{◌+++◌, trim}
use croutond.Base.Text.Decimal.{decimal, parse_uint}
use croutond.Base.Text.Spaced.{spaced, all_words, all_chars, stays_on_line}
use croutond.ProcessMetrics.{KibMap}

-- A line of /proc/<pid>/status: a size in kB, or other words.
pub data StatusLine : Type 0 where
  size : String → ℕ → StatusLine
  other : String → String → List String → StatusLine

abbrev key_of : StatusLine → String
key_of (size key n) = key
key_of (other key word words) = key

abbrev words_of : StatusLine → List String
words_of (size key n) = decimal n ∷ "kB" ∷ []
words_of (other key word words) = word ∷ words

abbrev line_text : StatusLine → String
line_text line = key_of line +++ ":" +++ spaced (words_of line)

abbrev pub status_text : List StatusLine → String
status_text [] = ""
status_text (line ∷ rest) = line_text line +++ "\n" +++ status_text rest

-- A size is of 64 bits; the first of other words is no number.
abbrev ReadsAs : StatusLine → Type 0
ReadsAs (size key n) = n ≤ max_u64
ReadsAs (other key word words) = (e : String) × (parse_uint max_u64 word ≡ err e)

pub record IsLine (line : StatusLine) : Type 0 where
  pub apart : all_chars (λ c. not (c == b':')) (key_of line) ≡ true
  pub stays : all_chars stays_on_line (key_of line) ≡ true
  pub trimmed : trim (key_of line) ≡ key_of line
  pub words : all_words (words_of line) ≡ true
  pub reads : ReadsAs line

-- The size with the key that stands last, if any does.
abbrev pub latest : String → Option ℕ → List StatusLine → Option ℕ
latest key found [] = found
latest key found (size k n ∷ rest) = latest key (if str_eq k key then some n else found) rest
latest key found (other k word words ∷ rest) = latest key found rest

-- What a line adds to the map.
abbrev added : StatusLine → KibMap → KibMap
added (size key n) values = (key, n) ∷ values
added (other key word words) values = values
