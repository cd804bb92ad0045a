-- ===== src/Base/Text/Spaced.antt =====
-- Texts that are printed word by word or line by line, and are split into the same again.
use Prim.Native.Nat.{ℕ}
use Prim.Native.Char.{Char, code}
use Prim.Native.String.{String}
use Prim.Native.String.append.{nil, cons}
use mathlib.Core.Path.{◌≡◌, refl, ap, ◌∙◌}
use mathlib.Core.Bool.{Bool, true, false, not, ◌&&◌}
use mathlib.Core.List.{List, [], ◌∷◌}
use native.Mathlib.Omega.{arith}
use croutond.Base.Tests.{◌==◌, if◌then◌else◌}
use croutond.Base.Text.{◌+++◌, is_empty, is_whitespace}
use croutond.Base.Text.Splits.{push_word, pieces, split_whitespace, lines}

-- Every character passes the test, by its code.
abbrev pub all_chars : (ℕ → Bool) → String → Bool
all_chars test String.[] = true
all_chars test (String.◌∷◌ c s) = test (code c) && all_chars test s

abbrev pub is_plain : ℕ → Bool
is_plain c = not (is_whitespace c)

abbrev pub stays_on_line : ℕ → Bool
stays_on_line c = not (c == 10) && not (c == 13)

abbrev pub is_word : String → Bool
is_word s = not (is_empty s) && all_chars is_plain s

abbrev pub all_words : List String → Bool
all_words [] = true
all_words (w ∷ ws) = is_word w && all_words ws

-- Each word behind a space.
abbrev pub spaced : List String → String
spaced [] = ""
spaced (w ∷ ws) = " " +++ w +++ spaced ws

both : (a b : Bool) → (a && b) ≡ true → (a ≡ true) × (b ≡ true)
both true b h = (refl, h)
both false b h = cc

is_false : (b : Bool) → not b ≡ true → b ≡ false
is_false true h = cc
is_false false h = refl

-- A character that is no whitespace belongs to the word.
pieces-letter :
    (c : Char) (s word : String) (words : List String)
    → is_whitespace (code c) ≡ false
    → pieces s ≡ (word, words)
    → pieces (String.◌∷◌ c s) ≡ (String.◌∷◌ c word, words)
pieces-letter c s word words h e = rw (h, e) refl

pieces-append :
    (w tail : String) (ws : List String)
    → all_chars is_plain w ≡ true
    → pieces tail ≡ (String.[], ws)
    → pieces (w +++ tail) ≡ (w, ws)
pieces-append String.[] tail ws h e = ap pieces (nil tail) ∙ e
pieces-append (String.◌∷◌ c w) tail ws h e =
    let (plain, plains) = both (is_plain (code c)) (all_chars is_plain w) h in
    ap pieces (cons c w tail)
    ∙ pieces-letter c (w +++ tail) w ws (is_false _ plain) (pieces-append w tail ws plains e)

pieces-space :
    (s word : String) (words : List String)
    → pieces s ≡ (word, words)
    → pieces (" " +++ s) ≡ (String.[], push_word (word, words))
pieces-space s word words e =
    ap pieces (cons " " "" s ∙ ap (String.◌∷◌ " ") (nil s)) ∙ ap (λ r. (String.[], push_word r)) e

pieces-spaced : (ws : List String) → all_words ws ≡ true → pieces (spaced ws) ≡ (String.[], ws)
pieces-spaced [] h = refl
pieces-spaced (w ∷ ws) h =
    let (word, words) = both (is_word w) (all_words ws) h in
    let (full, plains) = both (not (is_empty w)) (all_chars is_plain w) word in
    pieces-space (w +++ spaced ws) w ws
      (pieces-append w (spaced ws) ws plains (pieces-spaced ws words))
    ∙ ap (λ b. (String.[], if b then ws else w ∷ ws)) (is_false _ full)

split_whitespace-append :
    (w tail : String) (ws : List String)
    → is_word w ≡ true
    → pieces tail ≡ (String.[], ws)
    → split_whitespace (w +++ tail) ≡ w ∷ ws
unfolding split_whitespace
split_whitespace-append w tail ws h e =
    let (full, plains) = both (not (is_empty w)) (all_chars is_plain w) h in
    ap push_word (pieces-append w tail ws plains e)
    ∙ ap (λ b. if b then ws else w ∷ ws) (is_false _ full)

-- Splitting gives back the words, with one space behind the first or two.
pub split_whitespace-spaced :
    (w : String) (ws : List String)
    → is_word w ≡ true
    → all_words ws ≡ true
    → split_whitespace (w +++ spaced ws) ≡ w ∷ ws
split_whitespace-spaced w ws h hs = split_whitespace-append w (spaced ws) ws h (pieces-spaced ws hs)

pub split_whitespace-wide :
    (w : String) (ws : List String)
    → is_word w ≡ true
    → all_words ws ≡ true
    → split_whitespace (w +++ " " +++ spaced ws) ≡ w ∷ ws
split_whitespace-wide w ws h hs =
    split_whitespace-append w (" " +++ spaced ws) ws h
      (pieces-space (spaced ws) String.[] ws (pieces-spaced ws hs))

pub split_whitespace-behind_space :
    (ws : List String) → all_words ws ≡ true → split_whitespace (spaced ws) ≡ ws
unfolding split_whitespace
split_whitespace-behind_space ws hs = ap push_word (pieces-spaced ws hs)

lines-letter :
    (c : Char) (s line : String) (rest : List String)
    → stays_on_line (code c) ≡ true
    → lines s ≡ line ∷ rest
    → lines (String.◌∷◌ c s) ≡ String.◌∷◌ c line ∷ rest
unfolding lines
lines-letter c s line rest h e =
    let (a, b) = both (not (code c == 10)) (not (code c == 13)) h in
    rw (is_false _ a, is_false _ b, e) refl

-- The first line ends in front of the first line feed.
pub lines-append :
    (line rest : String)
    → all_chars stays_on_line line ≡ true
    → lines (line +++ "\n" +++ rest) ≡ line ∷ lines rest
unfolding lines
lines-append String.[] rest h =
    ap lines (nil ("\n" +++ rest) ∙ cons "\n" "" rest ∙ ap (String.◌∷◌ "\n") (nil rest))
lines-append (String.◌∷◌ c s) rest h =
    let (stays, stay) = both (stays_on_line (code c)) (all_chars stays_on_line s) h in
    ap lines (cons c s ("\n" +++ rest))
    ∙ lines-letter c (s +++ "\n" +++ rest) s (lines rest) stays (lines-append s rest stay)

pub all_chars-append :
    (test : ℕ → Bool) (s t : String)
    → all_chars test s ≡ true
    → all_chars test t ≡ true
    → all_chars test (s +++ t) ≡ true
all_chars-append test String.[] t h k = ap (all_chars test) (nil t) ∙ k
all_chars-append test (String.◌∷◌ c s) t h k =
    let (a, b) = both (test (code c)) (all_chars test s) h in
    ap (all_chars test) (cons c s t) ∙ rw (a) (all_chars-append test s t b k)

plain-stays_on_line : (s : String) → all_chars is_plain s ≡ true → all_chars stays_on_line s ≡ true
plain-stays_on_line String.[] h = refl
plain-stays_on_line (String.◌∷◌ c s) h =
    let (a, b) = both (is_plain (code c)) (all_chars is_plain s) h in
    rw (stays (code c) a) (plain-stays_on_line s b)
  where
    stays : (n : ℕ) → is_plain n ≡ true → stays_on_line n ≡ true
    stays n h = ground arith

-- Words with spaces between them are on one line.
pub spaced-stays_on_line :
    (ws : List String) → all_words ws ≡ true → all_chars stays_on_line (spaced ws) ≡ true
spaced-stays_on_line [] h = refl
spaced-stays_on_line (w ∷ ws) h =
    let (word, words) = both (is_word w) (all_words ws) h in
    let (full, plains) = both (not (is_empty w)) (all_chars is_plain w) word in
    all_chars-append stays_on_line " " (w +++ spaced ws) refl (
      all_chars-append stays_on_line w (spaced ws) (plain-stays_on_line w plains)
        (spaced-stays_on_line ws words))
