-- ===== src/Base/Text/Decimal.antt =====
-- Decimal numbers as `format!` prints them and `str::parse` reads them.
use Prim.Native.Nat.{ℕ, zero, suc, ◌+◌, ◌-◌, ◌*◌, ◌/◌, ◌%◌, ◌<◌, ◌≤◌}
use Prim.Native.Char.{Char, code}
use Prim.Native.String.{String, [], ◌∷◌}
use mathlib.Core.Path.{◌≡◌, refl, ◌∙◌}
use mathlib.Core.Logic.{inl, inr}
use mathlib.Core.Bool.{Bool, true, false, ◌&&◌}
use native.Mathlib.Omega.{arith}
use croutond.Base.Text.{is_empty}
use croutond.Base.Text.Spaced.{all_chars, is_plain, is_word}
use croutond.Base.Results.{Result, ok, err}
use croutond.Base.Tests.{ltb, leb, ltb→lt, ◌==◌, if◌then◌else◌, Bool-cases}

abbrev digit : ℕ → Char
digit d =
    if d == 0
    then "0"
    else if d == 1
    then "1"
    else if d == 2
    then "2"
    else if d == 3
    then "3"
    else if d == 4
    then "4"
    else if d == 5
    then "5"
    else if d == 6
    then "6"
    else if d == 7
    then "7"
    else if d == 8
    then "8"
    else "9"

-- The digits of `n` in front of `out`, the last one first.
decimal_from : ℕ → ℕ → String → String
decimal_from zero n out = out
decimal_from (suc fuel) n out =
    let more = decimal_from fuel (n / 10) (digit (n % 10) ∷ out) in
    if ltb n 10 then digit n ∷ out else more

-- `{n}` in a format string. A number has fewer digits than its successor counts.
unfoldable pub decimal : ℕ → String
unfolding decimal_from
decimal n = decimal_from (suc n) n []

abbrev pub is_digit : Char → Bool
is_digit c = leb b'0' (code c) && leb (code c) b'9'

-- The `Display` texts of `ParseIntError`.
abbrev pub empty_number : String
empty_number = "cannot parse integer from empty string"

abbrev pub invalid_digit : String
invalid_digit = "invalid digit found in string"

abbrev pub too_large : String
too_large = "number too large to fit in target type"

-- The digits to the right of the value `n` read so far, in a type of at most `limit`.
parse_from : ℕ → ℕ → String → Result String ℕ
parse_from limit n [] = ok n
parse_from limit n (c ∷ s) =
    let n' = n * 10 + (code c - b'0') in
    let rest = parse_from limit n' s in
    if is_digit c then (if leb n' limit then rest else err too_large) else err invalid_digit

-- `str::parse` into an unsigned type of at most `limit`: an optional `+`, then digits.
unfoldable pub parse_uint : ℕ → String → Result String ℕ
unfolding parse_from
parse_uint limit [] = err empty_number
parse_uint limit (c ∷ []) = parse_from limit 0 (c ∷ [])
parse_uint limit (c ∷ d ∷ s) =
    if code c == b'+' then parse_from limit 0 (d ∷ s) else parse_from limit 0 (c ∷ d ∷ s)

digit-value : (d : ℕ) → d < 10 → code (digit d) ≡ b'0' + d
digit-value zero h = refl
digit-value (suc zero) h = refl
digit-value (suc (suc zero)) h = refl
digit-value (suc (suc (suc zero))) h = refl
digit-value (suc (suc (suc (suc zero)))) h = refl
digit-value (suc (suc (suc (suc (suc zero))))) h = refl
digit-value (suc (suc (suc (suc (suc (suc zero)))))) h = refl
digit-value (suc (suc (suc (suc (suc (suc (suc zero))))))) h = refl
digit-value (suc (suc (suc (suc (suc (suc (suc (suc zero)))))))) h = refl
digit-value (suc (suc (suc (suc (suc (suc (suc (suc (suc zero))))))))) h = refl
digit-value (suc (suc (suc (suc (suc (suc (suc (suc (suc (suc d)))))))))) h = absurd (omega arith)

parse_from-digit :
    (limit n d v : ℕ) (s : String)
    → d < 10
    → v ≡ n * 10 + d
    → v ≤ limit
    → parse_from limit n (digit d ∷ s) ≡ parse_from limit v s
unfolding parse_from
parse_from-digit limit n d v s h e k = ground (arith, digit-value d h)

parse_from-decimal_from :
    (fuel limit n : ℕ) (out : String)
    → n < fuel
    → n ≤ limit
    → parse_from limit 0 (decimal_from fuel n out) ≡ parse_from limit n out
unfolding decimal_from
parse_from-decimal_from zero limit n out h k = elim h [ ]
parse_from-decimal_from (suc fuel) limit n out h k = elim (Bool-cases (ltb n 10)) [
  | inl small ↦ rw small (parse_from-digit limit 0 n n out (ltb→lt n 10 small) (omega arith) k)
  | inr large ↦ rw large (
      parse_from-decimal_from fuel limit (n / 10) (digit (n % 10) ∷ out) (ground arith)
        (omega arith)
      ∙ parse_from-digit limit (n / 10) (n % 10) n out (omega arith) (omega arith) k)
]

parse_from-decimal : (limit n : ℕ) → n ≤ limit → parse_from limit 0 (decimal n) ≡ ok n
unfolding decimal parse_from
parse_from-decimal limit n h = parse_from-decimal_from (suc n) limit n [] (omega arith) h

-- Distinct numbers print differently.
pub decimal_injective : (m n : ℕ) → decimal m ≡ decimal n → m ≡ n
decimal_injective m n e =
    cc (parse_from-decimal (m + n) m (omega arith), parse_from-decimal (m + n) n (omega arith))

parse-decimal_test : parse_uint 100 (decimal 97) ≡ ok 97
unfolding parse_uint decimal
parse-decimal_test = refl

-- A text that reads as a number without a sign does so with `parse`, if it is not empty.
parse_uint_of_digits :
    (limit v : ℕ) (s : String)
    → is_empty s ≡ false
    → parse_from limit 0 s ≡ ok v
    → parse_uint limit s ≡ ok v
unfolding parse_uint parse_from
parse_uint_of_digits limit v [] h e = cc
parse_uint_of_digits limit v (c ∷ []) h e = e
parse_uint_of_digits limit v (c ∷ d ∷ s) h e = ground arith

decimal_from_not_empty :
    (fuel n : ℕ) (out : String) → is_empty out ≡ false → is_empty (decimal_from fuel n out) ≡ false
unfolding decimal_from
decimal_from_not_empty zero n out h = h
decimal_from_not_empty (suc fuel) n out h = elim (Bool-cases (ltb n 10)) [
  | inl small ↦ rw small refl
  | inr large ↦ rw large (decimal_from_not_empty fuel (n / 10) (digit (n % 10) ∷ out) refl)
]

decimal_not_empty : (n : ℕ) → is_empty (decimal n) ≡ false
unfolding decimal decimal_from
decimal_not_empty n = elim (Bool-cases (ltb n 10)) [
  | inl small ↦ rw small refl
  | inr large ↦ rw large (decimal_from_not_empty n (n / 10) (digit (n % 10) ∷ []) refl)
]

-- Reading back what was printed.
pub parse_uint-decimal : (limit n : ℕ) → n ≤ limit → parse_uint limit (decimal n) ≡ ok n
parse_uint-decimal limit n h =
    parse_uint_of_digits limit n (decimal n) (decimal_not_empty n) (parse_from-decimal limit n h)

digit-is_plain : (d : ℕ) → d < 10 → is_plain (code (digit d)) ≡ true
digit-is_plain zero h = refl
digit-is_plain (suc zero) h = refl
digit-is_plain (suc (suc zero)) h = refl
digit-is_plain (suc (suc (suc zero))) h = refl
digit-is_plain (suc (suc (suc (suc zero)))) h = refl
digit-is_plain (suc (suc (suc (suc (suc zero))))) h = refl
digit-is_plain (suc (suc (suc (suc (suc (suc zero)))))) h = refl
digit-is_plain (suc (suc (suc (suc (suc (suc (suc zero))))))) h = refl
digit-is_plain (suc (suc (suc (suc (suc (suc (suc (suc zero)))))))) h = refl
digit-is_plain (suc (suc (suc (suc (suc (suc (suc (suc (suc zero))))))))) h = refl
digit-is_plain (suc (suc (suc (suc (suc (suc (suc (suc (suc (suc d)))))))))) h =
    absurd (omega arith)

decimal_from-is_plain :
    (fuel n : ℕ) (out : String)
    → all_chars is_plain out ≡ true
    → all_chars is_plain (decimal_from fuel n out) ≡ true
unfolding decimal_from
decimal_from-is_plain zero n out h = h
decimal_from-is_plain (suc fuel) n out h = elim (Bool-cases (ltb n 10)) [
  | inl small ↦ rw (small, digit-is_plain n (ltb→lt n 10 small)) h
  | inr large ↦ rw large (
      decimal_from-is_plain fuel (n / 10) (digit (n % 10) ∷ out)
        (rw (digit-is_plain (n % 10) (omega arith)) h))
]

-- A printed number is one word.
pub decimal-is_word : (n : ℕ) → is_word (decimal n) ≡ true
unfolding decimal
decimal-is_word n = rw (decimal_not_empty n) (decimal_from-is_plain (suc n) n [] refl)
