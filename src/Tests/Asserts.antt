-- ===== src/Tests/Asserts.antt =====
-- What the source's unit tests assert with: `assert_eq!`, `expect`, `expect_err` and the match of the
-- error that it returns. A test is true where it does not panic.
use croutond.Base.{
  ℕ, String, Bool, true, false, ◌&&◌, ◌==◌, Option, none, some, List, [], ◌∷◌, str_eq, Result, ok,
  err,
}
use croutond.Base.Text.{contains}
use croutond.Calls.{Outcome, returned, raised}
use croutond.Error.{ApiError, validation, not_found, conflict, backend}
use croutond.Json.{Json, Fields, end, entry}

abbrev pub expect : {E A : Type 0} → (A → Bool) → Result E A → Bool
expect test (ok a) = test a
expect test (err e) = false

abbrev pub expect_err : {E A : Type 0} → (E → Bool) → Result E A → Bool
expect_err test (ok a) = false
expect_err test (err e) = test e

-- The result of a call that is awaited.
abbrev pub awaits : {E A : Type 0} → (A → Bool) → Outcome E A → Bool
awaits test (returned a) = test a
awaits test _ = false

abbrev pub awaits_err : {E A : Type 0} → (E → Bool) → Outcome E A → Bool
awaits_err test (raised e) = test e
awaits_err test _ = false

abbrev pub conflict_with : String → ApiError → Bool
conflict_with part (conflict message) = contains part message
conflict_with part _ = false

abbrev pub not_found_with : String → ApiError → Bool
not_found_with part (not_found message) = contains part message
not_found_with part _ = false

abbrev pub backend_with : String → String → ApiError → Bool
backend_with part part' (backend message) = contains part message && contains part' message
backend_with part part' _ = false

abbrev pub some_eq : String → Option String → Bool
some_eq expected (some text) = str_eq text expected
some_eq expected none = false

abbrev pub validation_of : String → (String → Bool) → ApiError → Bool
validation_of field test (validation f error) = some_eq field f && test error
validation_of field test _ = false

abbrev pub some_number : ℕ → Option ℕ → Bool
some_number expected (some n) = n == expected
some_number expected none = false

abbrev pub bytes_eq : List ℕ → List ℕ → Bool
bytes_eq [] [] = true
bytes_eq (a ∷ xs) (b ∷ ys) = (a == b) && bytes_eq xs ys
bytes_eq _ _ = false

abbrev pub texts_eq : List String → List String → Bool
texts_eq [] [] = true
texts_eq (a ∷ xs) (b ∷ ys) = str_eq a b && texts_eq xs ys
texts_eq _ _ = false

-- `value == Value::from(n)`, and the same of a text.
abbrev pub is_number : ℕ → Json → Bool
is_number n (Json.num m) = m == n
is_number n _ = false

abbrev pub is_text : String → Json → Bool
is_text text (Json.str s) = str_eq s text
is_text text _ = false

abbrev pub is_array : Json → Bool
is_array (Json.arr items) = true
is_array _ = false

-- `value.get(key).is_none()`
abbrev lacks_field : String → Fields → Bool
lacks_field key end = true
lacks_field key (entry k j fields) = elim (str_eq k key) [
  | true ↦ false
  | false ↦ lacks_field key fields
]

abbrev pub lacks : String → Json → Bool
lacks key (Json.obj fields) = lacks_field key fields
lacks key _ = true
