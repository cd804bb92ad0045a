-- ===== src/Json.antt =====
-- Values of serde_json, as `json!` builds them. An object's keys are kept in the order written.
use croutond.Base.{
  ℕ, String, Bool, Option, none, some, List, [], ◌∷◌, str_eq, if◌then◌else◌, zero, suc,
}

mutual
  pub data Json : Type 0 where
    null : Json
    bool : Bool → Json
    num : ℕ → Json
    str : String → Json
    arr : Items → Json
    obj : Fields → Json

  pub data Items : Type 0 where
    nil : Items
    cons : Json → Items → Items

  pub data Fields : Type 0 where
    end : Fields
    entry : String → Json → Fields → Fields

-- An `Option` of a text, or of a path, which serialises as its text.
abbrev pub optional : Option String → Json
optional none = null
optional (some s) = str s

-- A `Vec` of values.
abbrev pub array : List Json → Items
array [] = nil
array (j ∷ js) = cons j (array js)

lookup : String → Fields → Json
lookup key end = null
lookup key (entry k j fields) = if str_eq k key then j else lookup key fields

-- `value[key]`, which is null where the key is missing.
unfoldable pub at : Json → String → Json
unfolding lookup
at (obj fields) key = lookup key fields
at _ key = null

nth : Items → ℕ → Json
nth nil i = null
nth (cons j js) zero = j
nth (cons j js) (suc i) = nth js i

-- `value[i]`
unfoldable pub at_index : Json → ℕ → Json
unfolding nth
at_index (arr items) i = nth items i
at_index _ i = null

abbrev pub items_to_list : Items → List Json
items_to_list nil = []
items_to_list (cons j js) = j ∷ items_to_list js

-- `value.as_array()`, with no element where the value is no array.
abbrev pub elements : Json → List Json
elements (arr items) = items_to_list items
elements _ = []
