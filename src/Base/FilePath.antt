-- ===== src/Base/FilePath.antt =====
-- Unix paths as `std::path` treats them, over texts.
use Prim.Native.Char.{code}
use Prim.Native.String.{String, [], ◌∷◌}
use mathlib.Core.Bool.{Bool, false, ◌||◌}
use mathlib.Core.List.{List}
use mathlib.Core.Option.{Option, none, some}
use text.Mathlib.Text.{◌==◌ as str_eq}
use croutond.Base.Tests.{◌==◌, if◌then◌else◌}
use croutond.Base.Text.{◌+++◌}

-- `Path::is_absolute`
unfoldable pub is_absolute : String → Bool
is_absolute [] = false
is_absolute (c ∷ path) = code c == b'/'

ends_with_slash : String → Bool
ends_with_slash [] = false
ends_with_slash (c ∷ []) = code c == b'/'
ends_with_slash (c ∷ d ∷ path) = ends_with_slash (d ∷ path)

-- `Path::join` with a relative file name: a separator is put between them where one is missing.
unfoldable pub join : String → String → String
unfolding ends_with_slash
join [] file = file
join (c ∷ path) file =
    if ends_with_slash (c ∷ path) then (c ∷ path) +++ file else (c ∷ path) +++ "/" +++ file

reverse_onto : String → String → String
reverse_onto [] out = out
reverse_onto (c ∷ s) out = reverse_onto s (c ∷ out)

-- The components of a path, the last one first: `seen` is the component being read, backwards, and
-- `before` those in front of it.
split_slashes : String → List String → String → List String
unfolding reverse_onto
split_slashes seen before [] = List.◌∷◌ (reverse_onto seen []) before
split_slashes seen before (c ∷ path) =
    split_slashes (if code c == b'/' then [] else c ∷ seen)
      (if code c == b'/' then List.◌∷◌ (reverse_onto seen []) before else before) path

-- `Path::file_name`: the last component, where slashes at the end and `.` do not count; none of `..`.
last_component : List String → Option String
last_component List.[] = none
last_component (List.◌∷◌ part before) =
    if str_eq part [] || str_eq part "."
    then last_component before
    else if str_eq part ".."
    then none
    else some part

unfoldable pub file_name : String → Option String
unfolding split_slashes last_component
file_name path = last_component (split_slashes [] List.[] path)

-- What stands behind the last full stop of a name, if one stands there.
after_dot : String → Option String
after_dot [] = none
after_dot (c ∷ name) = elim (after_dot name) [
  | some rest ↦ some rest
  | none ↦ if code c == b'.' then some name else none
]

-- `Path::extension`: a full stop at the start of the name begins no extension.
extension_of : String → Option String
unfolding after_dot
extension_of [] = none
extension_of (c ∷ name) = after_dot name

unfoldable pub extension : String → Option String
unfolding file_name extension_of
extension path = elim (file_name path) [ none ↦ none | some name ↦ extension_of name ]

-- Parts of a path, the last one first, without empty parts and `.` at its end. The first part stays:
-- it is empty where the path is absolute.
trim_parts : List String → List String
trim_parts List.[] = List.[]
trim_parts (List.◌∷◌ first List.[]) = List.◌∷◌ first List.[]
trim_parts (List.◌∷◌ part (List.◌∷◌ next before)) =
    let rest = trim_parts (List.◌∷◌ next before) in
    if str_eq part [] || str_eq part "." then rest else List.◌∷◌ part (List.◌∷◌ next before)

with_slashes : String → List String → String
with_slashes tail List.[] = tail
with_slashes tail (List.◌∷◌ part before) = with_slashes (part +++ "/" +++ tail) before

path_of : List String → String
unfolding with_slashes
path_of List.[] = []
path_of (List.◌∷◌ [] List.[]) = "/"
path_of (List.◌∷◌ part before) = with_slashes part before

without_last : List String → Option String
unfolding path_of trim_parts
without_last List.[] = none
without_last (List.◌∷◌ [] List.[]) = none
without_last (List.◌∷◌ (c ∷ part) List.[]) = some []
without_last (List.◌∷◌ part (List.◌∷◌ next before)) =
    some (path_of (trim_parts (List.◌∷◌ next before)))

-- `Path::parent`: none of the root and of the empty path.
unfoldable pub parent : String → Option String
unfolding split_slashes trim_parts without_last
parent path = without_last (trim_parts (split_slashes [] List.[] path))
