-- ===== src/Base/Places.antt =====
-- Finding an element of a list, and putting another in its place.
use Prim.Native.Nat.{ℕ, zero, suc}
use mathlib.Core.Path.{◌≡◌, refl, ap, sym, subst}
use mathlib.Core.Logic.{inl, inr}
use mathlib.Core.Bool.{Bool, true, false}
use mathlib.Core.List.{List, [], ◌∷◌, ◌++◌}
use mathlib.Core.Option.{none, some, some-injective}
use croutond.Base.Tests.{Bool-cases}
use croutond.Base.Lists.{length, get_elem?, set, find, All}

pub set_same {ℓ} :
    {A : Type ℓ} (xs : List A) (i : ℕ) (x : A) → get_elem? xs i ≡ some x → set xs i x ≡ xs
set_same [] i x e = refl
set_same (y ∷ ys) zero x e = ap (λ z. z ∷ ys) (sym (some-injective _ _ e))
set_same (y ∷ ys) (suc i) x e = ap (λ zs. y ∷ zs) (set_same ys i x e)

pub All-get {ℓ κ} :
    {A : Type ℓ} (P : A → Type κ) (xs : List A) (i : ℕ) (x : A)
    → All P xs
    → get_elem? xs i ≡ some x
    → P x
All-get P [] i x h e = cc
All-get P (y ∷ ys) zero x (h, hs) e = subst P (some-injective _ _ e) h
All-get P (y ∷ ys) (suc i) x (h, hs) e = All-get P ys i x hs e

pub find-true {ℓ} :
    {A : Type ℓ} (test : A → Bool) (xs : List A) (x : A) → find test xs ≡ some x → test x ≡ true
find-true test [] x e = cc
find-true test (y ∷ ys) x e = elim (Bool-cases (test y)) [
  | inl hit ↦ subst (λ z. test z ≡ true) (some-injective y x (rw hit at e)) hit
  | inr miss ↦ find-true test ys x (rw miss at e)
]

pub find-append {ℓ} :
    {A : Type ℓ} (test : A → Bool) (xs : List A) (x : A)
    → find test xs ≡ none
    → test x ≡ true
    → find test (xs ++ x ∷ []) ≡ some x
find-append test [] x e h = rw h refl
find-append test (y ∷ ys) x e h = elim (Bool-cases (test y)) [
  | inl hit ↦ cc (rw hit at e)
  | inr miss ↦ rw miss (find-append test ys x (rw miss at e) h)
]

pub set-append_last {ℓ} :
    {A : Type ℓ} (xs : List A) (x y : A) → set (xs ++ x ∷ []) (length xs) y ≡ xs ++ y ∷ []
set-append_last [] x y = refl
set-append_last (z ∷ xs) x y = ap (λ zs. z ∷ zs) (set-append_last xs x y)

pub find-append_none {ℓ} :
    {A : Type ℓ} (test : A → Bool) (xs : List A) (x : A)
    → find test xs ≡ none
    → test x ≡ false
    → find test (xs ++ x ∷ []) ≡ none
find-append_none test [] x e h = rw h refl
find-append_none test (y ∷ ys) x e h = elim (Bool-cases (test y)) [
  | inl hit ↦ absurd (cc (rw hit at e))
  | inr miss ↦ rw miss (find-append_none test ys x (rw miss at e) h)
]

pub get_elem?-append_last {ℓ} :
    {A : Type ℓ} (xs : List A) (x : A) → get_elem? (xs ++ x ∷ []) (length xs) ≡ some x
get_elem?-append_last [] x = refl
get_elem?-append_last (y ∷ ys) x = get_elem?-append_last ys x
