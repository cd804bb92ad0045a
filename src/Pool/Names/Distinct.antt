-- ===== src/Pool/Names/Distinct.antt =====
-- No two slots of a pool carry one name.
use croutond.Base.{
  ℕ, zero, suc, String, ◌≡◌, ◌≢◌, refl, ◌∙◌, sym, inr, Option, none, some, List, [], ◌∷◌, ◌++◌, All,
  get_elem?, set, arith, subst,
}
use mathlib.Core.Option.{some-injective}
use croutond.Slot.Handle.{SlotHandle}
use croutond.Pool.Names.{name_of, Fades, Fades-trans}

-- No slot carries the name.
abbrev pub IsFree : String → List SlotHandle → Type 0
IsFree name hs = All (λ h. name_of h ≢ some name) hs

abbrev pub AreDistinct : List SlotHandle → Type 0
AreDistinct [] = Unit
AreDistinct (h ∷ hs) = ((name : String) → name_of h ≡ some name → IsFree name hs) × AreDistinct hs

some_eq {ℓ} : {A : Type ℓ} (a b : A) → some a ≡ some b → a ≡ b
some_eq a b e = some-injective _ _ e

-- Every slot's name has faded.
abbrev pub AllFade : List SlotHandle → List SlotHandle → Type 0
AllFade [] [] = Unit
AllFade (h ∷ hs) (k ∷ ks) = Fades (name_of h) (name_of k) × AllFade hs ks
AllFade _ _ = ⊥

pub AllFade-refl : (hs : List SlotHandle) → AllFade hs hs
AllFade-refl [] = tt
AllFade-refl (h ∷ hs) = (inr refl, AllFade-refl hs)

AllFade-trans : (hs ks ls : List SlotHandle) → AllFade hs ks → AllFade ks ls → AllFade hs ls
AllFade-trans [] [] [] f g = tt
AllFade-trans [] [] (l ∷ ls) f g = g
AllFade-trans [] (k ∷ ks) ls f g = absurd f
AllFade-trans (h ∷ hs) [] ls f g = absurd f
AllFade-trans (h ∷ hs) (k ∷ ks) [] f g = g
AllFade-trans (h ∷ hs) (k ∷ ks) (l ∷ ls) (f, fs) (g, gs) =
    (Fades-trans (name_of h) (name_of k) (name_of l) f g, AllFade-trans hs ks ls fs gs)

pub ne-Fades : (name : String) (a b : Option String) → Fades a b → a ≢ some name → b ≢ some name
ne-Fades name a b f n = ground arith

pub IsFree-AllFade :
    (name : String) (hs ks : List SlotHandle) → AllFade hs ks → IsFree name hs → IsFree name ks
IsFree-AllFade name [] [] f n = tt
IsFree-AllFade name [] (k ∷ ks) f n = absurd f
IsFree-AllFade name (h ∷ hs) [] f n = tt
IsFree-AllFade name (h ∷ hs) (k ∷ ks) (f, fs) (n, ns) =
    (ne-Fades name (name_of h) (name_of k) f n, IsFree-AllFade name hs ks fs ns)

old_name : (name : String) (a b : Option String) → Fades a b → b ≡ some name → a ≡ some name
old_name name a b f e = ground arith

pub AreDistinct-AllFade :
    (hs ks : List SlotHandle) → AllFade hs ks → AreDistinct hs → AreDistinct ks
AreDistinct-AllFade [] [] f d = tt
AreDistinct-AllFade [] (k ∷ ks) f d = absurd f
AreDistinct-AllFade (h ∷ hs) [] f d = tt
AreDistinct-AllFade (h ∷ hs) (k ∷ ks) (f, fs) (d, ds) = (
  λ name e. IsFree-AllFade name hs ks fs (d name (old_name name (name_of h) (name_of k) f e)),
  AreDistinct-AllFade hs ks fs ds,
)

pub AllFade-set :
    (hs : List SlotHandle) (i : ℕ) (h h' : SlotHandle)
    → get_elem? hs i ≡ some h
    → Fades (name_of h) (name_of h')
    → AllFade hs (set hs i h')
AllFade-set [] i h h' e f = tt
AllFade-set (x ∷ hs) zero h h' e f =
    (subst (λ y. Fades (name_of y) (name_of h')) (sym (some_eq x h e)) f, AllFade-refl hs)
AllFade-set (x ∷ hs) (suc i) h h' e f = (inr refl, AllFade-set hs i h h' e f)

IsFree-set :
    (name : String) (hs : List SlotHandle) (i : ℕ) (h' : SlotHandle)
    → IsFree name hs
    → name_of h' ≢ some name
    → IsFree name (set hs i h')
IsFree-set name [] i h' n m = tt
IsFree-set name (x ∷ hs) zero h' (n, ns) m = (m, ns)
IsFree-set name (x ∷ hs) (suc i) h' (n, ns) m = (n, IsFree-set name hs i h' ns m)

-- A slot that takes a free name is still the only one with it.
pub AreDistinct-set :
    (name : String) (hs : List SlotHandle) (i : ℕ) (h' : SlotHandle)
    → name_of h' ≡ some name
    → IsFree name hs
    → AreDistinct hs
    → AreDistinct (set hs i h')
AreDistinct-set name [] i h' e n d = tt
AreDistinct-set name (x ∷ hs) zero h' e (n, ns) (d, ds) =
    (λ other o. subst (λ s. IsFree s hs) (some_eq name other (sym e ∙ o)) ns, ds)
AreDistinct-set name (x ∷ hs) (suc i) h' e (n, ns) (d, ds) = (
  λ other o. IsFree-set other hs i h' (d other o) (λ o'. n (o ∙ sym o' ∙ e)),
  AreDistinct-set name hs i h' e ns ds,
)

pub IsFree-append :
    (name : String) (hs : List SlotHandle) (h : SlotHandle)
    → name_of h ≡ none
    → IsFree name hs
    → IsFree name (hs ++ h ∷ [])
IsFree-append name [] h e n = (λ o. cc, tt)
IsFree-append name (x ∷ hs) h e (n, ns) = (n, IsFree-append name hs h e ns)

pub AreDistinct-append :
    (hs : List SlotHandle) (h : SlotHandle)
    → name_of h ≡ none
    → AreDistinct hs
    → AreDistinct (hs ++ h ∷ [])
AreDistinct-append [] h e d = (λ name o. tt, tt)
AreDistinct-append (x ∷ hs) h e (d, ds) =
    (λ name o. IsFree-append name hs h e (d name o), AreDistinct-append hs h e ds)
