-- ===== src/Calls.antt =====
-- Calls on a shared object, as async methods make them: state, failure, and calls that never return.
pub mod Keeps
pub mod Succeeds
pub mod Settles
use croutond.Base.{ap, Result, ok, err, ◌≡◌, refl, Bool, true, false}

-- `pending`: the call waits for something that never comes.
pub data Outcome {ℓ} (E : Type 0) (A : Type ℓ) : Type ℓ where
  returned : A → Outcome E A
  raised : E → Outcome E A
  pending : Outcome E A

abbrev pub Call {ℓ} : Type 0 → Type 0 → Type ℓ → Type ℓ
Call S E A = S → Outcome E A × S

abbrev pub continue {ℓ κ} :
    {S E : Type 0} {A : Type ℓ} {B : Type κ} → Outcome E A → (A → Call S E B) → Call S E B
continue (returned a) f s = f a s
continue (raised e) f s = (raised e, s)
continue pending f s = (pending, s)

infixl 5 ◌>>=◌ ◌>>◌
unfoldable pub ◌>>=◌ {ℓ κ} :
    {S E : Type 0} {A : Type ℓ} {B : Type κ} → Call S E A → (A → Call S E B) → Call S E B
◌>>=◌ m f s = let (r, s') = m s in continue r f s'

abbrev pub ◌>>◌ {ℓ κ} :
    {S E : Type 0} {A : Type ℓ} {B : Type κ} → Call S E A → Call S E B → Call S E B
m >> k = m >>= λ _. k

module _ {ℓ} {S E : Type 0} {A : Type ℓ} where
  abbrev pub give : A → Call S E A
  give a s = (returned a, s)

  abbrev pub raise : E → Call S E A
  raise e s = (raised e, s)

  abbrev pub hang : Call S E A
  hang s = (pending, s)

  -- A computed result as a call.
  abbrev pub lift : Result E A → Call S E A
  lift (ok a) s = (returned a, s)
  lift (err e) s = (raised e, s)

abbrev pub is_pending {ℓ} : {E : Type 0} {A : Type ℓ} → Outcome E A → Bool
is_pending (returned a) = false
is_pending (raised e) = false
is_pending pending = true

abbrev pub convert {ℓ} : {E F : Type 0} {A : Type ℓ} → (E → F) → Outcome E A → Outcome F A
convert f (returned a) = returned a
convert f (raised e) = raised (f e)
convert f pending = pending

-- `?` on a call whose error has a conversion.
abbrev pub converted {ℓ} : {S E F : Type 0} {A : Type ℓ} → (E → F) → Call S E A → Call S F A
converted f m s = let (r, s') = m s in (convert f r, s')

continue-returned {ℓ κ} :
    {S E : Type 0} {A : Type ℓ} {B : Type κ} (o : Outcome E A) (f : A → Call S E B) (s : S) {b : B}
    → (continue o f s).0 ≡ returned b
    → (a : A) × (o ≡ returned a) × (continue o f s ≡ f a s)
continue-returned (returned a) f s e = (a, refl, refl)
continue-returned (raised x) f s e = cc
continue-returned pending f s e = cc

-- Inversion of a bind that returned.
pub >>=-returned {ℓ κ} :
    {S E : Type 0} {A : Type ℓ} {B : Type κ} (m : Call S E A) (f : A → Call S E B) (s : S) {b : B}
    → ((m >>= f) s).0 ≡ returned b
    → (a : A) × ((m s).0 ≡ returned a) × ((m >>= f) s ≡ f a (m s).1)
unfolding ◌>>=◌
>>=-returned m f s e = continue-returned (m s).0 f (m s).1 e

pub returned-injective {ℓ} :
    {E : Type 0} {A : Type ℓ} (a b : A) → ◌≡◌ {A = Outcome E A} (returned a) (returned b) → a ≡ b
returned-injective a b e = cc

pub convert-returned {ℓ} :
    {E F : Type 0} {A : Type ℓ} (f : E → F) (o : Outcome E A) {a : A}
    → convert f o ≡ returned a
    → o ≡ returned a
convert-returned f (returned a) e = cc
convert-returned f (raised x) e = cc
convert-returned f pending e = cc

pub convert-is_pending {ℓ} :
    {E F : Type 0} {A : Type ℓ} (f : E → F) (o : Outcome E A)
    → is_pending (convert f o) ≡ is_pending o
convert-is_pending f (returned a) = refl
convert-is_pending f (raised e) = refl
convert-is_pending f pending = refl

pub lift-returned {ℓ} :
    {S E : Type 0} {A : Type ℓ} (r : Result E A) (s : S) {a : A}
    → (lift r s).0 ≡ returned a
    → (r ≡ ok a) × ((lift r s).1 ≡ s)
lift-returned (ok a) s e = (ap ok (returned-injective a _ e), refl)
lift-returned (err x) s e = cc
