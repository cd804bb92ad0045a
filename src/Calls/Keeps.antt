-- ===== src/Calls/Keeps.antt =====
-- Invariants of calls: what a call keeps, however it ends, with one rule for each way to build a call.
use croutond.Base.{Bool, true, false, Result, ok, err, if◌then◌else◌}
use croutond.Calls.{
  Call, Outcome, returned, raised, pending, continue, ◌>>=◌, give, raise, lift, converted,
}

-- `m` keeps `P`, however it ends.
pub record Keeps {ℓ} {S E : Type 0} {A : Type ℓ} (P : S → Type 0) (m : Call S E A) : Type 0 where
  pub at : (p : S) → P p → P (m p).1

module _ {ℓ κ} {S E : Type 0} {A : Type ℓ} {B : Type κ} {P : S → Type 0} where
  pub Keeps-continue :
      (outcome : Outcome E A) (f : A → Call S E B)
      → ((a : A) → Keeps P (f a))
      → Keeps P (continue outcome f)
  Keeps-continue (returned a) f k = k a
  Keeps-continue (raised e) f k = record { at = λ p h. h }
  Keeps-continue pending f k = record { at = λ p h. h }

  pub Keeps-bind :
      (m : Call S E A) (f : A → Call S E B)
      → Keeps P m
      → ((a : A) → Keeps P (f a))
      → Keeps P (m >>= f)
  unfolding ◌>>=◌
  Keeps-bind m f k l = record { at = λ p h. (Keeps-continue (m p).0 f l).at (m p).1 (k.at p h) }

-- From a state with `P` the call leads to one with `Q`, however it ends.
pub record Leads {ℓ} {S E : Type 0} {A : Type ℓ} (P Q : S → Type 0) (m : Call S E A) : Type 0 where
  pub at : (p : S) → P p → Q (m p).1

module _ {ℓ κ} {S E : Type 0} {A : Type ℓ} {B : Type κ} {P Q : S → Type 0} where
  Leads-continue :
      (outcome : Outcome E A) (f : A → Call S E B)
      → ((p : S) → P p → Q p)
      → ((a : A) → Leads P Q (f a))
      → Leads P Q (continue outcome f)
  Leads-continue (returned a) f w k = k a
  Leads-continue (raised e) f w k = record { at = w }
  Leads-continue pending f w k = record { at = w }

  -- A call that keeps `P`, and one that leads from `P` to the weaker `Q`.
  pub Leads-bind :
      (m : Call S E A) (f : A → Call S E B)
      → ((p : S) → P p → Q p)
      → Keeps P m
      → ((a : A) → Leads P Q (f a))
      → Leads P Q (m >>= f)
  unfolding ◌>>=◌
  Leads-bind m f w k l = record { at = λ p h. (Leads-continue (m p).0 f w l).at (m p).1 (k.at p h) }

-- What holds after a first call holds after what follows, if that keeps it.
pub Keeps-after {ℓ κ} :
    {S E : Type 0} {A : Type ℓ} {B : Type κ} {P : S → Type 0} (m : Call S E A) (f : A → Call S E B)
    → ((a : A) → Keeps P (f a))
    → (p : S) → P (m p).1
    → P ((m >>= f) p).1
unfolding ◌>>=◌
Keeps-after m f kept p h = (Keeps-continue (m p).0 f kept).at (m p).1 h

pub Leads-after {ℓ κ} :
    {S E : Type 0} {A : Type ℓ} {B : Type κ} {P Q : S → Type 0} (m : Call S E A) (k : Call S E B)
    → ((p : S) → P p → Q p)
    → Leads P Q k
    → (p : S) → P (m p).1
    → Q ((m >>= λ _. k) p).1
unfolding ◌>>=◌
Leads-after m k weaken leads p h = (Leads-continue (m p).0 (λ _. k) weaken λ _. leads).at (m p).1 h

pub Keeps-give {ℓ} : {S E : Type 0} {A : Type ℓ} {P : S → Type 0} (a : A) → Keeps {E = E} P (give a)
Keeps-give a = record { at = λ p h. h }

module _ {ℓ} {S E : Type 0} {A : Type ℓ} {P : S → Type 0} where
  pub Keeps-raise : (e : E) → Keeps P (raise {A = A} e)
  Keeps-raise e = record { at = λ s h. h }

  pub Keeps-lift : (r : Result E A) → Keeps P (lift r)
  Keeps-lift (ok a) = Keeps-give a
  Keeps-lift (err e) = Keeps-raise e

  pub Keeps-if :
      (b : Bool) (m n : Call S E A) → Keeps P m → Keeps P n → Keeps P (if b then m else n)
  Keeps-if true m n k l = k
  Keeps-if false m n k l = l

  pub Keeps-converted :
      {F : Type 0} (f : E → F) (m : Call S E A) → Keeps P m → Keeps P (converted f m)
  Keeps-converted f m k = record { at = k.at }
