-- ===== src/Calls/Settles.antt =====
-- Calls that come to an end, with what holds of the value and the state then, or of the error and the
-- state.
use croutond.Base.{Bool, true, false, ◌≡◌, refl, sym, subst, if◌then◌else◌}
use croutond.Calls.{Call, Outcome, returned, raised, pending, raise, continue, ◌>>=◌}
use croutond.Calls.Succeeds.{Succeeds}

abbrev pub Settled {ℓ} :
    {S E : Type 0} {A : Type ℓ} → (A → S → Type 0) → (E → S → Type 0) → Outcome E A × S → Type 0
Settled Q R (returned a, s) = Q a s
Settled Q R (raised e, s) = R e s
Settled Q R (pending, s) = ⊥

pub record Settles {ℓ} {S E : Type 0} {A : Type ℓ} (m : Call S E A) (s : S) (Q : A → S → Type 0)
    (R : E → S → Type 0) : Type 0 where
  pub at : Settled Q R (m s)

module _ {ℓ} {S E : Type 0} {A : Type ℓ} (Q : A → S → Type 0) (R : E → S → Type 0) where
  pub Settles-success : (m : Call S E A) (s : S) → Succeeds m s Q → Settles m s Q R
  Settles-success m s h = record { at = subst (Settled Q R) (sym h.runs) h.holds }

  pub Settles-raise : (e : E) (s : S) → R e s → Settles (raise e) s Q R
  Settles-raise e s h = record { at = h }

  pub Settles-if :
      (b : Bool) (m n : Call S E A) (s : S)
      → (b ≡ true → Settles m s Q R)
      → (b ≡ false → Settles n s Q R)
      → Settles (if b then m else n) s Q R
  Settles-if true m n s h k = h refl
  Settles-if false m n s h k = k refl

Settled-continue {ℓ κ} :
    {S E : Type 0} {A : Type ℓ} {B : Type κ} (P : A → S → Type 0) (Q : B → S → Type 0)
    (R : E → S → Type 0) (f : A → Call S E B) (outcome : Outcome E A) (s : S)
    → Settled P R (outcome, s)
    → ((a : A) (t : S) → P a t → Settles (f a) t Q R)
    → Settled Q R (continue outcome f s)
Settled-continue P Q R f (returned a) s h k = (k a s h).at
Settled-continue P Q R f (raised e) s h k = h
Settled-continue P Q R f pending s h k = h

pub Settles-bind {ℓ κ} :
    {S E : Type 0} {A : Type ℓ} {B : Type κ} (P : A → S → Type 0) (Q : B → S → Type 0)
    (R : E → S → Type 0) (m : Call S E A) (f : A → Call S E B) (s : S)
    → Settles m s P R
    → ((a : A) (t : S) → P a t → Settles (f a) t Q R)
    → Settles (m >>= f) s Q R
unfolding ◌>>=◌
Settles-bind P Q R m f s h k = record { at = Settled-continue P Q R f (m s).0 (m s).1 h.at k }

Settled-weaken {ℓ} :
    {S E : Type 0} {A : Type ℓ} (P Q : A → S → Type 0) (R R' : E → S → Type 0) (x : Outcome E A × S)
    → ((a : A) (t : S) → P a t → Q a t)
    → ((e : E) (t : S) → R e t → R' e t)
    → Settled P R x
    → Settled Q R' x
Settled-weaken P Q R R' (returned a, s) k l h = k a s h
Settled-weaken P Q R R' (raised e, s) k l h = l e s h
Settled-weaken P Q R R' (pending, s) k l h = h

pub Settles-weaken {ℓ} :
    {S E : Type 0} {A : Type ℓ} (P Q : A → S → Type 0) (R R' : E → S → Type 0) (m : Call S E A)
    (s : S)
    → ((a : A) (t : S) → P a t → Q a t)
    → ((e : E) (t : S) → R e t → R' e t)
    → Settles m s P R
    → Settles m s Q R'
Settles-weaken P Q R R' m s k l h = record { at = Settled-weaken P Q R R' (m s) k l h.at }
