-- ===== src/Calls/Succeeds.antt =====
-- Calls that return, with what holds of the value and the state then: one rule for each way to build a
-- call.
use croutond.Base.{◌≡◌, refl, ◌∙◌, ap, Result, ok}
use croutond.Calls.{Call, returned, raised, ◌>>=◌, give, lift, converted, convert, continue}

-- From the state the call returns a value and leads to a state of which `Q` holds.
pub record Succeeds {ℓ} {S E : Type 0} {A : Type ℓ} (m : Call S E A) (s : S) (Q : A → S → Type 0)
    : Type ℓ where
  pub value : A
  pub end : S
  pub runs : m s ≡ (returned value, end)
  pub holds : Q value end

module _ {ℓ} {S E : Type 0} {A : Type ℓ} where
  pub Succeeds-give : (Q : A → S → Type 0) (a : A) (s : S) → Q a s → Succeeds {E = E} (give a) s Q
  Succeeds-give Q a s q = record { value = a; end = s; runs = refl; holds = q }

  pub Succeeds-lift :
      (Q : A → S → Type 0) (r : Result E A) (a : A) (s : S)
      → r ≡ ok a
      → Q a s
      → Succeeds (lift r) s Q
  Succeeds-lift Q r a s e q = record { value = a; end = s; runs = ap (λ x. lift x s) e; holds = q }

  -- A call with a known value.
  pub Succeeds-of :
      (Q : A → S → Type 0) (m : Call S E A) (a : A) (s : S)
      → (m s).0 ≡ returned a
      → Q a (m s).1
      → Succeeds m s Q
  Succeeds-of Q m a s e q = record {
    value = a;
    end = (m s).1;
    runs = ap (λ o. (o, (m s).1)) e;
    holds = q;
  }

  pub Succeeds-converted :
      {F : Type 0} (f : E → F) (Q : A → S → Type 0) (m : Call S E A) (s : S)
      → Succeeds m s Q
      → Succeeds (converted f m) s Q
  Succeeds-converted f Q m s h = record {
    value = h.value;
    end = h.end;
    runs = ap (λ x. (convert f x.0, x.1)) h.runs;
    holds = h.holds;
  }

pub Succeeds-bind {ℓ κ} :
    {S E : Type 0} {A : Type ℓ} {B : Type κ} (Q : A → S → Type 0) (R : B → S → Type 0)
    (m : Call S E A) (f : A → Call S E B) (s : S)
    → Succeeds m s Q
    → ((a : A) (t : S) → Q a t → Succeeds (f a) t R)
    → Succeeds (m >>= f) s R
unfolding ◌>>=◌
Succeeds-bind Q R m f s h k =
    let next = k h.value h.end h.holds in
    record {
      value = next.value;
      end = next.end;
      runs = ap (λ x. continue x.0 f x.1) h.runs ∙ next.runs;
      holds = next.holds;
    }

-- A call that returns, and one behind it that fails.
pub Succeeds-raises {ℓ κ} :
    {S E : Type 0} {A : Type ℓ} {B : Type κ} (Q : A → S → Type 0) (m : Call S E A)
    (f : A → Call S E B) (s : S) (e : E)
    → Succeeds m s Q
    → ((a : A) (t : S) → Q a t → (f a t).0 ≡ raised e)
    → ((m >>= f) s).0 ≡ raised e
unfolding ◌>>=◌
Succeeds-raises Q m f s e h k = ap (λ x. (continue x.0 f x.1).0) h.runs ∙ k h.value h.end h.holds

-- A call that fails, whatever stands behind it.
pub raises-bind {ℓ κ} :
    {S E : Type 0} {A : Type ℓ} {B : Type κ} (m : Call S E A) (f : A → Call S E B) (s : S) (e : E)
    → (m s).0 ≡ raised e
    → ((m >>= f) s).0 ≡ raised e
unfolding ◌>>=◌
raises-bind m f s e h = ap (λ o. (continue o f (m s).1).0) h
