-- ===== src/Pool/Names/Found.antt =====
-- The slot that a name is found at: no other slot carries the name, and releasing it frees the name.
use croutond.Base.{
  ℕ, zero, suc, String, ◌≡◌, ◌≢◌, refl, ◌∙◌, sym, ap, true, false, some, List, [], ◌∷◌, get_elem?,
  find, arith, Bool-cases, inl, inr, ◌⊎◌, subst,
}
use mathlib.Core.Option.{some-injective}
use croutond.Calls.{returned, >>=-returned, returned-injective, give}
use croutond.Types.{SlotStatus}
use croutond.Slot.{release_vm, get_vm_status}
use croutond.Slot.Handle.{SlotHandle}
use croutond.Pool.{
  ProcessPool, Env, size, ask, statuses_from, list_vm_slots, find_vm_slot_status_by_name, is_named,
  release_vm_slot, command_vm_slot,
}
use croutond.Pool.Keeps.{
  AskKeeps, statuses_from-Keeps, log_pool_occupancy-Keeps, Keeps-after, Keeps-bind, Keeps-give,
}
use croutond.Pool.Invariant.{PoolIsValid, ask-IsValid}
use croutond.Pool.Names.{name_of, IsTame}
use croutond.Pool.Names.Asked.{ask_status, ask_released, ask_slot}
use croutond.Pool.Names.Distinct.{IsFree, AreDistinct, IsFree-AllFade}
use croutond.Pool.Names.Fading.{
  IsFreeAt, IsFreeAt-AllFade, IsFree-places, ask_fade_Keeps, AreDistinct-Keeps,
}
use croutond.Pool.Names.Listing.{listed, is_named_eq}

-- No slot but the one at place `i` carries the name.
abbrev pub IsOnlyAt : String → ℕ → List SlotHandle → Type 0
IsOnlyAt name i hs = (j : ℕ) → j ≢ i → IsFreeAt name j hs

IsFree-get : (name : String) (hs : List SlotHandle) (i : ℕ) → IsFree name hs → IsFreeAt name i hs
IsFree-get name [] i n h e = cc
IsFree-get name (x ∷ hs) zero (n, ns) h e =
    subst (λ y. name_of y ≢ some name) (some-injective _ _ e) n
IsFree-get name (x ∷ hs) (suc i) (n, ns) h e = IsFree-get name hs i ns h e

AreDistinct-IsOnlyAt :
    (name : String) (hs : List SlotHandle) (i : ℕ) (h : SlotHandle)
    → AreDistinct hs
    → get_elem? hs i ≡ some h
    → name_of h ≡ some name
    → IsOnlyAt name i hs
AreDistinct-IsOnlyAt name [] i h d e o j n = cc
AreDistinct-IsOnlyAt name (x ∷ hs) zero h (d, ds) e o zero n = absurd (n refl)
AreDistinct-IsOnlyAt name (x ∷ hs) zero h (d, ds) e o (suc j) n =
    IsFree-get name hs j (d name (ap name_of (some-injective _ _ e) ∙ o))
AreDistinct-IsOnlyAt name (x ∷ hs) (suc i) h (d, ds) e o zero n = λ k at_start named.
    IsFree-get name hs i (d name (ap name_of (some-injective _ _ at_start) ∙ named)) h e o
AreDistinct-IsOnlyAt name (x ∷ hs) (suc i) h (d, ds) e o (suc j) n =
    AreDistinct-IsOnlyAt name hs i h ds e o j (λ same. n (ap suc same))

found_head :
    (name : String) (s t : SlotStatus) (rest : List SlotStatus)
    → find (is_named name) (s ∷ rest) ≡ some t
    → is_named name s ≡ true
    → s ≡ t
found_head name s t rest f n = some-injective _ _ (rw n at f)

found_tail :
    (name : String) (s t : SlotStatus) (rest : List SlotStatus)
    → find (is_named name) (s ∷ rest) ≡ some t
    → is_named name s ≡ false
    → find (is_named name) rest ≡ some t
found_tail name s t rest f n = rw n at f

module _ (env : Env) (tame : IsTame env) (name : String) where
  pub IsOnlyAt-Keeps : (i : ℕ) → AskKeeps env (λ p. IsOnlyAt name i p.slots) get_vm_status
  IsOnlyAt-Keeps i =
      ask_fade_Keeps env tame (IsOnlyAt name i) get_vm_status refl
        λ hs ks f only j n. IsFreeAt-AllFade name j hs ks f (only j n)

  ask-IsOnlyAt :
      (slot : ℕ) (p : ProcessPool) (s : SlotStatus)
      → AreDistinct p.slots
      → (ask env slot get_vm_status p).0 ≡ returned s
      → is_named name s ≡ true
      → IsOnlyAt name slot (ask env slot get_vm_status p).1.slots
  ask-IsOnlyAt slot p s d e n =
      let (h, there, same) = ask_status env slot p e in
      AreDistinct-IsOnlyAt name _ slot h
        ((AreDistinct-Keeps env tame get_vm_status refl slot).at p d) there
        (ap (λ x. x.name) same ∙ is_named_eq name s n)

  -- Where a listing finds a status with the name, no slot but that of the status carries the name.
  statuses_found :
      (n slot : ℕ) (p : ProcessPool) (statuses : List SlotStatus) (t : SlotStatus)
      → PoolIsValid p
      → AreDistinct p.slots
      → (statuses_from env n slot p).0 ≡ returned statuses
      → find (is_named name) statuses ≡ some t
      → IsOnlyAt name t.slot (statuses_from env n slot p).1.slots
  unfolding statuses_from
  statuses_found zero slot p statuses t v d e f = absurd (cc (returned-injective [] statuses e))
  statuses_found (suc n) slot p statuses t v d e f =
      let (s, rest, got, got', parts, same) = listed env tame name n slot p statuses e in
      let f' = rw parts at f in
      let p' = (ask env slot get_vm_status p).1 in
      elim (Bool-cases (is_named name s)) [
        | inl named ↦
            let here =
              ap (λ x. x.slot) (sym (found_head name s t rest f' named))
              ∙ ask_slot env slot p v got in
            rw same (
              subst (λ i. IsOnlyAt name i (statuses_from env n (suc slot) p').1.slots) (sym here)
                ((statuses_from-Keeps env (λ q. IsOnlyAt name slot q.slots) (IsOnlyAt-Keeps slot) n
                    (suc slot)).at
                  p' (ask-IsOnlyAt slot p s d got named)))
        | inr other ↦ rw same (
            statuses_found n (suc slot) p' rest t ((ask-IsValid env get_vm_status slot).at p v)
              ((AreDistinct-Keeps env tame get_vm_status refl slot).at p d) got'
              (found_tail name s t rest f' other))
      ]

  -- The slot that a search for the name finds is the only one that may carry the name.
  pub found-IsOnlyAt :
      (p : ProcessPool) (t : SlotStatus)
      → PoolIsValid p
      → AreDistinct p.slots
      → (find_vm_slot_status_by_name env name p).0 ≡ returned (some t)
      → IsOnlyAt name t.slot (find_vm_slot_status_by_name env name p).1.slots
  unfolding find_vm_slot_status_by_name list_vm_slots
  found-IsOnlyAt p t v d e =
      let (statuses, got, step) =
        >>=-returned (list_vm_slots env) (λ statuses. give (find (is_named name) statuses)) p e in
      let found =
        returned-injective (find (is_named name) statuses) (some t)
          (ap (λ x. x.0) (sym step) ∙ e) in
      rw (ap (λ x. x.1) step) (statuses_found (size p) 0 p statuses t v d got found)

  IsFree-Keeps : AskKeeps env (λ p. IsFree name p.slots) get_vm_status
  IsFree-Keeps = ask_fade_Keeps env tame (IsFree name) get_vm_status refl (IsFree-AllFade name)

  ask_released-IsFree :
      (slot : ℕ) (p : ProcessPool) (s : SlotStatus)
      → IsOnlyAt name slot p.slots
      → (ask env slot release_vm p).0 ≡ returned s
      → IsFree name (ask env slot release_vm p).1.slots
  ask_released-IsFree slot p s only e =
      let (h, there, nameless) = ask_released env slot p e in
      let others =
        (ask_fade_Keeps env tame (IsOnlyAt name slot) release_vm refl
            (λ hs ks f o j n. IsFreeAt-AllFade name j hs ks f (o j n)) slot).at
          p only in
      IsFree-places name _ λ i lt. elim (eq_or_ne i slot) [
        | inl same ↦ λ k at_i named. cc (rw same at at_i)
        | inr differs ↦ others i differs
      ]
    where
      eq_or_ne : (m n : ℕ) → (m ≡ n) ⊎ (m ≢ n)
      eq_or_ne m n = ground arith

  -- Releasing the only slot that may carry the name, with success, leaves no slot with the name.
  pub release_vm_slot-IsFree :
      (slot : ℕ) (p : ProcessPool) (s : SlotStatus)
      → IsOnlyAt name slot p.slots
      → (release_vm_slot env slot p).0 ≡ returned s
      → IsFree name (release_vm_slot env slot p).1.slots
  unfolding release_vm_slot command_vm_slot
  release_vm_slot-IsFree slot p s only e =
      let (t, got, step) = >>=-returned (ask env slot release_vm) _ p e in
      Keeps-after {P = λ q. IsFree name q.slots} (ask env slot release_vm) _
        (λ u.
          Keeps-bind _ _ (log_pool_occupancy-Keeps env (λ q. IsFree name q.slots) IsFree-Keeps)
            λ _. Keeps-give u)
        p (ask_released-IsFree slot p t only got)
