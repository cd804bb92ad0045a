-- ===== src/Pool/Quiet/Reserved.antt =====
-- What the specification of an allocation says of the slot that is reserved.
use croutond.Base.{
  ℕ, String, ◌≡◌, refl, ap, none, some, List, [], ◌∷◌, ◌++◌, get_elem?, set, find, length,
  set-append_last, find-append_none, get_elem?-append_last, subst, Option-cases, Bool-cases, inl,
  inr, leb, lt_of_get_elem?, get_elem?-set_self,
}
use croutond.Base.Text.{◌+++◌}
use croutond.Base.Text.Decimal.{decimal}
use croutond.Types.{SlotStatus, empty, PoolError, booting}
use croutond.Slot.Worker.{initial}
use croutond.Pool.{Outcome, returned, is_named, is_in}
use croutond.Pool.Quiet.Spec.{reservation, spec_allocate}
use croutond.Calls.{returned-injective}
use croutond.Pool.Quiet.Sole.{IsSole, set-IsSole}

-- The status of a slot that is reserved for the name and the address.
abbrev pub IsReserved : String → String → SlotStatus → Type 0
IsReserved name mac s =
    (s.state ≡ booting)
    × (s.name ≡ some name)
    × (s.mac ≡ some mac)
    × (s.tap ≡ some ("tap" +++ decimal s.slot))

-- It stands at the place of its number, and no other has the name.
abbrev pub HasReserved : String → String → SlotStatus → List SlotStatus → Type 0
HasReserved name mac s ss =
    (get_elem? ss s.slot ≡ some s) × IsSole name s.slot ss × IsReserved name mac s

set-HasReserved :
    (name mac : String) (ss : List SlotStatus) (s : SlotStatus)
    → find (is_named name) ss ≡ none
    → get_elem? ss s.slot ≡ some s
    → HasReserved name mac (reservation name mac s) (set ss s.slot (reservation name mac s))
set-HasReserved name mac ss s e here =
    let s' = reservation name mac s in
    (
      get_elem?-set_self ss s.slot s' (lt_of_get_elem? ss s.slot s here),
      set-IsSole name ss s.slot s' e,
      (refl, refl, refl, refl),
    )

append-HasReserved :
    (name mac : String) (ss : List SlotStatus)
    → find (is_named name) ss ≡ none
    → let new = reservation name mac (initial (length ss)).status in
      HasReserved name mac new (ss ++ new ∷ [])
unfolding initial
append-HasReserved name mac ss e =
    let fresh = (initial (length ss)).status in
    let new = reservation name mac fresh in
    subst (HasReserved name mac new) (set-append_last ss fresh new) (
      set-HasReserved name mac (ss ++ fresh ∷ []) fresh
        (find-append_none (is_named name) ss fresh e refl) (get_elem?-append_last ss fresh))

transport-HasReserved :
    (name mac : String) (s s' : SlotStatus) (ss ss' : List SlotStatus)
    → HasReserved name mac s ss
    → ◌≡◌ {A = Outcome PoolError SlotStatus × List SlotStatus} (returned s, ss) (returned s', ss')
    → HasReserved name mac s' ss'
transport-HasReserved name mac s s' ss ss' h e =
    subst (HasReserved name mac s') (ap (λ x. x.1) e)
      (subst (λ x. HasReserved name mac x ss) (returned-injective s s' (ap (λ x. x.0) e)) h)

-- An allocation that succeeds has reserved a slot.
pub spec_allocate-HasReserved :
    (max : ℕ) (name mac : String) (ss ss' : List SlotStatus) (s : SlotStatus)
    → ((found : SlotStatus)
        → find (is_in empty) ss ≡ some found
        → get_elem? ss found.slot ≡ some found)
    → spec_allocate max name mac ss ≡ (returned s, ss')
    → HasReserved name mac s ss'
unfolding initial
spec_allocate-HasReserved max name mac ss ss' s placed e =
    elim (Option-cases (find (is_named name) ss)) [
      | inr (x, taken) ↦ absurd (cc (rw taken at e))
      | inl free ↦ (elim (Option-cases (find (is_in empty) ss)) [
        | inr (x, vacant) ↦
            transport-HasReserved name mac (reservation name mac x) s
              (set ss x.slot (reservation name mac x)) ss'
              (set-HasReserved name mac ss x free (placed x vacant)) (rw (free, vacant) at e)
        | inl full ↦ (elim (Bool-cases (leb max (length ss))) [
          | inl limit ↦ absurd (cc (rw (free, full, limit) at e))
          | inr below ↦
              transport-HasReserved name mac (reservation name mac (initial (length ss)).status) s
                (ss ++ reservation name mac (initial (length ss)).status ∷ []) ss'
                (append-HasReserved name mac ss free) (rw (free, full, below) at e)
        ])
      ])
    ]
