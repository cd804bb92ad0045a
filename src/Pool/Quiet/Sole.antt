-- ===== src/Pool/Quiet/Sole.antt =====
-- A name that only one slot may carry, in the list of the statuses.
use croutond.Base.{
  ℕ, zero, suc, String, ◌≡◌, refl, ◌∙◌, ap, true, false, none, some, List, [], ◌∷◌, get_elem?, set,
  find, arith, subst, Option-cases, Bool-cases, inl, inr, if◌then◌else◌, ◌⊎◌, str_eq, eq_iff,
}
use mathlib.Core.Option.{some-injective}
use croutond.Types.{SlotStatus, VmRuntime}
use croutond.Pool.{is_named}
use mathlib.Core.List.{filter_map}
use croutond.Runtime.{runtime_from_slot_status}

-- Only the status at place `i` may carry the name.
abbrev pub IsSole : String → ℕ → List SlotStatus → Type 0
IsSole name i ss =
    (j : ℕ) (s : SlotStatus) → get_elem? ss j ≡ some s → is_named name s ≡ true → j ≡ i

find-none_tail :
    (name : String) (x : SlotStatus) (ss : List SlotStatus)
    → find (is_named name) (x ∷ ss) ≡ none
    → (is_named name x ≡ false) × (find (is_named name) ss ≡ none)
find-none_tail name x ss e = elim (Bool-cases (is_named name x)) [
  | inl hit ↦ absurd (cc (rw hit at e))
  | inr miss ↦ (miss, rw miss at e)
]

find-none_get :
    (name : String) (ss : List SlotStatus) (j : ℕ) (s : SlotStatus)
    → find (is_named name) ss ≡ none
    → get_elem? ss j ≡ some s
    → is_named name s ≡ false
find-none_get name [] j s e here = cc
find-none_get name (x ∷ ss) zero s e here =
    subst (λ y. is_named name y ≡ false) (some-injective x s here) (find-none_tail name x ss e).0
find-none_get name (x ∷ ss) (suc j) s e here =
    find-none_get name ss j s (find-none_tail name x ss e).1 here

set_cases :
    (ss : List SlotStatus) (i j : ℕ) (v s : SlotStatus)
    → get_elem? (set ss i v) j ≡ some s
    → (j ≡ i) ⊎ (get_elem? ss j ≡ some s)
set_cases [] i j v s e = cc
set_cases (x ∷ ss) zero zero v s e = inl refl
set_cases (x ∷ ss) zero (suc j) v s e = inr e
set_cases (x ∷ ss) (suc i) zero v s e = inr e
set_cases (x ∷ ss) (suc i) (suc j) v s e = elim (set_cases ss i j v s e) [
  | inl same ↦ inl (ap suc same)
  | inr there ↦ inr there
]

-- Where nobody carries the name, any status may be put at place `i`.
pub set-IsSole :
    (name : String) (ss : List SlotStatus) (i : ℕ) (v : SlotStatus)
    → find (is_named name) ss ≡ none
    → IsSole name i (set ss i v)
set-IsSole name ss i v e j s here named = elim (set_cases ss i j v s here) [
  | inl same ↦ same
  | inr there ↦ absurd (cc (find-none_get name ss j s e there))
]

pub set-IsSole_again :
    (name : String) (ss : List SlotStatus) (i : ℕ) (v : SlotStatus)
    → IsSole name i ss
    → IsSole name i (set ss i v)
set-IsSole_again name ss i v sole j s here named = elim (set_cases ss i j v s here) [
  | inl same ↦ same
  | inr there ↦ sole j s there named
]

tail-IsSole :
    (name : String) (x : SlotStatus) (ss : List SlotStatus) (i : ℕ)
    → IsSole name (suc i) (x ∷ ss)
    → IsSole name i ss
tail-IsSole name x ss i sole j s here named = omega (arith, sole (suc j) s here named)

none_found :
    (name : String) (ss : List SlotStatus)
    → ((j : ℕ) (s : SlotStatus) → get_elem? ss j ≡ some s → is_named name s ≡ false)
    → find (is_named name) ss ≡ none
none_found name [] free = refl
none_found name (x ∷ ss) free =
    rw (free 0 x refl) (none_found name ss λ j s here. free (suc j) s here)

others_unnamed :
    (name : String) (x : SlotStatus) (ss : List SlotStatus)
    → IsSole name 0 (x ∷ ss)
    → (j : ℕ) (s : SlotStatus) → get_elem? ss j ≡ some s
    → is_named name s ≡ false
others_unnamed name x ss sole j s here = elim (Bool-cases (is_named name s)) [
  | inl hit ↦ absurd (omega (arith, sole (suc j) s here hit))
  | inr miss ↦ miss
]

-- A search finds the sole status with the name, or nothing.
pub find-IsSole :
    (name : String) (ss : List SlotStatus) (i : ℕ) (s : SlotStatus)
    → IsSole name i ss
    → get_elem? ss i ≡ some s
    → find (is_named name) ss ≡ (if is_named name s then some s else none)
find-IsSole name [] i s sole here = cc
find-IsSole name (x ∷ ss) zero s sole here =
    subst (λ y. find (is_named name) (x ∷ ss) ≡ (if is_named name y then some y else none))
      (some-injective x s here)
      (elim (Bool-cases (is_named name x)) [
        | inl hit ↦ rw hit refl
        | inr miss ↦ rw miss (none_found name ss (others_unnamed name x ss sole))
      ])
find-IsSole name (x ∷ ss) (suc i) s sole here = elim (Bool-cases (is_named name x)) [
  | inl hit ↦ absurd (omega (arith, sole 0 x refl hit))
  | inr miss ↦ rw miss (find-IsSole name ss i s (tail-IsSole name x ss i sole) here)
]

runtime_name :
    (s : SlotStatus) (r : VmRuntime) → runtime_from_slot_status s ≡ some r → s.name ≡ some r.name
unfolding runtime_from_slot_status
runtime_name s r e = ground arith

-- The runtime of the sole status with the name is found among those of the running VMs.
pub find_runtime :
    (name : String) (ss : List SlotStatus) (i : ℕ) (s : SlotStatus) (r : VmRuntime)
    → IsSole name i ss
    → get_elem? ss i ≡ some s
    → runtime_from_slot_status s ≡ some r
    → r.name ≡ name
    → find (λ runtime. str_eq runtime.name name) (filter_map runtime_from_slot_status ss) ≡ some r
unfolding filter_map
find_runtime name [] i s r sole here e n = cc
find_runtime name (x ∷ ss) zero s r sole here e n =
    rw (ap runtime_from_slot_status (some-injective x s here) ∙ e, (eq_iff r.name name).1 n) refl
find_runtime name (x ∷ ss) (suc i) s r sole here e n =
    let rest = find_runtime name ss i s r (tail-IsSole name x ss i sole) here e n in
    elim (Option-cases (runtime_from_slot_status x)) [
      | inl missing ↦ rw missing rest
      | inr (r', there) ↦ (elim (Bool-cases (str_eq r'.name name)) [
        | inl hit ↦ absurd (omega (arith, sole 0 x refl (rw (runtime_name x r' there) hit)))
        | inr miss ↦ rw (there, miss) rest
      ])
    ]

-- Where nobody carries the name, no VM of the name runs.
pub find_runtime_none :
    (name : String) (ss : List SlotStatus)
    → find (is_named name) ss ≡ none
    → find (λ runtime. str_eq runtime.name name) (filter_map runtime_from_slot_status ss) ≡ none
unfolding filter_map
find_runtime_none name [] e = refl
find_runtime_none name (x ∷ ss) e =
    let (other, others) = find-none_tail name x ss e in
    let rest = find_runtime_none name ss others in
    elim (Option-cases (runtime_from_slot_status x)) [
      | inl missing ↦ rw missing rest
      | inr (r, there) ↦ rw (there, rw (runtime_name x r there) at other) rest
    ]
