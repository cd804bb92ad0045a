-- ===== src/Pool/Names/Listing.antt =====
-- What a listing tells of the names in the pool.
use croutond.Base.{
  ℕ, zero, suc, ◌+◌, ◌<◌, String, ◌≡◌, ◌≢◌, refl, ◌∙◌, sym, ap, inl, inr, true, false, Option, none,
  some, List, ◌∷◌, get_elem?, find, arith, Option-cases, subst, eq_iff, lt_of_get_elem?,
  get_elem?-set_self,
}
use native.Mathlib.Nat.{add-zero, zero-add}
use mathlib.Core.Option.{some-injective}
use croutond.Types.{SlotStatus}
use croutond.Slot.{get_vm_status, Os, handle_command}
use croutond.Slot.Worker.{Phase, Config, live, stopped}
use croutond.Slot.Failure.{runtime}
use croutond.Pool.{
  ProcessPool, Env, returned, give, deliver, size, ask, pass_time, get_vm_slot_status,
  statuses_from, list_vm_slots, find_vm_slot_status_by_name, is_named,
}
use croutond.Calls.{>>=-returned, returned-injective}
use croutond.Pool.Keeps.{ask_found, ask_missing, statuses_from-Keeps}
use croutond.Pool.Size.{ask-size}
use croutond.Pool.Names.{name_of, IsTame}
use croutond.Pool.Names.Distinct.{IsFree, AreDistinct}
use croutond.Pool.Names.Fading.{IsFreeAt, IsFree-places, AreDistinct-Keeps, IsFreeAt-Keeps}

-- The status that a worker answers with is the one it has.
pub deliver_status :
    (os : Os) (c : Config) (phase : Phase) {s : SlotStatus}
    → (deliver os get_vm_status c phase).0 ≡ returned s
    → (runtime (deliver os get_vm_status c phase).1).status ≡ s
unfolding deliver handle_command
deliver_status os c (stopped rt) e = cc
deliver_status os c (live rt) e = cc

not_named : (name : String) (s : SlotStatus) → is_named name s ≡ false → s.name ≢ some name
not_named name s e o = ground (arith, eq_iff name name)

pub is_named_eq : (name : String) (s : SlotStatus) → is_named name s ≡ true → s.name ≡ some name
is_named_eq name s e = elim (Option-cases s.name) [
  | inl missing ↦ absurd (cc (rw missing at e))
  | inr (n, same) ↦ same ∙ ap some ((eq_iff n name).0 (rw same at e))
]

shift : (m n : ℕ) → suc m + n ≡ m + suc n
shift m n = omega arith

not_found_head :
    (name : String) (s : SlotStatus) (rest : List SlotStatus)
    → find (is_named name) (s ∷ rest) ≡ none
    → is_named name s ≡ false
not_found_head name s rest f = ground arith

not_found_tail :
    (name : String) (s : SlotStatus) (rest : List SlotStatus)
    → find (is_named name) (s ∷ rest) ≡ none
    → find (is_named name) rest ≡ none
not_found_tail name s rest f = ground arith

-- No two slots carry one name, and none carries this one.
abbrev pub NameIsFree : String → ProcessPool → Type 0
NameIsFree name p = AreDistinct p.slots × IsFree name p.slots

module _ (env : Env) (tame : IsTame env) where
  module _ (name : String) where
    -- A slot that answers with a status without the name does not carry it.
    ask-IsFreeAt :
        (slot : ℕ) (p : ProcessPool) (s : SlotStatus)
        → (ask env slot get_vm_status p).0 ≡ returned s
        → is_named name s ≡ false
        → IsFreeAt name slot (ask env slot get_vm_status p).1.slots
    ask-IsFreeAt slot p s e n = elim (Option-cases (get_elem? (pass_time env p).slots slot)) [
      | inl missed ↦ absurd (cc (ask_missing env slot get_vm_status p missed))
      | inr (h, found) ↦ rw (ask_found env slot get_vm_status p h found) (
          let e' = rw (ask_found env slot get_vm_status p h found) at e in
          let answer = deliver_status (env.os p.time) h.config h.phase e' in
          λ k at_slot.
            let same =
              some-injective _ _
                (sym (get_elem?-set_self _ slot _ (lt_of_get_elem? _ slot h found)) ∙ at_slot) in
            subst (λ x. name_of x ≢ some name) same (rw (answer, name_of) (not_named name s n)))
    ]

    -- A non-empty listing that returned: its first status, the others, and the state it leaves.
    pub listed :
        (n slot : ℕ) (p : ProcessPool) (statuses : List SlotStatus)
        → (statuses_from env (suc n) slot p).0 ≡ returned statuses
        → let p' = (ask env slot get_vm_status p).1 in
          (s : SlotStatus) × (rest : List SlotStatus) × ((ask env slot get_vm_status p).0
            ≡ returned s)
          × ((statuses_from env n (suc slot) p').0 ≡ returned rest)
          × (statuses ≡ s ∷ rest)
          × ((statuses_from env (suc n) slot p).1 ≡ (statuses_from env n (suc slot) p').1)
    unfolding statuses_from get_vm_slot_status
    listed n slot p statuses e =
        let p' = (ask env slot get_vm_status p).1 in
        let (s, got, step) = >>=-returned (ask env slot get_vm_status) _ p e in
        let e' = rw step at e in
        let (rest, got', step') =
          >>=-returned (statuses_from env n (suc slot)) (λ rest. give (s ∷ rest)) p' e' in
        let whole = step ∙ step' in
        (
          s,
          rest,
          got,
          got',
          returned-injective statuses (s ∷ rest) (sym e ∙ ap (λ x. x.0) whole),
          ap (λ x. x.1) whole,
        )

    first_free :
        (n slot : ℕ) (p : ProcessPool) (s : SlotStatus)
        → (ask env slot get_vm_status p).0 ≡ returned s
        → is_named name s ≡ false
        → IsFreeAt name slot
            (statuses_from env n (suc slot) (ask env slot get_vm_status p).1).1.slots
    first_free n slot p s got other =
        (statuses_from-Keeps env (λ q. IsFreeAt name slot q.slots)
            (IsFreeAt-Keeps env tame name slot) n (suc slot)).at
          _ (ask-IsFreeAt slot p s got other)

    -- Where a listing finds no status with the name, none of the slots listed carries it afterwards.
    statuses_free :
        (n slot : ℕ) (p : ProcessPool) (statuses : List SlotStatus)
        → (statuses_from env n slot p).0 ≡ returned statuses
        → find (is_named name) statuses ≡ none
        → (i : ℕ) → i < n
        → IsFreeAt name (slot + i) (statuses_from env n slot p).1.slots
    statuses_free zero slot p statuses e f i lt = absurd (omega arith)
    statuses_free (suc n) slot p statuses e f zero lt =
        let (s, rest, got, got', parts, same) = listed n slot p statuses e in
        let other : is_named name s ≡ false = not_found_head name s rest (rw parts at f) in
        rw (same, add-zero slot) (first_free n slot p s got other)
    statuses_free (suc n) slot p statuses e f (suc i) lt =
        let (s, rest, got, got', parts, same) = listed n slot p statuses e in
        let others : find (is_named name) rest ≡ none =
          not_found_tail name s rest (rw parts at f) in
        let there = statuses_free n (suc slot) _ rest got' others i (omega arith) in
        let q = (statuses_from env n (suc slot) (ask env slot get_vm_status p).1).1 in
        rw same (subst (λ k. IsFreeAt name k q.slots) (shift slot i) there)

    -- The name is free, and the names are distinct, after a search for the name that found nothing.
    pub found_none :
        (p : ProcessPool) (found : Option SlotStatus)
        → AreDistinct p.slots
        → (find_vm_slot_status_by_name env name p).0 ≡ returned found
        → found ≡ none
        → NameIsFree name (find_vm_slot_status_by_name env name p).1
    unfolding find_vm_slot_status_by_name list_vm_slots
    found_none p found d e missing =
        let (statuses, got, step) =
          >>=-returned (list_vm_slots env) (λ statuses. give (find (is_named name) statuses)) p e in
        let q = (statuses_from env (size p) 0 p).1 in
        let nothing =
          returned-injective (find (is_named name) statuses) found (ap (λ x. x.0) (sym step) ∙ e)
          ∙ missing in
        let same =
          (statuses_from-Keeps env (λ r. size r ≡ size p) (ask-size env (size p) get_vm_status)
              (size p) 0).at
            p refl in
        rw (ap (λ x. x.1) step) (
          (statuses_from-Keeps env (λ r. AreDistinct r.slots)
                (AreDistinct-Keeps env tame get_vm_status refl) (size p) 0).at
              p d,
          IsFree-places name q.slots λ i lt.
              subst (λ k. IsFreeAt name k q.slots) (zero-add i)
                (statuses_free (size p) 0 p statuses got nothing i (omega arith)),
        )
