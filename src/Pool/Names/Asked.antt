-- ===== src/Pool/Names/Asked.antt =====
-- What the slot that has answered a question looks like, by the answer.
use croutond.Base.{
  ℕ, ◌+◌, ◌≡◌, ◌∙◌, sym, ap, none, some, get_elem?, arith, Option-cases, inl, inr, lt_of_get_elem?,
  get_elem?-set_self,
}
use croutond.Calls.{returned}
use croutond.Types.{SlotStatus}
use croutond.Slot.{release_vm, get_vm_status, Os, handle_command}
use croutond.Slot.Worker.{Phase, Config, live, stopped}
use croutond.Slot.Failure.{runtime}
use croutond.Slot.Handle.{SlotHandle}
use croutond.Pool.{ProcessPool, Env, deliver, ask, pass_time}
use croutond.Pool.Keeps.{ask_found, ask_missing}
use croutond.Pool.Invariant.{PhaseIsValid-numbered, PoolIsValid, SlotsAreValid-get, ask-IsValid}
use croutond.Pool.Names.{name_of}
use croutond.Pool.Names.Listing.{deliver_status}

deliver_released :
    (os : Os) (c : Config) (phase : Phase) {s : SlotStatus}
    → (deliver os release_vm c phase).0 ≡ returned s
    → (runtime (deliver os release_vm c phase).1).status.name ≡ none
unfolding deliver handle_command
deliver_released os c (stopped rt) e = cc
deliver_released os c (live rt) e = ground arith

module _ (env : Env) where
  -- The slot that has answered a status query has the status of the answer.
  pub ask_status :
      (slot : ℕ) (p : ProcessPool) {s : SlotStatus}
      → (ask env slot get_vm_status p).0 ≡ returned s
      → (h : SlotHandle) × (get_elem? (ask env slot get_vm_status p).1.slots slot ≡ some h)
        × ((runtime h.phase).status ≡ s)
  ask_status slot p e = elim (Option-cases (get_elem? (pass_time env p).slots slot)) [
    | inl missed ↦ absurd (cc (ask_missing env slot get_vm_status p missed))
    | inr (h, found) ↦
        let e' = rw (ask_found env slot get_vm_status p h found) at e in
        rw (ask_found env slot get_vm_status p h found) (
          _,
          get_elem?-set_self _ slot _ (lt_of_get_elem? _ slot h found),
          deliver_status (env.os p.time) h.config h.phase e',
        )
  ]

  -- The slot that has been released carries no name.
  pub ask_released :
      (slot : ℕ) (p : ProcessPool) {s : SlotStatus}
      → (ask env slot release_vm p).0 ≡ returned s
      → (h : SlotHandle) × (get_elem? (ask env slot release_vm p).1.slots slot ≡ some h)
        × (name_of h ≡ none)
  ask_released slot p e = elim (Option-cases (get_elem? (pass_time env p).slots slot)) [
    | inl missed ↦ absurd (cc (ask_missing env slot release_vm p missed))
    | inr (h, found) ↦
        let e' = rw (ask_found env slot release_vm p h found) at e in
        rw (ask_found env slot release_vm p h found) (
          _,
          get_elem?-set_self _ slot _ (lt_of_get_elem? _ slot h found),
          deliver_released (env.os p.time) h.config h.phase e',
        )
  ]

  pub ask_slot :
      (slot : ℕ) (p : ProcessPool) {s : SlotStatus}
      → PoolIsValid p
      → (ask env slot get_vm_status p).0 ≡ returned s
      → s.slot ≡ slot
  ask_slot slot p v e =
      let (h, there, same) = ask_status slot p e in
      let valid =
        SlotsAreValid-get 0 slot _ h ((ask-IsValid env get_vm_status slot).at p v) there in
      ap (λ x. x.slot) (sym same) ∙ PhaseIsValid-numbered (0 + slot) h.phase valid.1 ∙ zero_add slot
    where
      zero_add : (n : ℕ) → 0 + n ≡ n
      zero_add n = omega arith
