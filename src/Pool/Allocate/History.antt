-- ===== src/Pool/Allocate/History.antt =====
-- Histories of the pool: what holds after any calls of its methods, in any order.
use croutond.Base.{
  ℕ, suc, ◌<◌, ◌-◌, String, ◌≡◌, subst, Bool, true, false, Option, List, [], ◌∷◌, arith, leb, ltb,
  init, last?, length-init, Bool-cases, Option-cases, inl, inr, ok, if◌then◌else◌, not,
}
use croutond.Types.{SlotStatus, empty, PoolError}
use croutond.Slot.{SlotCommand, get_vm_status}
use croutond.Slot.Handle.{SlotHandle}
use croutond.Pool.{
  ProcessPool, Env, PoolCall, ◌>>=◌, ◌>>◌, give, size, is_in, allocate_vm_slot, command_vm_slot,
  list_vm_slots, push_slots, ask, get_vm_slot_status, returned, raised, pending, continue, Outcome,
  log_pool_occupancy,
}
use croutond.Pool.Keeps.{
  Keeps, AskKeeps, Keeps-bind, Keeps-give, list_vm_slots-Keeps, command_vm_slot-Keeps,
  log_pool_occupancy-Keeps,
}
use croutond.Pool.Size.{SameFrame, ask-SameFrame, size-push_slots}
use croutond.Pool.Invariant.{PoolIsValid, SlotsAreValid, ask-IsValid, push_slots-IsValid}
use croutond.Pool.Scale.{
  spawn_pool, new_pool, autoscale_tick, remove_last, await_worker, cools_down, stamp,
}
use croutond.Pool.Allocate.{allocate_vm_slot-Keeps}
use croutond.Pool.Allocate.Bounds.{
  IsBounded, ask-IsBounded, push_slots-IsBounded, push_slots_bounds,
}

-- Within its bounds, and every slot valid at its place.
abbrev pub IsSound : ProcessPool → Type 0
IsSound p = IsBounded p × PoolIsValid p

-- The calls that the service and the daemon make while the pool runs.
pub data PoolOp : Type 0 where
  lists : PoolOp
  allocates : String → String → PoolOp
  commands : SlotCommand → ℕ → PoolOp
  ticks : PoolOp

SlotsAreValid-init : (i : ℕ) (hs : List SlotHandle) → SlotsAreValid i hs → SlotsAreValid i (init hs)
SlotsAreValid-init i [] v = tt
SlotsAreValid-init i (h ∷ []) v = tt
SlotsAreValid-init i (h ∷ k ∷ hs) (v, vs) = (v, SlotsAreValid-init (suc i) (k ∷ hs) vs)

above_after :
    (p q : ProcessPool)
    → leb (size p) p.min_pool_size ≡ false
    → SameFrame p q
    → q.min_pool_size < size q
above_after p q large same = ground arith

module _ (env : Env) where
  ask-IsSound : (command : SlotCommand) → AskKeeps env IsSound command
  ask-IsSound command slot = record {
    at =
        λ p h. ((ask-IsBounded env command slot).at p h.0, (ask-IsValid env command slot).at p h.1);
  }

  await_worker-IsSound :
      (dropped : Bool) (h : SlotHandle) → Keeps IsSound (await_worker env dropped h)
  unfolding await_worker
  await_worker-IsSound dropped h = record { at = λ p s. ground arith }

  removal-IsSound :
      (slot : SlotHandle)
      → Keeps IsSound
          (await_worker env false slot >> stamp env >> log_pool_occupancy env >> give true)
  removal-IsSound slot =
      Keeps-bind _ _
        (Keeps-bind _ _
          (Keeps-bind _ _ (await_worker-IsSound false slot) λ _. record { at = λ p s. s })
          λ _. log_pool_occupancy-Keeps env IsSound (ask-IsSound get_vm_status))
        λ _. Keeps-give true

  popped-IsSound :
      (p : ProcessPool)
      → p.min_pool_size < size p
      → IsSound p
      → IsSound (record p { slots = init p.slots })
  popped-IsSound p above (bounds, valid) =
      let e = length-init p.slots (size p - 1) (omega arith) in
      ((omega (arith, e), omega (arith, e)), SlotsAreValid-init 0 p.slots valid)

  remove_last-IsSound :
      (p : ProcessPool) → p.min_pool_size < size p → IsSound p → IsSound (remove_last env p).1
  unfolding remove_last
  remove_last-IsSound p above s = elim (Option-cases (last? p.slots)) [
    | inl e ↦ rw (e, remove_last) s
    | inr (slot, e) ↦ rw (e, remove_last) ((removal-IsSound slot).at _ (popped-IsSound p above s))
  ]

  abbrev next_step : SlotStatus → PoolCall Bool
  next_step s = if not (is_in empty s) then give false else remove_last env

  decide-IsSound :
      (outcome : Outcome PoolError SlotStatus) (q : ProcessPool)
      → q.min_pool_size < size q
      → IsSound q
      → IsSound (continue outcome next_step q).1
  decide-IsSound (returned s) q above h = elim (Bool-cases (is_in empty s)) [
    | inl e ↦ rw e (remove_last-IsSound q above h)
    | inr e ↦ rw e h
  ]
  decide-IsSound (raised e) q above h = h
  decide-IsSound pending q above h = h

  autoscale_tick-IsSound : (p : ProcessPool) → IsSound p → IsSound (autoscale_tick env p).1
  unfolding autoscale_tick ◌>>=◌ get_vm_slot_status
  autoscale_tick-IsSound p h = elim (Bool-cases (leb (size p) p.min_pool_size)) [
    | inl small ↦ rw (small, autoscale_tick) h
    | inr large ↦ elim (Bool-cases (cools_down env p)) [
      | inl wait ↦ rw (large, wait, autoscale_tick) h
      | inr warm ↦
          rw (large, warm, autoscale_tick)
            (let same = ask-SameFrame env (size p - 1) get_vm_status p in
              let q = (ask env (size p - 1) get_vm_status p).1 in
              decide-IsSound _ q (above_after p q large same)
                ((ask-IsSound get_vm_status (size p - 1)).at p h))
    ]
  ]

  unfoldable pub perform : PoolOp → ProcessPool → ProcessPool
  perform lists p = (list_vm_slots env p).1
  perform (allocates name mac) p = (allocate_vm_slot env name mac p).1
  perform (commands command slot) p = (command_vm_slot env command slot p).1
  perform ticks p = (autoscale_tick env p).1

  unfoldable pub perform_all : List PoolOp → ProcessPool → ProcessPool
  perform_all [] p = p
  perform_all (op ∷ ops) p = perform_all ops (perform op p)

  allocate_vm_slot-IsSound : (name mac : String) → Keeps IsSound (allocate_vm_slot env name mac)
  allocate_vm_slot-IsSound name mac =
      allocate_vm_slot-Keeps env IsSound ask-IsSound
        (λ p below h. (push_slots-IsBounded p below h.0, push_slots-IsValid 1 p h.1)) name mac

  perform-IsSound : (op : PoolOp) (p : ProcessPool) → IsSound p → IsSound (perform op p)
  unfolding perform
  perform-IsSound lists p h = (list_vm_slots-Keeps env IsSound (ask-IsSound get_vm_status)).at p h
  perform-IsSound (allocates name mac) p h = (allocate_vm_slot-IsSound name mac).at p h
  perform-IsSound (commands command slot) p h =
      (command_vm_slot-Keeps env IsSound (ask-IsSound get_vm_status) command slot
          (ask-IsSound command)).at
        p h
  perform-IsSound ticks p h = autoscale_tick-IsSound p h

  perform_all-IsSound :
      (ops : List PoolOp) (p : ProcessPool) → IsSound p → IsSound (perform_all ops p)
  unfolding perform_all
  perform_all-IsSound [] p h = h
  perform_all-IsSound (op ∷ ops) p h =
      perform_all-IsSound ops (perform op p) (perform-IsSound op p h)

spawn_pool-IsSound :
    (min max cooldown : ℕ) (program : String) (args : List String) (bridge : Option String)
    (vm_path : String) (p : ProcessPool)
    → spawn_pool min max cooldown program args bridge vm_path ≡ ok p
    → IsSound p
unfolding spawn_pool
spawn_pool-IsSound min max cooldown program args bridge vm_path p e =
    let new = new_pool min max cooldown program args bridge vm_path in
    elim (Bool-cases (ltb max min)) [
      | inl h ↦ absurd (cc (rw (h, spawn_pool) at e))
      | inr h ↦
          let e' = rw (h, spawn_pool) at e in
          let made : push_slots min new ≡ p = cc in
          subst IsSound made (
            ground (arith, size-push_slots min new, push_slots_bounds min new),
            push_slots-IsValid min new tt,
          )
    ]

-- A pool that has been spawned stays sound under any calls, in any order, however each ends and
-- whatever the workers and the operating system do meanwhile: it has at least the minimum and at most
-- the maximum of slots, slot `i` stands at place `i` with its own number, and each slot's fields fit
-- its state.
pub perform_all-spawn_pool :
    (env : Env) (min max cooldown : ℕ) (program : String) (args : List String)
    (bridge : Option String) (vm_path : String) (ops : List PoolOp) (p : ProcessPool)
    → spawn_pool min max cooldown program args bridge vm_path ≡ ok p
    → IsSound (perform_all env ops p)
perform_all-spawn_pool env min max cooldown program args bridge vm_path ops p e =
    perform_all-IsSound env ops p
      (spawn_pool-IsSound min max cooldown program args bridge vm_path p e)
