-- ===== src/Pool/Quiet/Taken.antt =====
-- A slot that a name is at, and what the calls make of it.
use croutond.Base.{
  false, ℕ, String, ◌≡◌, ◌∙◌, sym, ap, none, some, get_elem?, find, All, All-get, subst,
  if◌then◌else◌, lt_of_get_elem?, str_eq, get_elem?-set_self,
}
use croutond.Types.{SlotStatus, empty, VmRuntime}
use croutond.Slot.{SlotCommand, get_vm_status}
use croutond.Slot.Handle.{SlotHandle}
use croutond.Pool.{
  ProcessPool, Env, returned, deliver, is_named, is_in, list_vm_slots, find_vm_slot_status_by_name,
  command_vm_slot, allocate_vm_slot, find_vm_runtime_by_name, list_running_vms,
}
use croutond.Pool.Quiet.{
  IsQuiet, IsLive, IsUp, view, later, bind_to, list_quiet, IsLive-set, pass_slots_quiet,
}
use croutond.Pool.Quiet.Spec.{MakesTaps}
use croutond.Pool.Quiet.Places.{find_placed, shown, Takes, command_shown}
use mathlib.Core.List.{filter_map}
use croutond.Runtime.{runtime_from_slot_status}
use croutond.Calls.{give}
use croutond.Pool.Keeps.{Keeps, AskKeeps, ask-Keeps, command_vm_slot-Keeps}
use croutond.Pool.Invariant.{ask-IsValid}
use croutond.Pool.Allocate.{allocate_vm_slot-Keeps}
use croutond.Pool.Quiet.Reserved.{IsReserved, spec_allocate-HasReserved}
use croutond.Pool.Quiet.Sole.{
  IsSole, set-IsSole_again, find-IsSole, find_runtime, find_runtime_none,
}
use croutond.Pool.Quiet.Allocates.{push_slots-IsUp, allocate_vm_slot_refines}

module _ (env : Env) (quiet : IsQuiet env) where
  deliver-IsLive :
      (time : ℕ) (command : SlotCommand) (h : SlotHandle)
      → IsLive h
      → IsLive (record h { phase = (deliver (env.os time) command h.config h.phase).1 })
  unfolding deliver
  deliver-IsLive time command h (rt, alive) =
      (_, ap (λ phase. (deliver (env.os time) command h.config phase).1) alive)

  AllLive-Keeps : (command : SlotCommand) → AskKeeps env (λ p. All IsLive p.slots) command
  AllLive-Keeps command =
      ask-Keeps env (All IsLive) command
        (λ time hs alive. rw (pass_slots_quiet (env.background time) 0 hs (quiet time)) alive)
        λ time hs slot h alive e.
          IsLive-set hs slot _ alive
            (deliver-IsLive time command h (All-get IsLive hs slot h alive e))

  -- Every question keeps the slots valid and their workers running.
  IsUp-Keeps : (command : SlotCommand) → AskKeeps env IsUp command
  IsUp-Keeps command slot = record {
    at = λ p (valid, alive).
        ((ask-IsValid env command slot).at p valid, (AllLive-Keeps command slot).at p alive);
  }

  allocate_vm_slot-IsUp : (name mac : String) → Keeps IsUp (allocate_vm_slot env name mac)
  allocate_vm_slot-IsUp name mac =
      allocate_vm_slot-Keeps env IsUp IsUp-Keeps (λ p below up. push_slots-IsUp p up) name mac

-- The slot `i` has the status, no other slot carries the name, and the pool is up.
pub record IsTaken (name : String) (i : ℕ) (s : SlotStatus) (p : ProcessPool) : Type 0 where
  pub up : IsUp p
  pub here : get_elem? (view p.slots) i ≡ some s
  pub sole : IsSole name i (view p.slots)

module _ (env : Env) (quiet : IsQuiet env) (name : String) where
  pub command-IsTaken :
      (command : SlotCommand) (i : ℕ) (s s' : SlotStatus) (p : ProcessPool)
      → IsTaken name i s p
      → Takes env command s s'
      → ((command_vm_slot env command i p).0 ≡ returned s')
        × IsTaken name i s' (command_vm_slot env command i p).1
  command-IsTaken command i s s' p taken takes =
      let did = command_shown env command i s s' p quiet taken.up.1 taken.here takes in
      let statuses = ap (λ x. x.1) did in
      (
        ap (λ x. x.0) did,
        record {
          up =
              (command_vm_slot-Keeps env IsUp (IsUp-Keeps env quiet get_vm_status) command i
                  (IsUp-Keeps env quiet command)).at
                p taken.up;
          here =
              rw statuses
                (get_elem?-set_self (view p.slots) i s' (lt_of_get_elem? _ i s taken.here));
          sole = rw statuses (set-IsSole_again name (view p.slots) i s' taken.sole);
        },
      )

  -- A search by name answers with the status, or with nothing if that does not carry the name, and
  -- leaves the slots as they are.
  pub find_vm_slot_status_by_name-IsTaken :
      (i : ℕ) (s : SlotStatus) (p : ProcessPool)
      → IsTaken name i s p
      → ((find_vm_slot_status_by_name env name p).0
          ≡ returned (if is_named name s then some s else none))
        × IsTaken name i s (find_vm_slot_status_by_name env name p).1
  unfolding find_vm_slot_status_by_name
  find_vm_slot_status_by_name-IsTaken i s p taken =
      let (time, listed) = list_quiet env quiet p taken.up.1 in
      let found =
        bind_to (list_vm_slots env) (λ statuses. give (find (is_named name) statuses)) p
          (view p.slots) (later p time) listed in
      (
        ap (λ x. x.0) found
            ∙ ap returned (find-IsSole name (view p.slots) i s taken.sole taken.here),
        rw (ap (λ x. x.1) found) (record { up = taken.up; here = taken.here; sole = taken.sole }),
      )

  -- A search for a running VM, which leaves the slots as they are.
  search-IsTaken :
      (i : ℕ) (s : SlotStatus) (p : ProcessPool)
      → IsTaken name i s p
      → ((find_vm_runtime_by_name env name p).0
          ≡ returned (
              find
                (λ runtime. str_eq runtime.name name)
                (filter_map runtime_from_slot_status (view p.slots))))
        × IsTaken name i s (find_vm_runtime_by_name env name p).1
  unfolding find_vm_runtime_by_name list_running_vms
  search-IsTaken i s p taken =
      let (time, listed) = list_quiet env quiet p taken.up.1 in
      let runtimes = filter_map runtime_from_slot_status (view p.slots) in
      let q = later p time in
      let found =
        bind_to (list_running_vms env)
          (λ runtimes. give (find (λ runtime. str_eq runtime.name name) runtimes)) p runtimes q
          (bind_to (list_vm_slots env) _ p (view p.slots) q listed) in
      (
        ap (λ x. x.0) found,
        rw (ap (λ x. x.1) found) (record { up = taken.up; here = taken.here; sole = taken.sole }),
      )

  pub find_vm_runtime_by_name-IsTaken :
      (i : ℕ) (s : SlotStatus) (r : VmRuntime) (p : ProcessPool)
      → IsTaken name i s p
      → runtime_from_slot_status s ≡ some r
      → r.name ≡ name
      → ((find_vm_runtime_by_name env name p).0 ≡ returned (some r))
        × IsTaken name i s (find_vm_runtime_by_name env name p).1
  find_vm_runtime_by_name-IsTaken i s r p taken e n =
      let (found, kept) = search-IsTaken i s p taken in
      (found ∙ ap returned (find_runtime name (view p.slots) i s r taken.sole taken.here e n), kept)

  -- The same where the slot does not carry the name.
  pub find_vm_runtime_by_name_missing :
      (i : ℕ) (s : SlotStatus) (p : ProcessPool)
      → IsTaken name i s p
      → is_named name s ≡ false
      → ((find_vm_runtime_by_name env name p).0 ≡ returned none)
        × IsTaken name i s (find_vm_runtime_by_name env name p).1
  find_vm_runtime_by_name_missing i s p taken other =
      let (found, kept) = search-IsTaken i s p taken in
      let free =
        find-IsSole name (view p.slots) i s taken.sole taken.here
        ∙ ap (λ b. if b then some s else none) other in
      (found ∙ ap returned (find_runtime_none name (view p.slots) free), kept)

  -- An allocation that succeeds.
  pub allocate-IsTaken :
      (mac : String) (p q : ProcessPool) (s : SlotStatus)
      → MakesTaps env
      → IsUp p
      → allocate_vm_slot env name mac p ≡ (returned s, q)
      → IsTaken name s.slot s q × IsReserved name mac s
  allocate-IsTaken mac p q s taps up e =
      let refines = allocate_vm_slot_refines env name mac p quiet taps up in
      let (here, sole, fields) =
        spec_allocate-HasReserved p.max_pool_size name mac (view p.slots) (view q.slots) s
          (λ found e. find_placed (is_in empty) p.slots found up.0 e) (sym refines ∙ ap shown e) in
      let up' = subst (λ r. IsUp r.1) e ((allocate_vm_slot-IsUp env quiet name mac).at p up) in
      (record { up = up'; here = here; sole = sole }, fields)
