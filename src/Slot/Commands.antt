-- ===== src/Slot/Commands.antt =====
-- What each command of a slot worker does, in every state.
use croutond.Base.{String, ◌≡◌, Option, none, List, [], ◌∷◌, ◌++◌, append-nil, arith, ok, ◌⊎◌}
use croutond.Types.{empty, SlotStatus}
use croutond.Tap.{ensure_tap_device}
use croutond.Slot.Invariant.{IsValid}
use croutond.Slot.{
  SlotRuntime, SlotCommand, reserve_vm, mark_vm_booted, release_vm, reset_vm, get_vm_status, Os,
  status, result, reserved, Effect, remove_file, ensure_tap, handle_command, next_generation,
  stop_running,
}

module _ (bridge : Option String) (socket : String) (os : Os) where
  -- The status in an `Ok` reply, or in the answer to a query, is the one that the command leaves.
  handle_command_reply :
      (command : SlotCommand) (rt : SlotRuntime) {s : SlotStatus}
      → ((handle_command bridge socket os command rt).1 ≡ result (ok s))
        ⊎ ((handle_command bridge socket os command rt).1 ≡ status s)
      → (handle_command bridge socket os command rt).0.status ≡ s
  unfolding handle_command
  handle_command_reply (reserve_vm name mac tap) rt h = ground arith
  handle_command_reply (mark_vm_booted started_at) rt h = ground arith
  handle_command_reply release_vm rt h = ground arith
  handle_command_reply reset_vm rt h = ground arith
  handle_command_reply get_vm_status rt h = ground arith

  reserve_empty :
      (name mac tap : String) (rt : SlotRuntime)
      → rt.status.state ≡ empty
      → ensure_tap_device os.net tap bridge ≡ ok tt
      → handle_command bridge socket os (reserve_vm name mac tap) rt ≡ (
        record { status = reserved name mac tap rt.status; child = rt.child },
        result (ok (reserved name mac tap rt.status)),
        ensure_tap tap ∷ [],
      )
  unfolding handle_command
  reserve_empty name mac tap rt e made = ground arith

  -- Handling some commands one after the other: the last state, and the effects in order.
  abbrev pub handle_all : List SlotCommand → SlotRuntime → SlotRuntime × List Effect
  handle_all [] rt = (rt, [])
  handle_all (command ∷ commands) rt =
      let (rt', reply, effects) = handle_command bridge socket os command rt in
      let (rt'', more) = handle_all commands rt' in (rt'', effects ++ more)

  -- The life of a VM: from an empty slot whose TAP device can be made, reserving, booting and
  -- releasing lead back to the state at the start, two generations later and without a child.
  pub handle_all_life :
      (name mac tap started_at : String) (rt : SlotRuntime)
      → IsValid rt.status.slot rt
      → rt.status.state ≡ empty
      → ensure_tap_device os.net tap bridge ≡ ok tt
      → handle_all (reserve_vm name mac tap ∷ mark_vm_booted started_at ∷ release_vm ∷ []) rt ≡ (
        record {
          status = record (rt.status) {
            generation = next_generation (next_generation rt.status.generation);
            pid = none;
          };
          child = none;
        },
        ensure_tap tap ∷ stop_running os rt.child ++ remove_file socket ∷ [],
      )
  unfolding handle_command
  handle_all_life name mac tap started_at rt v e made =
      rw (reserve_empty name mac tap rt e made)
        (ground (arith, append-nil (stop_running os rt.child ++ remove_file socket ∷ [])))
