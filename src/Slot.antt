-- ===== src/Slot.antt =====
-- src/slot_supervisor.rs: what one slot worker does with a command. The loop is in `Slot.Worker`.
-- Each call of the operating system is an effect in a list, in the order of the calls; what comes
-- back from it is an argument. Log lines are left out.
pub mod Worker
pub mod Invariant
pub mod Commands
pub mod Handle
pub mod Micro
pub mod Failure
pub mod Ending
pub mod Spawns
pub mod Children
pub mod Warm
pub mod Queue
use croutond.Base.{
  ℕ, ◌+◌, ◌%◌, ◌^◌, String, Bool, true, false, Option, none, some, List, [], ◌∷◌, ◌++◌,
  if◌then◌else◌, Result, ok, err,
}
use croutond.Types.{
  SlotState, empty, booting, occupied, failed, SlotStatus, PoolError, invalid_transition, state_eq,
}
use croutond.Tap.{Net, ensure_tap_device}

-- `tokio::process::Child`: what this code reads of it.
pub record Child : Type 0 where
  pub id : Option ℕ

pub record SlotRuntime : Type 0 where
  pub status : SlotStatus
  pub child : Option Child

-- The response channel of a command is the reply that `handle_command` returns.
pub data SlotCommand : Type 0 where
  reserve_vm : String → String → String → SlotCommand
  mark_vm_booted : String → SlotCommand
  release_vm : SlotCommand
  reset_vm : SlotCommand
  get_vm_status : SlotCommand

pub data Reply : Type 0 where
  status : SlotStatus → Reply
  result : Result PoolError SlotStatus → Reply

pub data Effect : Type 0 where
  start_kill : Child → Effect
  wait : Child → Effect
  remove_file : String → Effect
  ensure_tap : String → Effect
  -- program, arguments and `VMM_SLOT`
  spawn : String → List String → String → Effect

-- What the operating system answers while a command is handled: the network calls, and whether
-- the signal to a child can be sent.
pub record Os : Type 0 where
  pub net : Net
  pub can_kill : Bool

-- A `u64` in a release build.
abbrev pub next_generation : ℕ → ℕ
next_generation n = (n + 1) % 2 ^ 64

abbrev pub should_spawn : SlotState → Bool
should_spawn failed = false
should_spawn _ = true

-- A child that cannot be signalled is not waited for.
unfoldable pub stop_child : Os → Child → List Effect
stop_child os child = start_kill child ∷ (if os.can_kill then wait child ∷ [] else [])

-- `if let Some(child) = runtime.child.as_mut() { stop_child(child).await; }`
unfoldable pub stop_running : Os → Option Child → List Effect
unfolding stop_child
stop_running os none = []
stop_running os (some child) = stop_child os child

-- The assignments that release and reset share.
abbrev pub cleared : SlotStatus → SlotStatus
cleared s = record s {
  generation = next_generation s.generation;
  state = empty;
  name = none;
  mac = none;
  tap = none;
  pid = none;
  started_at = none;
  last_error = none;
}

abbrev pub reserved : String → String → String → SlotStatus → SlotStatus
reserved name mac tap s = record s {
  generation = next_generation s.generation;
  state = booting;
  name = some name;
  mac = some mac;
  tap = some tap;
  started_at = none;
  last_error = none;
}

abbrev pub booted : String → SlotStatus → SlotStatus
booted started_at s = record s { state = occupied; started_at = some started_at }

abbrev pub Handled : Type 0
Handled = SlotRuntime × Reply × List Effect

abbrev refuse : SlotRuntime → String → Handled
refuse rt action = (rt, result (err (invalid_transition rt.status.slot rt.status.state action)), [])

abbrev answer : SlotStatus → Option Child → List Effect → Handled
answer s child effects = (record { status = s; child = child }, result (ok s), effects)

module _ (bridge : Option String) (api_socket : String) (os : Os) where
  abbrev reserve : String → String → String → SlotRuntime → Handled
  reserve name mac tap rt =
      if state_eq rt.status.state empty
      then (elim (ensure_tap_device os.net tap bridge) [
        | ok _ ↦ answer (reserved name mac tap rt.status) rt.child (ensure_tap tap ∷ [])
        | err error ↦ (rt, result (err error), ensure_tap tap ∷ [])
      ])
      else refuse rt "claim"

  abbrev mark_booted : String → SlotRuntime → Handled
  mark_booted started_at rt =
      if state_eq rt.status.state booting
      then answer (booted started_at rt.status) rt.child []
      else refuse rt "mark_booted"

  -- `stop_child`, if there is a child, and `cleanup_api_socket`.
  abbrev stop_and_clean : SlotRuntime → List Effect
  stop_and_clean rt = stop_running os rt.child ++ remove_file api_socket ∷ []

  abbrev release : SlotRuntime → Handled
  release rt =
      if state_eq rt.status.state occupied
      then answer (cleared rt.status) none (stop_and_clean rt)
      else refuse rt "release"

  abbrev reset : SlotRuntime → Handled
  reset rt = answer (cleared rt.status) none (stop_and_clean rt)

  unfoldable pub handle_command : SlotCommand → SlotRuntime → Handled
  handle_command get_vm_status rt = (rt, status rt.status, [])
  handle_command (reserve_vm name mac tap) rt = reserve name mac tap rt
  handle_command (mark_vm_booted started_at) rt = mark_booted started_at rt
  handle_command release_vm rt = release rt
  handle_command reset_vm rt = reset rt
