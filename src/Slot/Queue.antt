-- ===== src/Slot/Queue.antt =====
-- What the commands that wait in a worker's channel can get of the slot.
use croutond.Base.{
  ℕ, ◌+◌, ◌≤◌, ◌≡◌, Bool, true, false, List, [], ◌∷◌, All, arith, if◌then◌else◌, ok, String, Option,
}
use croutond.Types.{empty, state_eq}
use croutond.Slot.{
  SlotRuntime, SlotCommand, reserve_vm, mark_vm_booted, release_vm, reset_vm, get_vm_status, Reply,
  result, Os, handle_command,
}
use croutond.Slot.Worker.{Config, drain}

-- A command that gives the slot back.
abbrev pub frees : SlotCommand → Bool
frees release_vm = true
frees reset_vm = true
frees _ = false

abbrev is_ok : Reply → Bool
is_ok (result (ok s)) = true
is_ok _ = false

-- The command is a reservation, and the reply grants it.
abbrev grants : SlotCommand → Reply → ℕ
grants (reserve_vm name mac tap) reply = if is_ok reply then 1 else 0
grants _ reply = 0

-- How many reservations are granted, by the commands and the replies to them in order.
abbrev pub granted : List (Os × SlotCommand) → List Reply → ℕ
granted [] replies = 0
granted (_ ∷ queue) [] = 0
granted ((os, command) ∷ queue) (reply ∷ replies) = grants command reply + granted queue replies

abbrev pub room : SlotRuntime → ℕ
room rt = if state_eq rt.status.state empty then 1 else 0

module _ (bridge : Option String) (socket : String) (os : Os) where
  -- What is granted is taken from the room.
  handle_command-room :
      (command : SlotCommand) (rt : SlotRuntime)
      → frees command ≡ false
      → let (rt', reply, effects) = handle_command bridge socket os command rt in
        grants command reply + room rt' ≤ room rt
  unfolding handle_command
  handle_command-room (reserve_vm name mac tap) rt h = ground arith
  handle_command-room (mark_vm_booted started_at) rt h = ground arith
  handle_command-room release_vm rt h = cc
  handle_command-room reset_vm rt h = cc
  handle_command-room get_vm_status rt h = omega arith

-- Of the commands that wait in the channel, none of which releases or resets the slot, at most one
-- reservation is granted, and none where the slot is not empty to begin with.
pub drain_grants_once :
    (c : Config) (queue : List (Os × SlotCommand)) (rt : SlotRuntime)
    → All (λ (os, command). frees command ≡ false) queue
    → granted queue (drain c queue rt).1 ≤ room rt
unfolding drain
drain_grants_once c [] rt h = ground arith
drain_grants_once c ((os, command) ∷ queue) rt (h, hs) =
    let now = handle_command-room c.bridge c.api_socket os command rt h in
    let next =
      drain_grants_once c queue (handle_command c.bridge c.api_socket os command rt).0 hs in
    omega (arith, now, next)
