-- ===== src/Slot/Spawns.antt =====
-- The rounds of a worker that holds a child start no other one: no command and no wake-up does.
use croutond.Base.{
  String, ◌≡◌, refl, Bool, true, false, Option, none, some, List, [], ◌∷◌, ◌++◌, All, All-append,
  inl, inr, arith, Bool-cases,
}
use croutond.Types.{occupied, state_eq}
use croutond.Slot.{
  Child, SlotRuntime, SlotCommand, reserve_vm, mark_vm_booted, release_vm, reset_vm, get_vm_status,
  Os, Effect, remove_file, spawn, handle_command, stop_running,
}
use croutond.Slot.Worker.{
  Config, Poll, Wake, shutdown_changed, received, channel_closed, timeout, drain, poll_phase,
  select_phase, stop,
}

abbrev pub is_spawn : Effect → Bool
is_spawn (spawn program args slot) = true
is_spawn _ = false

abbrev pub NeverSpawns : List Effect → Type 0
NeverSpawns effects = All (λ effect. is_spawn effect ≡ false) effects

pub stop_running-NeverSpawns :
    (socket : String) (os : Os) (held : Option Child)
    → NeverSpawns (stop_running os held ++ remove_file socket ∷ [])
unfolding stop_running
stop_running-NeverSpawns socket os none = (refl, tt)
stop_running-NeverSpawns socket os (some child) = elim (Bool-cases os.can_kill) [
  | inl can ↦ rw can (refl, (refl, (refl, tt)))
  | inr cannot ↦ rw cannot (refl, (refl, tt))
]

module _ (c : Config) where
  handle_command-NeverSpawns :
      (os : Os) (command : SlotCommand) (rt : SlotRuntime)
      → NeverSpawns (handle_command c.bridge c.api_socket os command rt).2
  unfolding handle_command
  handle_command-NeverSpawns os get_vm_status rt = tt
  handle_command-NeverSpawns os (reserve_vm name mac tap) rt = ground arith
  handle_command-NeverSpawns os (mark_vm_booted started_at) rt = ground arith
  handle_command-NeverSpawns os release_vm rt =
      elim (Bool-cases (state_eq rt.status.state occupied)) [
        | inl fits ↦ rw fits (stop_running-NeverSpawns c.api_socket os rt.child)
        | inr other ↦ rw other tt
      ]
  handle_command-NeverSpawns os reset_vm rt = stop_running-NeverSpawns c.api_socket os rt.child

  pub drain-NeverSpawns :
      (queue : List (Os × SlotCommand)) (rt : SlotRuntime) → NeverSpawns (drain c queue rt).2
  unfolding drain
  drain-NeverSpawns [] rt = tt
  drain-NeverSpawns ((os, command) ∷ queue) rt =
      All-append (λ effect. is_spawn effect ≡ false) _ _ (handle_command-NeverSpawns os command rt)
        (drain-NeverSpawns queue _)

  pub poll_phase-NeverSpawns :
      (poll : Poll) (rt : SlotRuntime) → NeverSpawns (poll_phase c poll rt).1
  unfolding poll_phase
  poll_phase-NeverSpawns poll rt = ground arith

  pub select_phase-NeverSpawns :
      (os : Os) (wake : Wake) (rt : SlotRuntime) → NeverSpawns (select_phase c os wake rt).effects
  unfolding select_phase stop
  select_phase-NeverSpawns os (shutdown_changed true) rt =
      stop_running-NeverSpawns c.api_socket os rt.child
  select_phase-NeverSpawns os (shutdown_changed false) rt = tt
  select_phase-NeverSpawns os (received os' command) rt = handle_command-NeverSpawns os' command rt
  select_phase-NeverSpawns os channel_closed rt = stop_running-NeverSpawns c.api_socket os rt.child
  select_phase-NeverSpawns os timeout rt = tt
