-- ===== src/Slot/Failure.antt =====
-- A failed slot: the worker never spawns its child again, and only a reset brings it back.
use croutond.Base.{
  String, ◌≡◌, refl, Option, none, List, [], ◌∷◌, arith, Bool, true, false, ap, ◌∙◌, Result, All,
}
use croutond.Types.{failed}
use croutond.Slot.{
  Child, SlotRuntime, SlotCommand, reserve_vm, mark_vm_booted, release_vm, reset_vm, get_vm_status,
  Os, handle_command,
}
use croutond.Slot.Worker.{
  Config, Round, Wake, shutdown_changed, received, channel_closed, timeout, Poll, Phase, live,
  stopped, spawn_phase, drain, poll_phase, select_phase, round, supervise, stop,
}

abbrev pub is_reset : SlotCommand → Bool
is_reset reset_vm = true
is_reset _ = false

abbrev wakes_with_reset : Wake → Bool
wakes_with_reset (received os command) = is_reset command
wakes_with_reset _ = false

-- No command of the round is a reset.
abbrev pub HasNoReset : Round → Type 0
HasNoReset r =
    All (λ (os, command). is_reset command ≡ false) r.queued × (wakes_with_reset r.wake ≡ false)

abbrev pub runtime : Phase → SlotRuntime
runtime (live rt) = rt
runtime (stopped rt) = rt

module _ (rt : SlotRuntime) (is_failed : rt.status.state ≡ failed)
    (childless : rt.child ≡ none) where
  handle_command_failed :
      (bridge : Option String) (socket : String) (os : Os) (command : SlotCommand)
      → is_reset command ≡ false
      → (handle_command bridge socket os command rt).0 ≡ rt
  unfolding handle_command
  handle_command_failed bridge socket os (reserve_vm name mac tap) h = ground arith
  handle_command_failed bridge socket os (mark_vm_booted started_at) h = ground arith
  handle_command_failed bridge socket os release_vm h = ground arith
  handle_command_failed bridge socket os reset_vm h = cc
  handle_command_failed bridge socket os get_vm_status h = refl

  module _ (c : Config) where
    spawn_phase_failed : (outcome : Result String Child) → spawn_phase c outcome rt ≡ (rt, [])
    unfolding spawn_phase
    spawn_phase_failed outcome = ground arith

    drain_failed :
        (queue : List (Os × SlotCommand))
        → All (λ (os, command). is_reset command ≡ false) queue
        → (drain c queue rt).0 ≡ rt
    unfolding drain
    drain_failed [] h = refl
    drain_failed ((os, command) ∷ queue) (h, hs) =
        ap (λ r. (drain c queue r).0) (handle_command_failed c.bridge c.api_socket os command h)
        ∙ drain_failed queue hs

    poll_phase_failed : (poll : Poll) → (poll_phase c poll rt).0 ≡ rt
    unfolding poll_phase
    poll_phase_failed poll = ground arith

    select_phase_failed :
        (os : Os) (wake : Wake)
        → wakes_with_reset wake ≡ false
        → runtime (select_phase c os wake rt).phase ≡ rt
    unfolding select_phase stop
    select_phase_failed os (shutdown_changed true) h = refl
    select_phase_failed os (shutdown_changed false) h = refl
    select_phase_failed os (received os' command) h =
        handle_command_failed c.bridge c.api_socket os' command h
    select_phase_failed os channel_closed h = refl
    select_phase_failed os timeout h = refl

    round_failed : (r : Round) → HasNoReset r → runtime (round c r rt).phase ≡ rt
    unfolding round stop
    round_failed r (queued, woken) =
        rw (spawn_phase_failed r.spawned, drain_failed r.queued queued, poll_phase_failed r.poll)
          (ground (arith, select_phase_failed r.os r.wake woken))

-- A worker whose slot has failed, and which holds no child, keeps its state exactly, through any rounds
-- in which no reset is asked for: it spawns nothing, and every other command leaves it as it is.
pub supervise_failed :
    (c : Config) (rounds : List Round) (phase : Phase)
    → (runtime phase).status.state ≡ failed
    → (runtime phase).child ≡ none
    → All HasNoReset rounds
    → runtime (supervise c rounds phase) ≡ runtime phase
unfolding supervise
supervise_failed c [] phase s h n = refl
supervise_failed c (r ∷ rounds) (stopped rt) s h n = refl
supervise_failed c (r ∷ rounds) (live rt) s h (n, ns) =
    let e = round_failed rt s h c r n in supervise_failed c rounds _ (rw e s) (rw e h) ns ∙ e
