-- ===== src/Slot/Micro.antt =====
-- The loop of src/slot_supervisor.rs cut into the steps between which another task can run: the pool
-- sees a worker after any number of them. A step list is more than the loop's order allows.
use croutond.Base.{
  String, ◌≡◌, refl, List, [], ◌∷◌, ◌++◌, true, false, Result, if◌then◌else◌, Bool-cases, inl, inr,
  map,
}
use croutond.Slot.{Child, SlotRuntime, SlotCommand, Os, handle_command}
use croutond.Slot.Worker.{
  Config, Round, Poll, Wake, shutdown_changed, received, channel_closed, timeout, Phase, live,
  stopped, spawn_phase, drain, poll_phase, select_phase, round, supervise, stop,
}

pub data Micro : Type 0 where
  spawns : Result String Child → Micro
  handles : Os → SlotCommand → Micro
  polls : Poll → Micro
  -- The worker leaves its loop, or its task is lost.
  ends : Micro

module _ (c : Config) where
  abbrev pub micro : Micro → SlotRuntime → Phase
  micro (spawns outcome) rt = live (spawn_phase c outcome rt).0
  micro (handles os command) rt = live (handle_command c.bridge c.api_socket os command rt).0
  micro (polls poll) rt = live (poll_phase c poll rt).0
  micro ends rt = stopped rt

  unfoldable pub advance : List Micro → Phase → Phase
  advance [] phase = phase
  advance (m ∷ ms) (stopped rt) = stopped rt
  advance (m ∷ ms) (live rt) = advance ms (micro m rt)

  advance_stopped : (ms : List Micro) (rt : SlotRuntime) → advance ms (stopped rt) ≡ stopped rt
  unfolding advance
  advance_stopped [] rt = refl
  advance_stopped (m ∷ ms) rt = refl

  abbrev waking : Wake → List Micro
  waking (shutdown_changed now) = if now then ends ∷ [] else []
  waking (received os command) = handles os command ∷ []
  waking channel_closed = ends ∷ []
  waking timeout = []

  abbrev handling : Os × SlotCommand → Micro
  handling (os, command) = handles os command

  -- The steps of a round.
  abbrev pub steps : Round → List Micro
  steps r =
      if r.shutdown
      then ends ∷ []
      else spawns r.spawned ∷ (map handling r.queued ++ polls r.poll ∷ waking r.wake)

  advance-append :
      (ms ns : List Micro) (phase : Phase)
      → advance (ms ++ ns) phase ≡ advance ns (advance ms phase)
  unfolding advance
  advance-append [] ns phase = refl
  advance-append (m ∷ ms) [] (stopped rt) = refl
  advance-append (m ∷ ms) (n ∷ ns) (stopped rt) = refl
  advance-append (m ∷ ms) ns (live rt) = advance-append ms ns (micro m rt)

  advance-drain :
      (queue : List (Os × SlotCommand)) (rt : SlotRuntime)
      → advance (map handling queue) (live rt) ≡ live (drain c queue rt).0
  unfolding advance drain
  advance-drain [] rt = refl
  advance-drain ((os, command) ∷ queue) rt = advance-drain queue _

  advance-waking :
      (os : Os) (wake : Wake) (rt : SlotRuntime)
      → advance (waking wake) (live rt) ≡ (select_phase c os wake rt).phase
  unfolding advance select_phase stop
  advance-waking os (shutdown_changed true) rt = refl
  advance-waking os (shutdown_changed false) rt = refl
  advance-waking os (received os' command) rt = refl
  advance-waking os channel_closed rt = refl
  advance-waking os timeout rt = refl

  advance-steps :
      (r : Round) (rt : SlotRuntime) → advance (steps r) (live rt) ≡ (round c r rt).phase
  unfolding round stop advance
  advance-steps r rt = elim (Bool-cases r.shutdown) [
    | inl h ↦ rw h refl
    | inr h ↦ rw (h, advance-append, advance-drain) (advance-waking r.os r.wake _)
  ]

  abbrev pub all_steps : List Round → List Micro
  all_steps [] = []
  all_steps (r ∷ rounds) = steps r ++ all_steps rounds

-- Every run of the loop is a list of such steps.
pub advance-all_steps :
    (c : Config) (rounds : List Round) (phase : Phase)
    → advance c (all_steps c rounds) phase ≡ supervise c rounds phase
unfolding supervise advance
advance-all_steps c [] phase = refl
advance-all_steps c (r ∷ rounds) (stopped rt) =
    advance_stopped c (steps c r ++ all_steps c rounds) rt
advance-all_steps c (r ∷ rounds) (live rt) =
    rw (advance-append, advance-steps) (advance-all_steps c rounds (round c r rt).phase)
