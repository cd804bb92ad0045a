-- ===== src/Slot/Invariant.antt =====
-- The invariant of a slot worker's state, and that the whole loop keeps it.
use croutond.Base.{
  ℕ, String, ◌≡◌, Option, none, some, List, [], ◌∷◌, arith, is_some, true, false, Result,
}
use croutond.Types.{SlotState, empty, booting, occupied, failed, SlotStatus}
use croutond.Slot.{
  Child, SlotRuntime, SlotCommand, reserve_vm, mark_vm_booted, release_vm, reset_vm, get_vm_status,
  Os, handle_command,
}
use croutond.Slot.Worker.{
  Config, Round, Poll, Wake, shutdown_changed, received, channel_closed, timeout, Phase, live,
  stopped, initial, spawn_phase, drain, poll_phase, select_phase, round, stop, supervise,
}

-- Which fields a slot's state fills in.
abbrev pub Fills : SlotStatus → SlotState → Type 0
Fills s empty =
    (s.name ≡ none)
    × (s.mac ≡ none)
    × (s.tap ≡ none)
    × (s.started_at ≡ none)
    × (s.last_error ≡ none)
Fills s booting =
    (is_some s.name ≡ true)
    × (is_some s.mac ≡ true)
    × (is_some s.tap ≡ true)
    × (s.started_at ≡ none)
Fills s occupied =
    (is_some s.name ≡ true)
    × (is_some s.mac ≡ true)
    × (is_some s.tap ≡ true)
    × (is_some s.started_at ≡ true)
Fills s failed = is_some s.last_error ≡ true

-- The pid that a status shows is that of the child held, if any.
abbrev pub child_id : Option Child → Option ℕ
child_id none = none
child_id (some child) = child.id

abbrev pub ChildFits : SlotState → Option Child → Type 0
ChildFits failed child = child ≡ none
ChildFits _ child = Unit {0}

pub record IsValid (slot : ℕ) (rt : SlotRuntime) : Type 0 where
  pub numbered : rt.status.slot ≡ slot
  pub filled : Fills rt.status rt.status.state
  pub pid : rt.status.pid ≡ child_id rt.child
  pub childless : ChildFits rt.status.state rt.child

abbrev pub PhaseIsValid : ℕ → Phase → Type 0
PhaseIsValid slot (live rt) = IsValid slot rt
PhaseIsValid slot (stopped rt) = IsValid slot rt

pub initial-IsValid : (slot : ℕ) → IsValid slot (initial slot)
unfolding initial
initial-IsValid slot = ground arith

module _ (slot : ℕ) where
  pub handle_command-IsValid :
      (bridge : Option String) (socket : String) (os : Os) (command : SlotCommand)
      (rt : SlotRuntime)
      → IsValid slot rt
      → IsValid slot (handle_command bridge socket os command rt).0
  unfolding handle_command
  handle_command-IsValid bridge socket os (reserve_vm name mac tap) rt v = ground arith
  handle_command-IsValid bridge socket os (mark_vm_booted started_at) rt v = ground arith
  handle_command-IsValid bridge socket os release_vm rt v = ground arith
  handle_command-IsValid bridge socket os reset_vm rt v = ground arith
  handle_command-IsValid bridge socket os get_vm_status rt v = v

  module _ (c : Config) where
    pub spawn_phase-IsValid :
        (outcome : Result String Child) (rt : SlotRuntime)
        → IsValid slot rt
        → IsValid slot (spawn_phase c outcome rt).0
    unfolding spawn_phase
    spawn_phase-IsValid outcome rt v = ground arith

    drain-IsValid :
        (queue : List (Os × SlotCommand)) (rt : SlotRuntime)
        → IsValid slot rt
        → IsValid slot (drain c queue rt).0
    unfolding drain
    drain-IsValid [] rt v = v
    drain-IsValid ((os, command) ∷ queue) rt v =
        drain-IsValid queue _ (handle_command-IsValid c.bridge c.api_socket os command rt v)

    pub poll_phase-IsValid :
        (poll : Poll) (rt : SlotRuntime) → IsValid slot rt → IsValid slot (poll_phase c poll rt).0
    unfolding poll_phase
    poll_phase-IsValid poll rt v = ground arith

    select_phase-IsValid :
        (os : Os) (wake : Wake) (rt : SlotRuntime)
        → IsValid slot rt
        → PhaseIsValid slot (select_phase c os wake rt).phase
    unfolding select_phase stop
    select_phase-IsValid os (shutdown_changed true) rt v = v
    select_phase-IsValid os (shutdown_changed false) rt v = v
    select_phase-IsValid os (received os' command) rt v =
        handle_command-IsValid c.bridge c.api_socket os' command rt v
    select_phase-IsValid os channel_closed rt v = v
    select_phase-IsValid os timeout rt v = v

    pub round-IsValid :
        (r : Round) (rt : SlotRuntime) → IsValid slot rt → PhaseIsValid slot (round c r rt).phase
    unfolding round stop
    round-IsValid r rt v =
        let v₁ = spawn_phase-IsValid r.spawned rt v in
        let v₂ = drain-IsValid r.queued _ v₁ in
        let v₃ = poll_phase-IsValid r.poll _ v₂ in
        ground (arith, select_phase-IsValid r.os r.wake _ v₃)

    supervise-IsValid :
        (rounds : List Round) (phase : Phase)
        → PhaseIsValid slot phase
        → PhaseIsValid slot (supervise c rounds phase)
    unfolding supervise
    supervise-IsValid [] phase v = v
    supervise-IsValid (r ∷ rounds) (live rt) v =
        supervise-IsValid rounds (round c r rt).phase (round-IsValid r rt v)
    supervise-IsValid (r ∷ rounds) (stopped rt) v = v

-- A worker that starts with the initial state of slot `slot` has, after any rounds at all, a state
-- that carries this number, in which the fields filled in are those of its `SlotState` (a name, a
-- MAC and a TAP exactly when booting or occupied or, possibly, failed; a start time when occupied;
-- an error when failed), the pid shown is that of the child held, and a failed slot holds no child.
pub supervise-initial-IsValid :
    (slot : ℕ) (c : Config) (rounds : List Round)
    → PhaseIsValid slot (supervise c rounds (live (initial slot)))
supervise-initial-IsValid slot c rounds =
    supervise-IsValid slot c rounds (live (initial slot)) (initial-IsValid slot)
