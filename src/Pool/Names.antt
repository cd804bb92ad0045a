-- ===== src/Pool/Names.antt =====
-- The names in the pool: what workers and questions to them do to the names of the slots.
pub mod Distinct
pub mod Fading
pub mod Listing
pub mod Asked
pub mod Found
use croutond.Base.{
  ℕ, zero, suc, String, ◌≡◌, ◌≢◌, refl, ◌∙◌, ◌⊎◌, inl, inr, Bool, true, false, not, ◌&&◌, Option,
  none, some, List, [], ◌∷◌, ◌++◌, All, get_elem?, set, arith, Option-cases, Bool-cases, Result,
}
use croutond.Types.{SlotStatus}
use croutond.Slot.{
  Child, SlotRuntime, SlotCommand, reserve_vm, mark_vm_booted, release_vm, reset_vm, get_vm_status,
  Os, handle_command,
}
use croutond.Slot.Worker.{Config, Poll, Phase, live, stopped, spawn_phase, poll_phase}
use croutond.Slot.Failure.{runtime}
use croutond.Slot.Micro.{Micro, spawns, handles, polls, ends, micro, advance}
use croutond.Slot.Handle.{SlotHandle, initialize_slot}
use croutond.Pool.{ProcessPool, Env, deliver, pass_slots, size, push_slots, ask}
use croutond.Pool.Keeps.{AskKeeps, ask-Keeps}

abbrev pub name_of : SlotHandle → Option String
name_of h = (runtime h.phase).status.name

-- A name that is gone, or the one that was there.
abbrev pub Fades : Option String → Option String → Type 0
Fades old new = (new ≡ none) ⊎ (new ≡ old)

Fades-trans : (a b c : Option String) → Fades a b → Fades b c → Fades a c
Fades-trans a b c h k = ground arith

abbrev pub is_reserve : SlotCommand → Bool
is_reserve (reserve_vm name mac tap) = true
is_reserve _ = false

-- Reservations are made by `allocate_vm_slot` only, which has the pool to itself: while a call waits,
-- no other task reserves a slot.
abbrev is_tame : Micro → Bool
is_tame (handles os command) = not (is_reserve command)
is_tame _ = true

abbrev pub all_tame : List Micro → Bool
all_tame [] = true
all_tame (m ∷ ms) = is_tame m && all_tame ms

abbrev pub IsTame : Env → Type 0
IsTame env = (time slot : ℕ) → all_tame (env.background time slot) ≡ true

handle_command-Fades :
    (bridge : Option String) (socket : String) (os : Os) (command : SlotCommand) (rt : SlotRuntime)
    → is_reserve command ≡ false
    → Fades rt.status.name (handle_command bridge socket os command rt).0.status.name
unfolding handle_command
handle_command-Fades bridge socket os (reserve_vm name mac tap) rt h = cc
handle_command-Fades bridge socket os (mark_vm_booted started_at) rt h = ground arith
handle_command-Fades bridge socket os release_vm rt h = ground arith
handle_command-Fades bridge socket os reset_vm rt h = ground arith
handle_command-Fades bridge socket os get_vm_status rt h = ground arith

spawn_phase-Fades :
    (c : Config) (outcome : Result String Child) (rt : SlotRuntime)
    → Fades rt.status.name (spawn_phase c outcome rt).0.status.name
unfolding spawn_phase
spawn_phase-Fades c outcome rt = ground arith

poll_phase-Fades :
    (c : Config) (poll : Poll) (rt : SlotRuntime)
    → Fades rt.status.name (poll_phase c poll rt).0.status.name
unfolding poll_phase
poll_phase-Fades c poll rt = ground arith

micro-Fades :
    (c : Config) (m : Micro) (rt : SlotRuntime)
    → is_tame m ≡ true
    → Fades rt.status.name (runtime (micro c m rt)).status.name
micro-Fades c (spawns outcome) rt h = spawn_phase-Fades c outcome rt
micro-Fades c (handles os command) rt h =
    handle_command-Fades c.bridge c.api_socket os command rt (ground arith)
micro-Fades c (polls poll) rt h = poll_phase-Fades c poll rt
micro-Fades c ends rt h = inr refl

pub advance-Fades :
    (c : Config) (ms : List Micro) (phase : Phase)
    → all_tame ms ≡ true
    → Fades (runtime phase).status.name (runtime (advance c ms phase)).status.name
unfolding advance
advance-Fades c [] phase h = inr refl
advance-Fades c (m ∷ ms) (stopped rt) h = inr refl
advance-Fades c (m ∷ ms) (live rt) h =
    Fades-trans rt.status.name (runtime (micro c m rt)).status.name _
      (micro-Fades c m rt (ground arith)) (advance-Fades c ms (micro c m rt) (ground arith))

pub deliver-Fades :
    (os : Os) (command : SlotCommand) (c : Config) (phase : Phase)
    → is_reserve command ≡ false
    → Fades (runtime phase).status.name (runtime (deliver os command c phase).1).status.name
unfolding deliver
deliver-Fades os command c (stopped rt) h = inr refl
deliver-Fades os command c (live rt) h = handle_command-Fades c.bridge c.api_socket os command rt h
