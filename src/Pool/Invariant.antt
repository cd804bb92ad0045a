-- ===== src/Pool/Invariant.antt =====
-- The invariant of the pool: slot `i` stands at place `i`, and its worker's state is valid for it.
use croutond.Base.{
  ℕ, zero, suc, ◌+◌, List, [], ◌∷◌, ◌++◌, some, ◌≡◌, refl, arith, get_elem?, set, length, subst,
}
use mathlib.Core.Option.{some-injective}
use croutond.Slot.{SlotRuntime, SlotCommand, Os}
use croutond.Slot.Worker.{Config, Phase, live, stopped}
use croutond.Slot.Invariant.{
  PhaseIsValid, IsValid, initial-IsValid, handle_command-IsValid, spawn_phase-IsValid,
  poll_phase-IsValid,
}
use croutond.Slot.Micro.{Micro, spawns, handles, polls, ends, micro, advance}
use croutond.Slot.Failure.{runtime}
use croutond.Slot.Handle.{SlotHandle, initialize_slot}
use croutond.Pool.{ProcessPool, Env, deliver, pass_slots, size, push_slots}
use croutond.Pool.Keeps.{AskKeeps, ask-Keeps}

pub PhaseIsValid-numbered :
    (slot : ℕ) (phase : Phase) → PhaseIsValid slot phase → (runtime phase).status.slot ≡ slot
PhaseIsValid-numbered slot (live rt) v = v.numbered
PhaseIsValid-numbered slot (stopped rt) v = v.numbered

abbrev pub HandleIsValid : ℕ → SlotHandle → Type 0
HandleIsValid i h = (h.config.slot ≡ i) × PhaseIsValid i h.phase

abbrev pub SlotsAreValid : ℕ → List SlotHandle → Type 0
SlotsAreValid i [] = Unit
SlotsAreValid i (h ∷ hs) = HandleIsValid i h × SlotsAreValid (suc i) hs

abbrev pub PoolIsValid : ProcessPool → Type 0
PoolIsValid p = SlotsAreValid 0 p.slots

module _ (slot : ℕ) where
  micro-IsValid :
      (h : SlotHandle) (m : Micro) (rt : SlotRuntime)
      → IsValid slot rt
      → PhaseIsValid slot (micro h.config m rt)
  micro-IsValid h (spawns outcome) rt v = spawn_phase-IsValid slot h.config outcome rt v
  micro-IsValid h (handles os command) rt v =
      handle_command-IsValid slot h.config.bridge h.config.api_socket os command rt v
  micro-IsValid h (polls poll) rt v = poll_phase-IsValid slot h.config poll rt v
  micro-IsValid h ends rt v = v

  advance-IsValid :
      (h : SlotHandle) (ms : List Micro) (phase : Phase)
      → PhaseIsValid slot phase
      → PhaseIsValid slot (advance h.config ms phase)
  unfolding advance
  advance-IsValid h [] phase v = v
  advance-IsValid h (m ∷ ms) (stopped rt) v = v
  advance-IsValid h (m ∷ ms) (live rt) v = advance-IsValid h ms _ (micro-IsValid h m rt v)

  deliver-IsValid :
      (os : Os) (command : SlotCommand) (c : Config) (phase : Phase)
      → PhaseIsValid slot phase
      → PhaseIsValid slot (deliver os command c phase).1
  unfolding deliver
  deliver-IsValid os command c (stopped rt) v = v
  deliver-IsValid os command c (live rt) v =
      handle_command-IsValid slot c.bridge c.api_socket os command rt v

pass_slots-IsValid :
    (background : ℕ → List Micro) (i : ℕ) (hs : List SlotHandle)
    → SlotsAreValid i hs
    → SlotsAreValid i (pass_slots background i hs)
pass_slots-IsValid background i [] v = tt
pass_slots-IsValid background i (h ∷ hs) ((n, v), vs) =
    ((n, advance-IsValid i h (background i) h.phase v), pass_slots-IsValid background (suc i) hs vs)

HandleIsValid-shift : {i j : ℕ} (h : SlotHandle) → i ≡ j → HandleIsValid i h → HandleIsValid j h
HandleIsValid-shift h e v = subst (λ n. HandleIsValid n h) e v

pub SlotsAreValid-get :
    (i k : ℕ) (hs : List SlotHandle) (h : SlotHandle)
    → SlotsAreValid i hs
    → get_elem? hs k ≡ some h
    → HandleIsValid (i + k) h
SlotsAreValid-get i k [] h v e = cc
SlotsAreValid-get i zero (x ∷ hs) h (v, vs) e =
    subst (HandleIsValid (i + 0)) (some-injective _ _ e)
      (HandleIsValid-shift {i = i} x (omega arith) v)
SlotsAreValid-get i (suc k) (x ∷ hs) h (v, vs) e =
    HandleIsValid-shift {i = suc i + k} h (omega arith) (SlotsAreValid-get (suc i) k hs h vs e)

SlotsAreValid-set :
    (i k : ℕ) (hs : List SlotHandle) (h : SlotHandle)
    → SlotsAreValid i hs
    → HandleIsValid (i + k) h
    → SlotsAreValid i (set hs k h)
SlotsAreValid-set i k [] h v w = tt
SlotsAreValid-set i zero (x ∷ hs) h (v, vs) w =
    (HandleIsValid-shift {i = i + 0} h (omega arith) w, vs)
SlotsAreValid-set i (suc k) (x ∷ hs) h (v, vs) w = (
  v,
  SlotsAreValid-set (suc i) k hs h vs
      (HandleIsValid-shift {i = i + suc k} {j = suc i + k} h (omega arith) w),
)

SlotsAreValid-append :
    (i : ℕ) (hs : List SlotHandle) (h : SlotHandle)
    → SlotsAreValid i hs
    → HandleIsValid (i + length hs) h
    → SlotsAreValid i (hs ++ h ∷ [])
SlotsAreValid-append i [] h v w = (HandleIsValid-shift {i = i + 0} h (omega arith) w, tt)
SlotsAreValid-append i (x ∷ hs) h (v, vs) w = (
  v,
  SlotsAreValid-append (suc i) hs h vs
      (HandleIsValid-shift {i = i + suc (length hs)} {j = suc i + length hs} h (omega arith) w),
)

pub ask-IsValid : (env : Env) (command : SlotCommand) → AskKeeps env PoolIsValid command
ask-IsValid env command =
    ask-Keeps env (SlotsAreValid 0) command
      (λ time hs v. pass_slots-IsValid (env.background time) 0 hs v)
      λ time hs slot h v e.
        let w = SlotsAreValid-get 0 slot hs h v e in
        SlotsAreValid-set 0 slot hs _ v
          (w.0, deliver-IsValid (0 + slot) (env.os time) command h.config h.phase w.1)

pub push_slots-IsValid : (n : ℕ) (p : ProcessPool) → PoolIsValid p → PoolIsValid (push_slots n p)
unfolding push_slots initialize_slot
push_slots-IsValid zero p v = v
push_slots-IsValid (suc n) p v =
    let new = initialize_slot (size p) p.program p.args p.bridge p.vm_path in
    push_slots-IsValid n _ (
      SlotsAreValid-append 0 p.slots new v
        (HandleIsValid-shift {i = size p} new (omega arith) (refl, initial-IsValid (size p))))
