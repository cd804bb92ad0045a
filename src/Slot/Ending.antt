-- ===== src/Slot/Ending.antt =====
-- When a worker leaves its loop, and what it has done by then.
use croutond.Base.{
  ◌≡◌, refl, List, [], ◌∷◌, Bool, true, false, ◌&&◌, not, Bool-cases, ◌∙◌, inl, ap, inr,
}
use croutond.Slot.{SlotRuntime, Os}
use croutond.Slot.Worker.{
  Config, Round, Wake, shutdown_changed, received, channel_closed, timeout, Phase, live, stopped,
  select_phase, round, supervise, stop,
}

-- The wake-ups that end the loop.
abbrev ends : Wake → Bool
ends (shutdown_changed now) = now
ends (received os command) = false
ends channel_closed = true
ends timeout = false

-- Neither was shutdown broadcast when the round looked, nor does its wake-up end the loop.
abbrev pub is_ordinary : Round → Bool
is_ordinary r = not r.shutdown && not (ends r.wake)

abbrev pub all_ordinary : List Round → Bool
all_ordinary [] = true
all_ordinary (r ∷ rounds) = is_ordinary r && all_ordinary rounds

abbrev pub is_live : Phase → Bool
is_live (live rt) = true
is_live (stopped rt) = false

module _ (c : Config) where
  select_phase_live :
      (os : Os) (wake : Wake) (rt : SlotRuntime)
      → is_live (select_phase c os wake rt).phase ≡ not (ends wake)
  unfolding select_phase stop
  select_phase_live os (shutdown_changed true) rt = refl
  select_phase_live os (shutdown_changed false) rt = refl
  select_phase_live os (received os' command) rt = refl
  select_phase_live os channel_closed rt = refl
  select_phase_live os timeout rt = refl

  round_live : (r : Round) (rt : SlotRuntime) → is_live (round c r rt).phase ≡ is_ordinary r
  unfolding round stop
  round_live r rt = elim (Bool-cases r.shutdown) [
    | inl h ↦ rw h
    | inr h ↦ rw (h, select_phase_live)
  ]

  pub supervise_stopped :
      (rounds : List Round) (rt : SlotRuntime) → supervise c rounds (stopped rt) ≡ stopped rt
  unfolding supervise
  supervise_stopped [] rt = refl
  supervise_stopped (r ∷ rounds) rt = refl

  supervise_phase :
      (rounds : List Round) (phase : Phase)
      → is_live (supervise c rounds phase) ≡ (is_live phase && all_ordinary rounds)
  unfolding supervise
  supervise_phase [] (live rt) = refl
  supervise_phase [] (stopped rt) = refl
  supervise_phase (r ∷ rounds) (live rt) =
      supervise_phase rounds (round c r rt).phase
      ∙ ap (λ b. b && all_ordinary rounds) (round_live r rt)
  supervise_phase (r ∷ rounds) (stopped rt) = refl

-- A worker is still in its loop after some rounds exactly when in none of them the shutdown flag was
-- up, the shutdown channel reported a shutdown or its sender's end, or the command channel was closed.
pub supervise-live :
    (c : Config) (rounds : List Round) (rt : SlotRuntime)
    → is_live (supervise c rounds (live rt)) ≡ all_ordinary rounds
supervise-live c rounds rt = supervise_phase c rounds (live rt)
