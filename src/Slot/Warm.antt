-- ===== src/Slot/Warm.antt =====
-- How a slot without a child gets warm: the worker spawns one at the start of its next round, and holds
-- it from then on while it is left alone.
use croutond.Base.{String, ◌≡◌, refl, ◌∙◌, ap, none, some, List, [], ◌∷◌, ok, All, false, Result}
use croutond.Base.Text.Decimal.{decimal}
use croutond.Types.{empty}
use croutond.Tap.{ensure_tap_device}
use croutond.Slot.{
  Child, SlotRuntime, remove_file, spawn, reserve_vm, mark_vm_booted, release_vm, Os,
  next_generation,
}
use croutond.Slot.Worker.{
  Config, Round, alive, timeout, live, with_child, spawn_phase, drain, select_phase, round,
  supervise,
}
use croutond.Slot.Invariant.{IsValid}
use croutond.Slot.Commands.{handle_all, handle_all_life}
use croutond.Slot.Children.{round_held, poll_phase_alive}

-- A round without a shutdown and without a command, in which the child has not exited.
pub record IsLeftAlone (r : Round) : Type 0 where
  pub going : r.shutdown ≡ false
  pub none_queued : r.queued ≡ []
  pub polled : r.poll ≡ alive
  pub woken : r.wake ≡ timeout

-- Rounds, at least one, in which the worker is left alone, and the child that starts in the first.
abbrev pub Starts : Child → List Round → Type 0
Starts child [] = ⊥
Starts child (r ∷ rounds) = (r.spawned ≡ ok child) × All IsLeftAlone (r ∷ rounds)

module _ (c : Config) (child : Child) where
  spawn_phase_empty :
      (outcome : Result String Child) (rt : SlotRuntime)
      → rt.child ≡ none
      → rt.status.state ≡ empty
      → outcome ≡ ok child
      → spawn_phase c outcome rt ≡ (
        with_child rt child,
        remove_file c.api_socket ∷ spawn c.program c.args (decimal c.slot) ∷ [],
      )
  unfolding spawn_phase
  spawn_phase_empty outcome rt childless is spawned = simp (childless, is, spawned)

  round_starts :
      (r : Round) (rt : SlotRuntime)
      → rt.child ≡ none
      → rt.status.state ≡ empty
      → r.spawned ≡ ok child
      → IsLeftAlone r
      → (round c r rt).phase ≡ live (with_child rt child)
  unfolding round drain select_phase
  round_starts r rt childless is spawned a =
      rw
        (
          a.going,
          spawn_phase_empty r.spawned rt childless is spawned,
          a.none_queued,
          a.polled,
          poll_phase_alive c child (with_child rt child),
          a.woken,
        )
        refl

  round_rests :
      (r : Round) (rt : SlotRuntime)
      → rt.child ≡ some child
      → IsLeftAlone r
      → (round c r rt).phase ≡ live rt
  unfolding drain select_phase
  round_rests r rt held a =
      rw (round_held c child r rt a.going held a.polled, a.none_queued, a.woken) refl

  supervise_rests :
      (rounds : List Round) (rt : SlotRuntime)
      → rt.child ≡ some child
      → All IsLeftAlone rounds
      → supervise c rounds (live rt) ≡ live rt
  unfolding supervise
  supervise_rests [] rt held a = refl
  supervise_rests (r ∷ rounds) rt held (a, as') =
      ap (supervise c rounds) (round_rests r rt held a) ∙ supervise_rests rounds rt held as'

  -- An empty slot without a child is warm after the rounds.
  pub supervise-Starts :
      (rounds : List Round) (rt : SlotRuntime)
      → rt.child ≡ none
      → rt.status.state ≡ empty
      → Starts child rounds
      → supervise c rounds (live rt) ≡ live (with_child rt child)
  unfolding supervise
  supervise-Starts [] rt childless is starts = elim starts [ ]
  supervise-Starts (r ∷ rounds) rt childless is (spawned, (a, as')) =
      ap (supervise c rounds) (round_starts r rt childless is spawned a)
      ∙ supervise_rests rounds (with_child rt child) refl as'

  -- From a valid empty slot whose TAP device can be made, reserving, booting and releasing, and then
  -- rounds in which a child starts and the worker is left alone, lead back to it, two generations
  -- later and with the new child.
  pub slot_recycles :
      (os : Os) (name mac tap started_at : String) (rt : SlotRuntime) (rounds : List Round)
      → IsValid rt.status.slot rt
      → rt.status.state ≡ empty
      → ensure_tap_device os.net tap c.bridge ≡ ok tt
      → Starts child rounds
      → let commands = reserve_vm name mac tap ∷ mark_vm_booted started_at ∷ release_vm ∷ [] in
        supervise c rounds (live (handle_all c.bridge c.api_socket os commands rt).0)
        ≡ live (record {
          status = record (rt.status) {
            generation = next_generation (next_generation rt.status.generation);
            pid = child.id;
            last_error = none;
          };
          child = some child;
        })
  slot_recycles os name mac tap started_at rt rounds v is made starts =
      let life = handle_all_life c.bridge c.api_socket os name mac tap started_at rt v is made in
      ap (λ x. supervise c rounds (live x.0)) life ∙ supervise-Starts rounds _ refl is starts
