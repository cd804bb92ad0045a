-- ===== src/Slot/Children.antt =====
-- The children of a worker: one at a time, and what becomes of one that is held.
use croutond.Base.{
  String, ◌≡◌, refl, ◌∙◌, sym, ap, true, false, Option, some, List, [], ◌∷◌, ◌++◌, append_assoc,
  append-nil, All-append, ◌⊎◌, inl, inr, Result, arith, Bool-cases, Option-cases,
}
use croutond.Types.{occupied, state_eq}
use croutond.Slot.{
  Child, SlotRuntime, SlotCommand, reserve_vm, mark_vm_booted, release_vm, reset_vm, get_vm_status,
  Os, Effect, start_kill, remove_file, handle_command, stop_running,
}
use croutond.Slot.Worker.{
  Config, Round, Poll, alive, exited, poll_error, Wake, shutdown_changed, received, channel_closed,
  timeout, stopped, spawn_phase, drain, poll_phase, select_phase, round, stop,
}
use croutond.Slot.Failure.{runtime}
use croutond.Slot.Spawns.{
  is_spawn, drain-NeverSpawns, NeverSpawns, stop_running-NeverSpawns, select_phase-NeverSpawns,
  poll_phase-NeverSpawns,
}

-- The child is signalled.
abbrev pub Signals : Child → List Effect → Type 0
Signals child effects =
    (before : List Effect) × (after : List Effect) × (effects ≡ before ++ start_kill child ∷ after)

Signals-left : (child : Child) (es fs : List Effect) → Signals child es → Signals child (es ++ fs)
Signals-left child es fs (before, after, e) =
    (before, after ++ fs, ap (λ x. x ++ fs) e ∙ append_assoc before (start_kill child ∷ after) fs)

Signals-right : (child : Child) (es fs : List Effect) → Signals child fs → Signals child (es ++ fs)
Signals-right child es fs (before, after, e) = (
  es ++ before,
  after,
  ap (λ x. es ++ x) e ∙ sym (append_assoc es before (start_kill child ∷ after)),
)

poll_cases :
    (poll : Poll)
    → (poll ≡ alive) ⊎ ((poll ≡ exited) ⊎ ((error : String) × (poll ≡ poll_error error)))
poll_cases alive = inl refl
poll_cases exited = inr (inl refl)
poll_cases (poll_error error) = inr (inr (error, refl))

module _ (c : Config) (child : Child) where
  -- The child is still held, or has been signalled.
  abbrev IsMinded : Option Child → List Effect → Type 0
  IsMinded held effects = (held ≡ some child) ⊎ Signals child effects

  stop_running-Signals :
      (os : Os) (held : Option Child)
      → held ≡ some child
      → Signals child (stop_running os held ++ remove_file c.api_socket ∷ [])
  unfolding stop_running
  stop_running-Signals os held h = rw h ([], _, refl)

  handle_command-IsMinded :
      (os : Os) (command : SlotCommand) (rt : SlotRuntime)
      → rt.child ≡ some child
      → IsMinded
          (handle_command c.bridge c.api_socket os command rt).0.child
          (handle_command c.bridge c.api_socket os command rt).2
  unfolding handle_command
  handle_command-IsMinded os get_vm_status rt h = inl h
  handle_command-IsMinded os (reserve_vm name mac tap) rt h = inl (ground arith)
  handle_command-IsMinded os (mark_vm_booted started_at) rt h = inl (ground arith)
  handle_command-IsMinded os release_vm rt h =
      elim (Bool-cases (state_eq rt.status.state occupied)) [
        | inl fits ↦ rw fits (inr (stop_running-Signals os rt.child h))
        | inr other ↦ rw other (inl h)
      ]
  handle_command-IsMinded os reset_vm rt h = inr (stop_running-Signals os rt.child h)

  -- What is minded by the first part of the effects stays so.
  then-IsMinded :
      (held held' : Option Child) (es fs : List Effect)
      → IsMinded held es
      → (held ≡ some child → IsMinded held' fs)
      → IsMinded held' (es ++ fs)
  then-IsMinded held held' es fs (inr signalled) next = inr (Signals-left child es fs signalled)
  then-IsMinded held held' es fs (inl kept) next = elim (next kept) [
    | inl still ↦ inl still
    | inr signalled ↦ inr (Signals-right child es fs signalled)
  ]

  drain-IsMinded :
      (queue : List (Os × SlotCommand)) (rt : SlotRuntime)
      → rt.child ≡ some child
      → IsMinded (drain c queue rt).0.child (drain c queue rt).2
  unfolding drain
  drain-IsMinded [] rt h = inl h
  drain-IsMinded ((os, command) ∷ queue) rt h =
      let (rt', reply, effects) = handle_command c.bridge c.api_socket os command rt in
      then-IsMinded rt'.child _ effects _ (handle_command-IsMinded os command rt h)
        (drain-IsMinded queue rt')

  select_phase-IsMinded :
      (os : Os) (wake : Wake) (rt : SlotRuntime)
      → rt.child ≡ some child
      → IsMinded
          (runtime (select_phase c os wake rt).phase).child
          (select_phase c os wake rt).effects
  unfolding select_phase stop
  select_phase-IsMinded os (shutdown_changed true) rt h = inr (stop_running-Signals os rt.child h)
  select_phase-IsMinded os (shutdown_changed false) rt h = inl h
  select_phase-IsMinded os (received os' command) rt h = handle_command-IsMinded os' command rt h
  select_phase-IsMinded os channel_closed rt h = inr (stop_running-Signals os rt.child h)
  select_phase-IsMinded os timeout rt h = inl h

  spawn_phase_held :
      (outcome : Result String Child) (rt : SlotRuntime)
      → rt.child ≡ some child
      → spawn_phase c outcome rt ≡ (rt, [])
  unfolding spawn_phase
  spawn_phase_held outcome rt h = rw h refl

  pub poll_phase_alive : (rt : SlotRuntime) → poll_phase c alive rt ≡ (rt, [])
  unfolding poll_phase
  poll_phase_alive rt = elim (Option-cases rt.child) [
    | inl nobody ↦ rw nobody refl
    | inr (held, h) ↦ rw h refl
  ]

  round_down :
      (r : Round) (rt : SlotRuntime)
      → r.shutdown ≡ true
      → round c r rt ≡ (record {
        phase = stopped rt;
        replies = [];
        effects = stop_running r.os rt.child ++ remove_file c.api_socket ∷ [];
      })
  unfolding round stop
  round_down r rt down = rw down refl

  -- A round that begins with a child, and in which none is found to have exited.
  pub round_held :
      (r : Round) (rt : SlotRuntime)
      → r.shutdown ≡ false
      → rt.child ≡ some child
      → r.poll ≡ alive
      → let (rt', replies, draining) = drain c r.queued rt in
        let last = select_phase c r.os r.wake rt' in
        round c r rt ≡ (record {
          phase = last.phase;
          replies = replies ++ last.replies;
          effects = draining ++ last.effects;
        })
  unfolding round
  round_held r rt up h e =
      rw
        (
          up,
          spawn_phase_held r.spawned rt h,
          e,
          poll_phase_alive (drain c r.queued rt).0,
          append-nil (drain c r.queued rt).2,
        )
        refl

  round-NeverSpawns :
      (r : Round) (rt : SlotRuntime)
      → r.shutdown ≡ false
      → rt.child ≡ some child
      → NeverSpawns (round c r rt).effects
  unfolding round
  round-NeverSpawns r rt up h =
      let P = λ (effect : Effect). is_spawn effect ≡ false in
      let (rt₁, _, draining) = drain c r.queued rt in
      let (rt₂, polling) = poll_phase c r.poll rt₁ in
      let last = select_phase c r.os r.wake rt₂ in
      rw (up, spawn_phase_held r.spawned rt h)
        (All-append P (draining ++ polling) last.effects
          (All-append P draining polling (drain-NeverSpawns c r.queued rt)
            (poll_phase-NeverSpawns c r.poll rt₁))
          (select_phase-NeverSpawns c r.os r.wake rt₂))

  -- A worker that holds a child starts no other one in a round. At the end of the round it holds the
  -- child still, or it has signalled it, or the poll of the round has found the child to have exited,
  -- or has failed.
  pub round_minds_child :
      (r : Round) (rt : SlotRuntime)
      → rt.child ≡ some child
      → NeverSpawns (round c r rt).effects
        × (((runtime (round c r rt).phase).child ≡ some child)
            ⊎ (Signals child (round c r rt).effects
                ⊎ ((r.poll ≡ exited) ⊎ ((error : String) × (r.poll ≡ poll_error error)))))
  round_minds_child r rt h = elim (Bool-cases r.shutdown) [
    | inl down ↦ rw (round_down r rt down) (
      stop_running-NeverSpawns c.api_socket r.os rt.child,
      inr (inl (stop_running-Signals r.os rt.child h)),
    )
    | inr up ↦ (
      round-NeverSpawns r rt up h,
      elim (poll_cases r.poll) [
        | inr gone ↦ inr (inr gone)
        | inl e ↦
            let rt' = (drain c r.queued rt).0 in
            elim (then-IsMinded rt'.child _ _ _ (drain-IsMinded r.queued rt h)
              (select_phase-IsMinded r.os r.wake rt')) [
                | inl held ↦ rw (round_held r rt up h e) (inl held)
                | inr signalled ↦ rw (round_held r rt up h e) (inr (inl signalled))
              ]
      ],
    )
  ]
