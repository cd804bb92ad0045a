-- ===== src/Slot/Worker.antt =====
-- src/slot_supervisor.rs: the loop of `supervise_slot`, one round at a time. What the environment
-- does in a round is a record; a run is a list of rounds.
use croutond.Base.{
  ℕ, String, Bool, ◌&&◌, Option, none, some, is_none, List, [], ◌∷◌, ◌++◌, if◌then◌else◌, Result,
  ok, err,
}
use croutond.Base.Text.Decimal.{decimal}
use croutond.Types.{SlotState, empty, booting, occupied, failed, SlotStatus}
use croutond.Slot.{
  Child, SlotRuntime, SlotCommand, Reply, Effect, remove_file, spawn, Os, next_generation,
  should_spawn, stop_running, handle_command,
}

-- The arguments of `supervise_slot` that stay the same.
pub record Config : Type 0 where
  pub slot : ℕ
  pub program : String
  pub args : List String
  pub bridge : Option String
  pub api_socket : String

-- `child.try_wait()`: `Ok(Some(_))`, `Ok(None)` or `Err(_)`.
pub data Poll : Type 0 where
  exited : Poll
  alive : Poll
  poll_error : String → Poll

-- The branch of `select!` that is taken; `shutdown_changed` says whether
-- `result.is_err() || *shutdown_rx.borrow()`.
pub data Wake : Type 0 where
  shutdown_changed : Bool → Wake
  received : Os → SlotCommand → Wake
  channel_closed : Wake
  timeout : Wake

pub record Round : Type 0 where
  pub shutdown : Bool
  pub spawned : Result String Child
  pub queued : List (Os × SlotCommand)
  pub poll : Poll
  pub wake : Wake
  pub os : Os

pub data Phase : Type 0 where
  live : SlotRuntime → Phase
  stopped : SlotRuntime → Phase

-- What a round leaves: the phase, the replies sent and the effects, each in order.
pub record Turn : Type 0 where
  pub phase : Phase
  pub replies : List Reply
  pub effects : List Effect

unfoldable pub initial : ℕ → SlotRuntime
initial slot = record {
  status = record {
    slot = slot;
    generation = 0;
    state = empty;
    name = none;
    mac = none;
    tap = none;
    pid = none;
    started_at = none;
    last_error = none;
  };
  child = none;
}

abbrev pub with_child : SlotRuntime → Child → SlotRuntime
with_child rt child = record {
  status = record (rt.status) { pid = child.id; last_error = none };
  child = some child;
}

abbrev pub fail : SlotRuntime → String → SlotRuntime
fail rt error = record {
  status = record (rt.status) { state = failed; last_error = some error; pid = none };
  child = none;
}

-- The guest has exited: a slot in use goes back to the pool.
abbrev freed : SlotStatus → SlotStatus
freed s = record s {
  generation = next_generation s.generation;
  state = empty;
  name = none;
  mac = none;
  tap = none;
  started_at = none;
  last_error = none;
}

unfoldable pub after_exit : SlotState → SlotStatus → SlotStatus
after_exit empty s = s
after_exit booting s = freed s
after_exit occupied s = freed s
after_exit failed s = s

abbrev gone : SlotRuntime → SlotRuntime
gone rt = record {
  status = after_exit rt.status.state (record (rt.status) { pid = none });
  child = none;
}

module _ (c : Config) where
  -- `if runtime.child.is_none() && should_spawn(runtime.status.state)`
  unfoldable pub spawn_phase : Result String Child → SlotRuntime → SlotRuntime × List Effect
  spawn_phase outcome rt =
      if is_none rt.child && should_spawn rt.status.state
      then (
        (elim outcome [ ok child ↦ with_child rt child | err error ↦ fail rt error ]),
        remove_file c.api_socket ∷ spawn c.program c.args (decimal c.slot) ∷ [],
      )
      else (rt, [])

  -- `while let Ok(command) = commands.try_recv()`
  unfoldable pub drain :
      List (Os × SlotCommand) → SlotRuntime → SlotRuntime × List Reply × List Effect
  drain [] rt = (rt, [], [])
  drain ((os, command) ∷ queue) rt =
      let (rt', reply, effects) = handle_command c.bridge c.api_socket os command rt in
      let (rt'', replies, more) = drain queue rt' in (rt'', reply ∷ replies, effects ++ more)

  -- `if let Some(child) = runtime.child.as_mut() { match child.try_wait() … }`
  poll_child : Poll → Option Child → SlotRuntime → SlotRuntime × List Effect
  poll_child poll none rt = (rt, [])
  poll_child exited (some child) rt = (gone rt, remove_file c.api_socket ∷ [])
  poll_child alive (some child) rt = (rt, [])
  poll_child (poll_error error) (some child) rt = (fail rt error, remove_file c.api_socket ∷ [])

  unfoldable pub poll_phase : Poll → SlotRuntime → SlotRuntime × List Effect
  unfolding poll_child after_exit
  poll_phase poll rt = poll_child poll rt.child rt

  -- Each `break` of the loop.
  unfoldable pub stop : Os → SlotRuntime → Turn
  stop os rt = record {
    phase = stopped rt;
    replies = [];
    effects = stop_running os rt.child ++ remove_file c.api_socket ∷ [];
  }

  abbrev go_on : SlotRuntime → Turn
  go_on rt = record { phase = live rt; replies = []; effects = [] }

  unfoldable pub select_phase : Os → Wake → SlotRuntime → Turn
  select_phase os (shutdown_changed now) rt = if now then stop os rt else go_on rt
  select_phase os (received os' command) rt =
      let (rt', reply, effects) = handle_command c.bridge c.api_socket os' command rt in
      record { phase = live rt'; replies = reply ∷ []; effects = effects }
  select_phase os channel_closed rt = stop os rt
  select_phase os timeout rt = go_on rt

  -- One round of the loop.
  unfoldable pub round : Round → SlotRuntime → Turn
  round r rt =
      let (rt₁, spawning) = spawn_phase r.spawned rt in
      let (rt₂, replies, draining) = drain r.queued rt₁ in
      let (rt₃, polling) = poll_phase r.poll rt₂ in
      let last = select_phase r.os r.wake rt₃ in
      let turn : Turn = record {
        phase = last.phase;
        replies = replies ++ last.replies;
        effects = spawning ++ draining ++ polling ++ last.effects;
      } in
      if r.shutdown then stop r.os rt else turn

  -- The state after the rounds of a list; a worker that has left the loop stays as it was.
  unfoldable pub supervise : List Round → Phase → Phase
  supervise [] phase = phase
  supervise (r ∷ rounds) (stopped rt) = stopped rt
  supervise (r ∷ rounds) (live rt) = supervise rounds (round r rt).phase
