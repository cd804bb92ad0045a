-- ===== src/Slot/Handle.antt =====
-- src/slot_supervisor.rs: `SlotHandle` and `initialize_slot`. The handle of a slot is the only sender
-- of its commands, so the model keeps the state of the worker in its handle.
use croutond.Base.{ℕ, String, Bool, not, Option, List, [], ◌∷◌, ◌++◌, map, if◌then◌else◌, ◌&&◌}
use croutond.Base.Text.{◌+++◌}
use croutond.Base.Text.Decimal.{decimal}
use croutond.Base.FilePath.{join}
use croutond.Slot.Worker.{
  Config, Round, Wake, shutdown_changed, received, channel_closed, timeout, Phase, live, initial,
  supervise,
}
use croutond.Slot.Ending.{is_live}

pub record SlotHandle : Type 0 where
  pub config : Config
  pub phase : Phase

-- `vm_path.join(format!("vmm{slot}.sock"))`
abbrev pub socket_path : String → ℕ → String
socket_path vm_path slot = join vm_path ("vmm" +++ decimal slot +++ ".sock")

unfoldable pub initialize_slot : ℕ → String → List String → Option String → String → SlotHandle
initialize_slot slot program args bridge vm_path = record {
  config = record {
    slot = slot;
    program = program;
    args = args ++ "--api-socket" ∷ socket_path vm_path slot ∷ [];
    bridge = bridge;
    api_socket = socket_path vm_path slot;
  };
  phase = live (initial slot);
}

-- What a worker sees of its two channels in a round, when the shutdown flag is `flag`, its sender
-- lives on, and the command sender is or is not dropped.
abbrev as_seen : Bool → Bool → Wake → Wake
as_seen flag dropped (shutdown_changed now) = shutdown_changed (now && flag)
as_seen flag dropped (received os command) = received os command
as_seen flag dropped channel_closed = if dropped then channel_closed else timeout
as_seen flag dropped timeout = timeout

abbrev pub round_as_seen : Bool → Bool → Round → Round
round_as_seen flag dropped r = record r {
  shutdown = flag;
  queued = [];
  wake = as_seen flag dropped r.wake;
}

-- `slot.worker.await`, while the worker runs the rounds of a list: whether it has ended.
unfoldable pub worker_ends : Bool → Bool → List Round → SlotHandle → Bool
worker_ends flag dropped rounds h =
    not (is_live (supervise h.config (map (round_as_seen flag dropped) rounds) h.phase))
