-- ===== src/Pool/Scale.antt =====
-- src/pool.rs: `spawn`, `autoscale_tick` and `shutdown`, which start workers and wait for their end.
pub mod Hangs
pub mod Joins
use croutond.Base.{
  ℕ, suc, zero, ◌-◌, String, Bool, true, false, Option, none, some, List, [], ◌∷◌, init, last?, ltb,
  leb, if◌then◌else◌, Result, ok, err, not,
}
use croutond.Base.Text.{◌+++◌}
use croutond.Base.Text.Decimal.{decimal}
use croutond.Types.{empty}
use croutond.Slot.Handle.{SlotHandle, worker_ends}
use croutond.Pool.{
  ProcessPool, Env, PoolCall, returned, pending, ◌>>=◌, ◌>>◌, give, size, is_in, get_vm_slot_status,
  log_pool_occupancy, push_slots,
}

-- The pool before its first slots are started.
abbrev pub new_pool : ℕ → ℕ → ℕ → String → List String → Option String → String → ProcessPool
new_pool min_pool_size max_pool_size scale_down_cooldown program args bridge vm_path = record {
  shutdown_tx = false;
  slots = [];
  vm_path = vm_path;
  program = program;
  args = args;
  bridge = bridge;
  min_pool_size = min_pool_size;
  max_pool_size = max_pool_size;
  scale_down_cooldown = scale_down_cooldown;
  last_scale_down_at = none;
  time = 0;
}

-- `ProcessPool::spawn`. An `io::Error` of kind `InvalidInput`, by its text.
unfoldable pub spawn_pool :
    ℕ → ℕ → ℕ → String → List String → Option String → String → Result String ProcessPool
spawn_pool min_pool_size max_pool_size scale_down_cooldown program args bridge vm_path =
    if ltb max_pool_size min_pool_size
    then err (
        "max_pool_size ("
        +++ decimal max_pool_size
        +++ ") must be >= min_pool_size ("
        +++ decimal min_pool_size
        +++ ")")
    else ok (
        push_slots min_pool_size
          (new_pool min_pool_size max_pool_size scale_down_cooldown program args bridge vm_path))

module _ (env : Env) where
  -- `slot.worker.await`; `dropped` says whether `slot.tx` is gone by then. An error of the join is
  -- logged only; a panic of the worker is not modelled.
  unfoldable pub await_worker : Bool → SlotHandle → PoolCall (Unit {0})
  await_worker dropped h p =
      if worker_ends p.shutdown_tx dropped (env.rounds p.time) h
      then (returned tt, record p { time = suc p.time })
      else (pending, p)

  -- `last_scale_down_at.elapsed() < self.scale_down_cooldown`
  abbrev pub cools_down : ProcessPool → Bool
  cools_down p = elim p.last_scale_down_at [
    | none ↦ false
    | some last ↦ ltb (env.clock p.time - last) p.scale_down_cooldown
  ]

  abbrev pub stamp : PoolCall (Unit {0})
  stamp p = (returned tt, record p { last_scale_down_at = some (env.clock p.time) })

  -- The handle that `pop` returns lives to the end of the `if let`, its sender with it: only
  -- `worker` is moved out of it to be awaited.
  unfoldable pub remove_last : PoolCall Bool
  remove_last p = elim (last? p.slots) [
    | none ↦ give false p
    | some slot ↦
        (await_worker false slot >> stamp >> log_pool_occupancy env >> give true)
          (record p { slots = init p.slots })
  ]

  unfoldable pub autoscale_tick : PoolCall Bool
  autoscale_tick p =
      if leb (size p) p.min_pool_size
      then give false p
      else if cools_down p
      then give false p
      else (get_vm_slot_status env (size p - 1) >>= λ s.
            if not (is_in empty s) then give false else remove_last)
          p

  -- `while let Some(slot) = self.slots.pop()`, by the number of slots.
  unfoldable pub join_workers : ℕ → PoolCall (Unit {0})
  join_workers zero = give tt
  join_workers (suc n) = λ p. elim (last? p.slots) [
    | none ↦ give tt p
    | some slot ↦ (await_worker false slot >> join_workers n) (record p { slots = init p.slots })
  ]

  unfoldable pub shutdown : PoolCall (Unit {0})
  shutdown p = join_workers (size p) (record p { shutdown_tx = true })
