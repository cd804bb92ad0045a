-- ===== src/Tests/Pools.antt =====
-- Pools.
use croutond.Base.{◌≡◌, refl, none, some, List, [], ◌∷◌, false, arith, map}
use croutond.Tap.{ensure_tap_device}
use croutond.Slot.{mark_vm_booted, handle_command}
use croutond.Slot.Worker.{initial}
use croutond.Slot.Micro.{advance}
use croutond.Slot.Handle.{initialize_slot}
use croutond.Pool.{
  returned, pending, ◌>>=◌, push_slots, pass_time, ask, deliver, get_vm_slot_status, statuses_from,
  list_vm_slots, find_vm_slot_status_by_name, allocate_vm_slot, allocate_unless, allocate_loop,
  allocate_step, reserve_vm_slot, command_vm_slot, log_pool_occupancy,
}
use croutond.Pool.Names.{name_of}
use croutond.Pool.Names.Distinct.{AreDistinct}
use croutond.Pool.Scale.{spawn_pool, autoscale_tick, shutdown}
use croutond.Pool.Scale.Hangs.{autoscale_tick_hangs}
use croutond.Pool.Scale.Joins.{shutdown_ends}
use croutond.Calls.{is_pending}
use croutond.Pool.Allocate.Total.{allocate_vm_slot_ends}
use croutond.Pool.Allocate.Names.{allocate_vm_slot-AreDistinct}
use croutond.Pool.Allocate.History.{
  PoolOp, allocates, commands, perform, perform_all, IsSound, perform_all-spawn_pool,
}
use croutond.Tests.Data.{env, start, pool, idle_status}

-- The names in the pool after two requests for one name and one for another.
abbrev history : List PoolOp
history =
    allocates "vm-a" "02:00:00:00:00:01"
    ∷ allocates "vm-b" "02:00:00:00:00:02"
    ∷ allocates "vm-a" "02:00:00:00:00:01"
    ∷ commands (mark_vm_booted "now") 0
    ∷ []

history_test : map name_of (perform_all env history pool).slots ≡ some "vm-a" ∷ some "vm-b" ∷ []
unfolding perform_all perform allocate_vm_slot allocate_unless allocate_loop allocate_step
    reserve_vm_slot command_vm_slot log_pool_occupancy find_vm_slot_status_by_name list_vm_slots
    statuses_from get_vm_slot_status ask deliver pass_time push_slots initialize_slot initial
    advance handle_command ensure_tap_device ◌>>=◌
history_test = refl

allocate_vm_slot-AreDistinct_example :
    AreDistinct (allocate_vm_slot env "vm-a" "02:00:00:00:00:01" pool).1.slots
unfolding push_slots initialize_slot initial
allocate_vm_slot-AreDistinct_example =
    allocate_vm_slot-AreDistinct env "vm-a" "02:00:00:00:00:01" pool (λ time slot. refl)
      (λ name e. (λ e'. cc, tt), (λ name e. tt, tt))

perform_all-spawn_pool_example : IsSound (perform_all env history (push_slots 1 start))
unfolding spawn_pool
perform_all-spawn_pool_example =
    perform_all-spawn_pool env 1 3 15 "cloud-hypervisor" [] (some "br0") "/tmp" history
      (push_slots 1 start) refl

autoscale_tick_hangs_example : (autoscale_tick env pool).0 ≡ pending
unfolding get_vm_slot_status ask deliver pass_time push_slots initialize_slot initial advance
    handle_command
autoscale_tick_hangs_example =
    autoscale_tick_hangs env pool (record idle_status { slot = 1; generation = 0; pid = none }) refl
      (omega arith) refl refl refl

shutdown_ends_example : ((shutdown env pool).0 ≡ returned tt) × ((shutdown env pool).1.slots ≡ [])
shutdown_ends_example = shutdown_ends env pool (λ time. λ e. cc)

allocate_vm_slot_ends_example :
    is_pending (allocate_vm_slot env "vm-a" "02:00:00:00:00:01" pool).0 ≡ false
allocate_vm_slot_ends_example = allocate_vm_slot_ends env "vm-a" "02:00:00:00:00:01" pool
