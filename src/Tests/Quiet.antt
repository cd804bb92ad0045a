-- ===== src/Tests/Quiet.antt =====
-- The pool while nothing else goes on.
use croutond.Base.{none, some, [], ◌∷◌, ◌≡◌, refl}
use croutond.Base.Text.Decimal.{decimal}
use croutond.Tap.{ensure_tap_device}
use croutond.Types.{SlotStatus, booting}
use croutond.Slot.{handle_command, booted, cleared}
use croutond.Slot.Worker.{live}
use croutond.Slot.Micro.{advance}
use croutond.Slot.Handle.{initialize_slot}
use croutond.Pool.{
  ProcessPool, returned, ◌>>=◌, pass_time, ask, deliver, get_vm_slot_status, statuses_from,
  list_vm_slots, find_vm_slot_status_by_name, allocate_vm_slot, allocate_unless, allocate_loop,
  allocate_step, reserve_vm_slot, command_vm_slot, log_pool_occupancy, mark_vm_slot_booted,
  release_vm_slot, find_vm_runtime_by_name,
}
use croutond.Pool.Quiet.{IsUp}
use croutond.Pool.Quiet.Spec.{MakesTaps, spec_allocate}
use croutond.Pool.Quiet.Places.{shown}
use croutond.Pool.Quiet.Allocates.{allocate_vm_slot_refines}
use croutond.Pool.Quiet.Lifecycle.{vm_lives, runtime_of}
use croutond.Tests.Data.{env, start, idle, idle_status}

-- One slot, empty and with a child.
abbrev pub warm : ProcessPool
warm = record start {
  slots =
      record (initialize_slot 0 "cloud-hypervisor" [] (some "br0") "/tmp") { phase = live idle }
      ∷ [];
}

pub warm-IsUp : IsUp warm
unfolding initialize_slot
warm-IsUp = (
  (
    (
      refl,
      record {
        numbered = refl;
        filled = (refl, refl, refl, refl, refl);
        pid = refl;
        childless = tt;
      },
    ),
    tt,
  ),
  ((_, refl), tt),
)

pub env-MakesTaps : MakesTaps env
unfolding ensure_tap_device
env-MakesTaps time tap none = refl
env-MakesTaps time tap (some bridge) = refl

allocate_vm_slot_refines_example :
    shown (allocate_vm_slot env "vm" "02:00:00:00:00:01" warm)
    ≡ spec_allocate 3 "vm" "02:00:00:00:00:01" (idle_status ∷ [])
unfolding initialize_slot
allocate_vm_slot_refines_example =
    allocate_vm_slot_refines env "vm" "02:00:00:00:00:01" warm (λ time slot. refl) env-MakesTaps
      warm-IsUp

abbrev taken : SlotStatus
taken = record idle_status {
  generation = 4;
  state = booting;
  name = some "vm";
  mac = some "02:00:00:00:00:01";
  tap = some "tap0";
}

-- The pool after the allocation.
abbrev after : ProcessPool
after = (allocate_vm_slot env "vm" "02:00:00:00:00:01" warm).1

slot_is_allocated : allocate_vm_slot env "vm" "02:00:00:00:00:01" warm ≡ (returned taken, after)
unfolding allocate_vm_slot allocate_unless allocate_loop allocate_step reserve_vm_slot
    command_vm_slot log_pool_occupancy find_vm_slot_status_by_name list_vm_slots statuses_from
    get_vm_slot_status ask deliver pass_time initialize_slot advance handle_command
    ensure_tap_device decimal ◌>>=◌
slot_is_allocated = refl

vm_lives_example :
    let q₁ = (mark_vm_slot_booted env 0 "now" after).1 in
    let q₂ = (find_vm_runtime_by_name env "vm" q₁).1 in
    let q₃ = (release_vm_slot env 0 q₂).1 in
    ((find_vm_slot_status_by_name env "vm" after).0 ≡ returned (some taken))
    × ((mark_vm_slot_booted env 0 "now" after).0 ≡ returned (booted "now" taken))
    × ((find_vm_runtime_by_name env "vm" q₁).0
        ≡ returned (some (runtime_of "vm" "02:00:00:00:00:01" "now" taken 4711)))
    × ((release_vm_slot env 0 q₂).0 ≡ returned (cleared taken))
    × ((find_vm_slot_status_by_name env "vm" q₃).0 ≡ returned none)
vm_lives_example =
    vm_lives env "vm" "02:00:00:00:00:01" "now" warm after taken 4711 (λ time slot. refl)
      env-MakesTaps warm-IsUp slot_is_allocated refl
