-- ===== src/Tests/Lives.antt =====
-- A VM that is created, looked up and deleted through the API, on a pool with one idle slot.
use croutond.Pool.{ProcessPool, push_slots, Env, is_named}
use croutond.Base.Text.{◌+++◌}
use croutond.Calls.{raised, returned}
use croutond.Error.{conflict}
use croutond.Service.{World, create_vm_with_pool, delete_vm_with_pool}
use croutond.Service.Quiet.Leaks.{IsStuck, late, unready_slot_leaks}
use croutond.Base.{
  false, All, ℕ, zero, suc, ok, some, none, true, ◌∷◌, get_elem?, find, ap, ok_injective, ◌≡◌, refl,
  [], arith, String,
}
use croutond.Slot.Worker.{initial, with_child}
use croutond.Pool.Scale.{new_pool, spawn_pool}
use croutond.Pool.Warm.{run_pool}
use croutond.Api.Fresh.{spawned_pool-Serves}
use croutond.Tests.Data.{quiet_round, child, busy, running_status, env, world, linux, idle_status}
use croutond.Tests.Slots.{left_alone}
use croutond.Slot.Handle.{initialize_slot}
use croutond.Pool.Quiet.Lifecycle.{runtime_of}
use croutond.Facade.{process_pool}
use croutond.Service.Mac.{mac_for_name}
use croutond.Service.Quiet.{IsCalm, GoesWell}
use croutond.Api.{create_vm}
use croutond.Api.Lives.{Serves, vm_is_served}
use croutond.Calls.Settles.{Settles}
use croutond.Types.{SlotStatus}
use croutond.Slot.{cleared}
use croutond.Pool.Quiet.{view}
use croutond.Pool.Quiet.Taken.{IsTaken}
use croutond.Service.Quiet.Steps.{reserved_for, IsCreated}
use croutond.Service.Quiet.Atomic.{LeavesFree, create_vm_is_atomic, delete_vm_frees}
use croutond.Tests.Services.{busy_is_valid}
use croutond.Calls.Keeps.{Keeps}
use croutond.Api.Router.{Verb, endpoints, router, handler}
use croutond.Api.Safe.{Shows, gets_change_nothing}
use croutond.Tests.Host.{host}
use croutond.Tests.Boots.{linux_accepted}
use croutond.Tests.Daemons.{web}
use croutond.Tests.Quiet.{warm, warm-IsUp, env-MakesTaps}

world-IsCalm : IsCalm env world
world-IsCalm = record {
  quiet = λ time slot. refl;
  taps = env-MakesTaps;
  unlocked = λ p. refl;
  connects = λ p path. refl;
  serialises = λ json. ([], refl);
  answers = λ time request. (_, refl);
}

world-GoesWell : GoesWell env world
world-GoesWell = record {
  calm = world-IsCalm;
  fine = λ time request response e. omega (arith, ap (λ r. r.status) (ok_injective e));
}

vm_is_served_example :
    let created = create_vm (process_pool env) world web linux warm in
    let mac = mac_for_name world.digest "vm-b" in
    (started_at : String) × ((created.0
        ≡ returned (runtime_of "vm-b" mac started_at idle_status 4711))
      × Serves web env world "vm-b" linux
          (runtime_of "vm-b" mac started_at idle_status 4711)
          created.1)
unfolding initialize_slot
vm_is_served_example =
    vm_is_served web env world linux linux warm idle_status 4711 world-GoesWell warm-IsUp
      linux_accepted linux_accepted refl refl refl refl

-- VMs that refuse every request.
abbrev refusing : Env
refusing = record env {
  http = λ time request. ok (record { status = 500; headers = []; body = [] });
}

refusing-IsCalm : IsCalm refusing world
refusing-IsCalm = record {
  quiet = λ time slot. refl;
  taps = env-MakesTaps;
  unlocked = λ p. refl;
  connects = λ p path. refl;
  serialises = λ json. ([], refl);
  answers = λ time request. (_, refl);
}

create_vm_is_atomic_example :
    let s = reserved_for world linux idle_status in
    Settles
      (create_vm_with_pool (process_pool refusing) world linux)
      warm
      (IsCreated world linux s 4711)
      (LeavesFree "vm-b" s)
unfolding initialize_slot
create_vm_is_atomic_example =
    create_vm_is_atomic refusing world linux warm idle_status 4711 refusing-IsCalm warm-IsUp
      linux_accepted refl refl refl

busy-IsTaken : IsTaken "vm" 0 running_status busy
unfolding initialize_slot
busy-IsTaken = record { up = (busy_is_valid, ((_, refl), tt)); here = refl; sole = only }
  where
    only :
        (j : ℕ) (s : SlotStatus)
        → get_elem? (running_status ∷ []) j ≡ some s
        → is_named "vm" s ≡ true
        → j ≡ 0
    only zero s e n = refl
    only (suc j) s e n = cc

delete_vm_frees_example :
    Settles
      (delete_vm_with_pool (process_pool refusing) world "vm")
      busy
      (λ _ q.
        (find (is_named "vm") (view q.slots) ≡ none)
        × (get_elem? (view q.slots) 0 ≡ some (cleared running_status)))
      (LeavesFree "vm" running_status)
delete_vm_frees_example =
    delete_vm_frees refusing world "vm" running_status busy refusing-IsCalm refl refl busy-IsTaken

gets_change_nothing_example :
    All
      (λ e. Keeps (Shows (idle_status ∷ [])) (
        handler
          (process_pool env)
          world
          web
          host
          e
          (record { name = "vm-b"; payload = linux; dest_path = "/tmp/vm-b" })))
      (endpoints Verb.get router)
gets_change_nothing_example =
    gets_change_nothing env world web host (idle_status ∷ [])
      (record { name = "vm-b"; payload = linux; dest_path = "/tmp/vm-b" }) (λ time slot. refl)
      λ p. refl

abbrev fresh_vacant : SlotStatus
fresh_vacant = (with_child (initial 0) child).status

spawned_pool-Serves_example :
    let p =
      run_pool
        (λ slot. quiet_round ∷ [])
        (push_slots 2 (new_pool 2 3 15 "cloud-hypervisor" [] (some "br0") "/tmp")) in
    let created = create_vm (process_pool env) world web linux p in
    let mac = mac_for_name world.digest "vm-b" in
    (started_at : String) × ((created.0
        ≡ returned (runtime_of "vm-b" mac started_at fresh_vacant 4711))
      × Serves web env world "vm-b" linux
          (runtime_of "vm-b" mac started_at fresh_vacant 4711)
          created.1)
unfolding spawn_pool
spawned_pool-Serves_example =
    spawned_pool-Serves web env world linux linux 2 3 15 "cloud-hypervisor" [] (some "br0") "/tmp"
      (push_slots 2 (new_pool 2 3 15 "cloud-hypervisor" [] (some "br0") "/tmp"))
      (λ slot. quiet_round ∷ []) (λ slot. child) 4711 world-GoesWell (omega arith) refl
      (λ slot. (refl, (left_alone, tt))) refl linux_accepted linux_accepted refl

-- No control socket can be connected.
abbrev deaf : World ProcessPool
deaf = record world { connects = λ p path. false }

deaf-IsStuck : IsStuck env deaf
deaf-IsStuck = record {
  quiet = λ time slot. refl;
  taps = env-MakesTaps;
  unlocked = λ p. refl;
  runs = λ p slept. omega arith;
  refuses = λ p path. refl;
}

unready_slot_leaks_example :
    let (outcome, q) = create_vm_with_pool (process_pool env) deaf linux warm in
    let s = reserved_for deaf linux idle_status in
    (outcome ≡ raised (late 0))
    × IsTaken "vm-b" 0 s q
    × ((create_vm_with_pool (process_pool env) deaf linux q).0
        ≡ raised (conflict ("VM '" +++ "vm-b" +++ "' is already running")))
    × ((delete_vm_with_pool (process_pool env) deaf "vm-b" q).0
        ≡ raised (conflict ("VM '" +++ "vm-b" +++ "' is not running")))
unfolding initialize_slot
unready_slot_leaks_example =
    unready_slot_leaks env deaf linux linux warm idle_status deaf-IsStuck warm-IsUp linux_accepted
      linux_accepted refl refl refl
