-- ===== src/Api/Fresh.antt =====
-- The first VM of a daemon that has just started, through the API.
use croutond.Base.{ℕ, String, ◌≡◌, Option, some, List, ok, ◌<◌}
use croutond.Calls.{returned}
use croutond.Boot.{BootConfig}
use croutond.Boot.Validation.{validate_boot_config}
use croutond.Slot.{Child}
use croutond.Slot.Worker.{Round, initial, with_child}
use croutond.Slot.Warm.{Starts}
use croutond.Pool.{ProcessPool, Env}
use croutond.Pool.Scale.{spawn_pool}
use croutond.Pool.Warm.{run_pool, spawn_pool-IsWarm}
use croutond.Pool.Quiet.Lifecycle.{runtime_of}
use croutond.Facade.{process_pool}
use croutond.Service.{World}
use croutond.Service.Mac.{mac_for_name}
use croutond.Service.Quiet.{GoesWell}
use croutond.Api.{Web, create_vm}
use croutond.Api.Lives.{Serves, vm_is_served}

-- While nothing else goes on, devices can be made, control sockets can be connected and every
-- request to a VM is answered without an error, a pool that has been spawned with at least one
-- slot, and each worker of which has then started a child and been left alone since, replies to the
-- first valid request with the VM at slot 0, which has the pid of that slot's child; from then on
-- the VM is served under its name, another request for the name is refused as a conflict, and after
-- a deletion, which succeeds, the VM is not found.
pub spawned_pool-Serves :
    {R : Type 0} (web : Web R) (env : Env) (world : World ProcessPool) (payload again : BootConfig)
    (min max cooldown : ℕ) (program : String) (args : List String) (bridge : Option String)
    (vm_path : String) (p : ProcessPool) (rounds : ℕ → List Round) (child : ℕ → Child) (pid : ℕ)
    → GoesWell env world
    → 0 < min
    → spawn_pool min max cooldown program args bridge vm_path ≡ ok p
    → ((slot : ℕ) → Starts (child slot) (rounds slot))
    → (child 0).id ≡ some pid
    → validate_boot_config payload ≡ ok tt
    → validate_boot_config again ≡ ok tt
    → again.name ≡ payload.name
    → let created = create_vm (process_pool env) world web payload (run_pool rounds p) in
      let mac = mac_for_name world.digest payload.name in
      let vacant = (with_child (initial 0) (child 0)).status in
      (started_at : String) × ((created.0
          ≡ returned (runtime_of payload.name mac started_at vacant pid))
        × Serves web env world payload.name again
            (runtime_of payload.name mac started_at vacant pid)
            created.1)
spawned_pool-Serves web env world payload again min max cooldown program args bridge vm_path p
      rounds child pid well some_slot spawned starts has_pid valid valid' same =
    let warm =
      spawn_pool-IsWarm rounds child starts min max cooldown program args bridge vm_path p some_slot
        spawned in
    vm_is_served web env world payload again (run_pool rounds p)
      (with_child (initial 0) (child 0)).status pid well warm.up valid valid' same
      (warm.free payload.name) warm.first has_pid
