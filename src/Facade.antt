-- ===== src/Facade.antt =====
-- src/pool_facade.rs: the interface of the pool that the service is written against, and its
-- implementation by the process pool.
use croutond.Base.{ℕ, String, Option, List}
use croutond.Calls.{Call}
use croutond.Types.{VmRuntime, SlotStatus, PoolError, ProxyResponse}
use croutond.ChClient.{Method}
use croutond.Pool.{
  ProcessPool, Env, size, vm_socket_path, pool_usage, list_running_vms, find_vm_runtime_by_name,
  allocate_vm_slot, find_vm_slot_status_by_name, mark_vm_slot_booted, release_vm_slot,
  reset_vm_slot, get_vm_slot_status, proxy_vm_request, proxy_vm_request_with_content_type,
}

-- `trait PoolFacade`
pub record PoolFacade (S : Type 0) : Type 0 where
  pub pool_size : S → ℕ
  pub pool_usage_counts : Call S PoolError (ℕ × ℕ)
  pub list_runtimes : Call S PoolError (List VmRuntime)
  pub find_runtime_by_name : String → Call S PoolError (Option VmRuntime)
  pub allocate_slot : String → String → Call S PoolError SlotStatus
  pub find_slot_by_name : String → Call S PoolError (Option SlotStatus)
  pub mark_slot_booted : ℕ → String → Call S PoolError SlotStatus
  pub release_slot : ℕ → Call S PoolError SlotStatus
  pub reset_slot : ℕ → Call S PoolError SlotStatus
  pub get_slot_status : ℕ → Call S PoolError SlotStatus
  pub slot_socket_path : S → ℕ → String
  pub request : ℕ → Method → String → List ℕ → Call S PoolError ProxyResponse
  pub request_with_content_type :
      ℕ → Method → String → List ℕ → Option String → Call S PoolError ProxyResponse

-- `impl PoolFacade for ProcessPool`
abbrev pub process_pool : Env → PoolFacade ProcessPool
process_pool env = record {
  pool_size = size;
  pool_usage_counts = pool_usage env;
  list_runtimes = list_running_vms env;
  find_runtime_by_name = find_vm_runtime_by_name env;
  allocate_slot = allocate_vm_slot env;
  find_slot_by_name = find_vm_slot_status_by_name env;
  mark_slot_booted = mark_vm_slot_booted env;
  release_slot = release_vm_slot env;
  reset_slot = reset_vm_slot env;
  get_slot_status = get_vm_slot_status env;
  slot_socket_path = vm_socket_path;
  request = proxy_vm_request env;
  request_with_content_type = proxy_vm_request_with_content_type env;
}
