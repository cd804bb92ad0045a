-- ===== src/Api.antt =====
-- src/api.rs: the handlers of the HTTP interface, over any implementation of the pool's interface. A
-- handler is a call that returns the value of the reply, or an error that `error.rs` turns into one.
-- The router and the extractors of the path, the state and the body are axum's.
pub mod Usage
pub mod Lives
pub mod Router
pub mod Reads
pub mod Safe
pub mod Fresh
use croutond.Base.{
  ℕ, String, Bool, true, not, Option, none, some, is_some, List, [], ◌∷◌, if◌then◌else◌, Result, ok,
  err, ok_or, map_err,
}
use croutond.Base.Text.{◌+++◌}
use croutond.Base.FilePath.{is_absolute}
use croutond.Calls.{returned, ◌>>=◌, ◌>>◌, give, raise, lift}
use croutond.Types.{VmRuntime, ProxyResponse}
use croutond.Json.{Json, str, obj, entry, end}
use croutond.Error.{ApiError, validation, not_found, conflict, backend}
use croutond.Boot.{BootConfig}
use croutond.Facade.{PoolFacade}
use croutond.ProcessMetrics.{VmProcessMetrics, collect_vm_process_metrics}
use croutond.HostMetrics.{Host, HostMetrics, collect_host_metrics}
use croutond.Service.{
  World, Serve, of_pool, unlock, create_vm_with_pool, delete_vm_with_pool, proxy_action_by_name,
  proxy_action_by_name_with_body, proxy_passthrough_by_name,
}

pub record HealthResponse : Type 0 where
  pub service : String
  pub version : String
  pub pool_size : ℕ
  pub pool_in_use : ℕ
  pub pool_idle : ℕ

pub record OkResponse : Type 0 where
  pub ok : Bool

pub record ListResponse : Type 0 where
  pub vms : List VmRuntime

pub record VmMetricsResponse : Type 0 where
  pub name : String
  pub pid : ℕ
  pub process : VmProcessMetrics
  pub counters : Json

-- `version` is that of the package, `build` the response builder of axum, `from_slice` serde_json's,
-- `read` reads a file, and `now` is the text of the clock.
pub record Web (R : Type 0) : Type 0 where
  pub version : String
  pub build : ProxyResponse → Result String R
  pub from_slice : List ℕ → Result String Json
  pub read : String → Result String String
  pub now : String

unfoldable pub host_metrics : {S F : Type 0} → Host F → Serve S (HostMetrics F)
host_metrics host = lift (map_err backend (collect_host_metrics host))

module _ {S R : Type 0} (pool : PoolFacade S) (world : World S) (web : Web R) where
  unfoldable pub health : Serve S HealthResponse
  health = do
    (pool_in_use, pool_idle) ← of_pool pool world pool.pool_usage_counts
    λ s. (
      returned (record {
        service = "croutond";
        version = web.version;
        pool_size = pool.pool_size s;
        pool_in_use = pool_in_use;
        pool_idle = pool_idle;
      }),
      s,
    )

  unfoldable pub list_vms : Serve S ListResponse
  list_vms = do vms ← of_pool pool world pool.list_runtimes; give (record { vms = vms })

  -- No VM of the name runs: there is a slot with the name, or not.
  abbrev not_running : String → Serve S VmRuntime
  not_running name = do
    found ← of_pool pool world (pool.find_slot_by_name name)
    if is_some found
        then raise (conflict ("VM '" +++ name +++ "' is not running"))
        else raise (not_found ("VM '" +++ name +++ "' not found"))

  abbrev reply_or_not_running : String → Option VmRuntime → Serve S VmRuntime
  reply_or_not_running name (some runtime) = give runtime
  reply_or_not_running name none = not_running name

  unfoldable pub get_vm : String → Serve S VmRuntime
  get_vm name = of_pool pool world (pool.find_runtime_by_name name) >>= reply_or_not_running name

  abbrev pub create_vm : BootConfig → Serve S VmRuntime
  create_vm payload = create_vm_with_pool pool world payload

  abbrev done : Serve S (Unit {0}) → Serve S OkResponse
  done call = call >> give (record { ok = true })

  abbrev pub delete_vm : String → Serve S OkResponse
  delete_vm name = done (delete_vm_with_pool pool world name)

  abbrev pub reboot_vm : String → Serve S OkResponse
  reboot_vm name = done (proxy_action_by_name pool world name "/api/v1/vm.reboot")

  abbrev pub pause_vm : String → Serve S OkResponse
  pause_vm name = done (proxy_action_by_name pool world name "/api/v1/vm.pause")

  abbrev pub resume_vm : String → Serve S OkResponse
  resume_vm name = done (proxy_action_by_name pool world name "/api/v1/vm.resume")

  unfoldable pub snapshot_vm : String → String → Serve S OkResponse
  snapshot_vm name dest_path =
      if not (is_absolute dest_path)
      then raise (validation (some "destPath") "destPath must be absolute")
      else done (
          proxy_action_by_name_with_body pool world name "/api/v1/vm.snapshot"
            (obj (entry "destPath" (str dest_path) end)))

  -- The builder copies the status, the content type if there is one, and the body.
  abbrev build_proxy_response : ProxyResponse → Result ApiError R
  build_proxy_response response = map_err backend (web.build response)

  abbrev pub proxy_info : String → Serve S R
  proxy_info name = proxy_passthrough_by_name pool world name "/api/v1/vm.info" >>= λ response.
      lift (build_proxy_response response)

  abbrev pub proxy_counters : String → Serve S R
  proxy_counters name =
      proxy_passthrough_by_name pool world name "/api/v1/vm.counters" >>= λ response.
      lift (build_proxy_response response)

  unfoldable pub vm_metrics : String → Serve S VmMetricsResponse
  vm_metrics name = do
    found ← of_pool pool world (pool.find_runtime_by_name name)
    runtime ← lift (ok_or found (not_found ("VM '" +++ name +++ "' not found")))
    unlock pool world
    response ← proxy_passthrough_by_name pool world name "/api/v1/vm.counters"
    counters ← lift (
        map_err (λ error. backend ("invalid vm.counters payload: " +++ error))
          (web.from_slice response.body))
    process ← lift (
        map_err (λ error. backend ("failed to collect process metrics: " +++ error))
          (collect_vm_process_metrics web.read web.now runtime.pid))
    give (record { name = name; pid = runtime.pid; process = process; counters = counters })
