-- ===== src/Api/Router.antt =====
-- `router` of src/api.rs: the table of its routes, and the handler of each. How axum matches a path
-- against the table and extracts the name and the body is left to axum.
use croutond.Base.{Bool, true, false, if◌then◌else◌, String, List, [], ◌∷◌, ◌++◌}
use croutond.Calls.{◌>>=◌, give}
use croutond.Types.{VmRuntime}
use croutond.Boot.{BootConfig}
use croutond.Facade.{PoolFacade}
use croutond.HostMetrics.{Host, HostMetrics}
use croutond.Service.{World, Serve}
use croutond.Api
use croutond.Api.{Web, HealthResponse, OkResponse, ListResponse, VmMetricsResponse}

pub data Verb : Type 0 where
  get post put delete : Verb

pub data Endpoint : Type 0 where
  health host_metrics list_vms create_vm get_vm delete_vm reboot_vm pause_vm resume_vm snapshot_vm
        proxy_info proxy_counters vm_metrics :
      Endpoint

-- A path with the methods that it answers to.
pub record Route : Type 0 where
  pub path : String
  pub methods : List (Verb × Endpoint)

abbrev route : String → List (Verb × Endpoint) → Route
route path methods = record { path = path; methods = methods }

abbrev pub router : List Route
router =
    route "/health" ((get, Endpoint.health) ∷ [])
    ∷ route "/metrics" ((get, Endpoint.host_metrics) ∷ [])
    ∷ route "/vms" ((get, Endpoint.list_vms) ∷ (post, Endpoint.create_vm) ∷ [])
    ∷ route "/vms/{name}" ((get, Endpoint.get_vm) ∷ (delete, Endpoint.delete_vm) ∷ [])
    ∷ route "/vms/{name}/reboot" ((put, Endpoint.reboot_vm) ∷ [])
    ∷ route "/vms/{name}/pause" ((put, Endpoint.pause_vm) ∷ [])
    ∷ route "/vms/{name}/resume" ((put, Endpoint.resume_vm) ∷ [])
    ∷ route "/vms/{name}/snapshot" ((put, Endpoint.snapshot_vm) ∷ [])
    ∷ route "/vms/{name}/info" ((get, Endpoint.proxy_info) ∷ [])
    ∷ route "/vms/{name}/counters" ((get, Endpoint.proxy_counters) ∷ [])
    ∷ route "/vms/{name}/metrics" ((get, Endpoint.vm_metrics) ∷ [])
    ∷ []

-- What the extractors of a handler may take from a request.
pub record Extracted : Type 0 where
  pub name : String
  pub payload : BootConfig
  pub dest_path : String

pub data Answer (R F : Type 0) : Type 0 where
  health : HealthResponse → Answer R F
  host : HostMetrics F → Answer R F
  list : ListResponse → Answer R F
  vm : VmRuntime → Answer R F
  done : OkResponse → Answer R F
  passed : R → Answer R F
  metrics : VmMetricsResponse → Answer R F

module _ {S R F : Type 0} (pool : PoolFacade S) (world : World S) (web : Web R)
    (host : Host F) where
  abbrev into : {A : Type 0} → (A → Answer R F) → Serve S A → Serve S (Answer R F)
  into wrap call = call >>= λ a. give (wrap a)

  unfoldable pub handler : Endpoint → Extracted → Serve S (Answer R F)
  handler Endpoint.health x = into Answer.health (Api.health pool world web)
  handler Endpoint.host_metrics x = into Answer.host (Api.host_metrics host)
  handler Endpoint.list_vms x = into Answer.list (Api.list_vms pool world web)
  handler Endpoint.create_vm x = into Answer.vm (Api.create_vm pool world web x.payload)
  handler Endpoint.get_vm x = into Answer.vm (Api.get_vm pool world web x.name)
  handler Endpoint.delete_vm x = into Answer.done (Api.delete_vm pool world web x.name)
  handler Endpoint.reboot_vm x = into Answer.done (Api.reboot_vm pool world web x.name)
  handler Endpoint.pause_vm x = into Answer.done (Api.pause_vm pool world web x.name)
  handler Endpoint.resume_vm x = into Answer.done (Api.resume_vm pool world web x.name)
  handler Endpoint.snapshot_vm x =
      into Answer.done (Api.snapshot_vm pool world web x.name x.dest_path)
  handler Endpoint.proxy_info x = into Answer.passed (Api.proxy_info pool world web x.name)
  handler Endpoint.proxy_counters x = into Answer.passed (Api.proxy_counters pool world web x.name)
  handler Endpoint.vm_metrics x = into Answer.metrics (Api.vm_metrics pool world web x.name)

abbrev is_verb : Verb → Verb → Bool
is_verb get get = true
is_verb post post = true
is_verb put put = true
is_verb delete delete = true
is_verb _ _ = false

abbrev with_verb : Verb → List (Verb × Endpoint) → List Endpoint
with_verb verb [] = []
with_verb verb ((v, endpoint) ∷ methods) =
    let rest = with_verb verb methods in if is_verb v verb then endpoint ∷ rest else rest

-- The endpoints of the table for a method.
abbrev pub endpoints : Verb → List Route → List Endpoint
endpoints verb [] = []
endpoints verb (r ∷ routes) = with_verb verb r.methods ++ endpoints verb routes
