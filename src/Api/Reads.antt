-- ===== src/Api/Reads.antt =====
-- The endpoints that answer to GET only read.
use croutond.Base.{ℕ, String, not, Option, none, some, is_some, List, [], All, Result}
use croutond.Calls.{◌>>=◌, give, lift}
use croutond.Calls.Keeps.{
  Keeps, Keeps-bind, Keeps-give, Keeps-raise, Keeps-lift, Keeps-if, Keeps-converted,
}
use croutond.Types.{ProxyResponse, SlotStatus, VmRuntime, state_eq, occupied}
use croutond.ChClient.{get}
use croutond.Error.{ApiError, from_pool_error}
use croutond.Facade.{PoolFacade}
use croutond.HostMetrics.{Host}
use croutond.Service.{World, Serve, expect_running, find_running, proxy_passthrough_by_name}
use croutond.Api.{Web, health, host_metrics, list_vms, get_vm, vm_metrics, reply_or_not_running}
use croutond.Api.Router.{Verb, Extracted, router, endpoints, handler}

-- The calls of the pool that only read keep `P`, and what happens while the lock is not held does.
pub record ReadsKeep {S : Type 0} (pool : PoolFacade S) (world : World S) (P : S → Type 0)
    : Type 0 where
  pub unlocked : (s : S) → P s → P (world.unlocked s)
  pub usage : Keeps P pool.pool_usage_counts
  pub runtimes : Keeps P pool.list_runtimes
  pub runtime : (name : String) → Keeps P (pool.find_runtime_by_name name)
  pub slot : (name : String) → Keeps P (pool.find_slot_by_name name)
  pub request :
      (slot : ℕ) (path : String) (body : List ℕ) → Keeps P (pool.request slot get path body)

module _ {S R F : Type 0} (pool : PoolFacade S) (world : World S) (web : Web R) (host : Host F)
    (P : S → Type 0) (reads : ReadsKeep pool world P) where
  find_running-Keeps : (name : String) → Keeps P (find_running pool world name)
  unfolding find_running expect_running
  find_running-Keeps name =
      Keeps-bind _ _ (Keeps-converted from_pool_error _ (reads.slot name)) λ found. expected found
    where
      expected : (found : Option SlotStatus) → Keeps P (expect_running pool world name found)
      expected none = Keeps-raise _
      expected (some s) =
          Keeps-if (not (state_eq s.state occupied)) _ _ (Keeps-raise _) (Keeps-give s)

  passthrough-Keeps :
      (name path : String) → Keeps P (proxy_passthrough_by_name pool world name path)
  unfolding proxy_passthrough_by_name
  passthrough-Keeps name path =
      Keeps-bind _ _ (find_running-Keeps name)
        λ s. Keeps-converted from_pool_error _ (reads.request s.slot path [])

  health-Keeps : Keeps P (health pool world web)
  unfolding health
  health-Keeps =
      Keeps-bind _ _ (Keeps-converted from_pool_error _ reads.usage)
        λ counts. record { at = λ s h. h }

  list_vms-Keeps : Keeps P (list_vms pool world web)
  unfolding list_vms
  list_vms-Keeps =
      Keeps-bind _ _ (Keeps-converted from_pool_error _ reads.runtimes) λ vms. Keeps-give _

  get_vm-Keeps : (name : String) → Keeps P (get_vm pool world web name)
  unfolding get_vm
  get_vm-Keeps name =
      Keeps-bind _ _ (Keeps-converted from_pool_error _ (reads.runtime name)) λ found. reply found
    where
      reply : (found : Option VmRuntime) → Keeps P (reply_or_not_running pool world web name found)
      reply (some runtime) = Keeps-give runtime
      reply none =
          Keeps-bind _ _ (Keeps-converted from_pool_error _ (reads.slot name))
            λ found. Keeps-if (is_some found) _ _ (Keeps-raise _) (Keeps-raise _)

  proxied-Keeps :
      {A : Type 0} (name path : String) (f : ProxyResponse → Result ApiError A)
      → Keeps P (proxy_passthrough_by_name pool world name path >>= λ response. lift (f response))
  proxied-Keeps name path f =
      Keeps-bind _ _ (passthrough-Keeps name path) λ response. Keeps-lift (f response)

  vm_metrics-Keeps : (name : String) → Keeps P (vm_metrics pool world web name)
  unfolding vm_metrics
  vm_metrics-Keeps name =
      Keeps-bind _ _ (Keeps-converted from_pool_error _ (reads.runtime name)) λ found.
        Keeps-bind _ _ (Keeps-lift _) λ runtime.
          Keeps-bind _ _ (record { at = reads.unlocked })
            λ _. Keeps-bind _ _ (passthrough-Keeps name "/api/v1/vm.counters") λ response.
              Keeps-bind _ _ (Keeps-lift _)
                λ counters. Keeps-bind _ _ (Keeps-lift _) λ process. Keeps-give _

  -- The handlers that the table has for GET keep whatever the reading calls of the pool keep.
  pub gets_keep :
      (x : Extracted)
      → All (λ e. Keeps P (handler pool world web host e x)) (endpoints Verb.get router)
  unfolding handler host_metrics
  gets_keep x = (
    answered _ _ health-Keeps,
    (
      answered _ _ (Keeps-lift _),
      (
        answered _ _ list_vms-Keeps,
        (
          answered _ _ (get_vm-Keeps x.name),
          (
            answered _ _ (proxied-Keeps x.name "/api/v1/vm.info" _),
            (
              answered _ _ (proxied-Keeps x.name "/api/v1/vm.counters" _),
              (answered _ _ (vm_metrics-Keeps x.name), tt),
            ),
          ),
        ),
      ),
    ),
  )
    where
      answered :
          {A B : Type 0} (m : Serve S A) (f : A → B) → Keeps P m → Keeps P (m >>= λ a. give (f a))
      answered m f k = Keeps-bind _ _ k λ a. Keeps-give _
