-- ===== src/Service.antt =====
-- src/service.rs: creating, deleting and driving VMs, over any implementation of the pool's
-- interface. Holding the pool's lock is running calls in a row; what other tasks do to the pool
-- while it is not held is `unlocked`.
pub mod Mac
pub mod Waits
pub mod Creates
pub mod Deletes
pub mod Frees
pub mod Quiet
use croutond.Base.{
  ℕ, zero, suc, String, Bool, not, ◌&&◌, Option, none, some, is_some, is_none, List, [], leb,
  if◌then◌else◌, Result, ok, err, ok_or, map_err,
}
use croutond.Base.Text.{◌+++◌}
use croutond.Base.Text.Decimal.{decimal}
use croutond.Calls.{
  Call, returned, raised, pending, ◌>>=◌, ◌>>◌, give, raise, hang, lift, converted,
}
use croutond.Types.{VmRuntime, occupied, SlotStatus, PoolError, ProxyResponse, state_eq}
use croutond.ChClient.{Method, get, put}
use croutond.Runtime.{try_from}
use croutond.Json.{Json, obj, end}
use croutond.Error.{ApiError, not_found, conflict, backend, from_pool_error}
use croutond.Boot.{BootConfig}
use croutond.Boot.Validation.{validate_boot_config}
use croutond.Boot.Payload.{
  create_vm_request_body, create_restore_request_body, format_backend_error,
}
use croutond.Facade.{PoolFacade}
use Mac.{mac_for_name}

-- `connects` is `UnixStream::connect(path).is_ok()`, `elapsed s k` the milliseconds since the wait
-- that began in state `s` when it has slept `k` times, `now` is `chrono::Utc::now().to_rfc3339()`,
-- `digest` SHA-256 by its bytes, `to_vec` serde_json's, and `decode` is `String::from_utf8_lossy`.
pub record World (S : Type 0) : Type 0 where
  pub unlocked : S → S
  pub connects : S → String → Bool
  pub elapsed : S → ℕ → ℕ
  pub now : S → String
  pub digest : String → ℕ → ℕ
  pub to_vec : Json → Result String (List ℕ)
  pub decode : List ℕ → String

abbrev pub Serve {ℓ} : Type 0 → Type ℓ → Type ℓ
Serve S A = Call S ApiError A

-- The rounds of a wait: it sleeps 50 ms in each, and gives up after 5 s.
abbrev pub max_rounds : ℕ
max_rounds = 101

module _ {S : Type 0} (pool : PoolFacade S) (world : World S) where
  -- `?` on a call of the pool.
  abbrev pub of_pool {ℓ} : {A : Type ℓ} → Call S PoolError A → Serve S A
  of_pool = converted from_pool_error

  abbrev pub unlock : Serve S (Unit {0})
  unlock s = (returned tt, world.unlocked s)

  abbrev pub is_ready : ℕ → SlotStatus → S → Bool
  is_ready slot status s =
      is_some status.pid && world.connects (world.unlocked s) (pool.slot_socket_path s slot)

  -- The body of the `loop` once the status has come; `again` is the next round.
  unfoldable pub wait_round : ℕ → S → ℕ → Serve S (Unit {0}) → SlotStatus → Serve S (Unit {0})
  wait_round slot start slept again status s =
      let s' = world.unlocked s in
      if is_ready slot status s
      then (returned tt, s')
      else if leb 5000 (world.elapsed start slept)
      then (raised (backend ("slot " +++ decimal slot +++ " did not become ready")), s')
      else again (world.unlocked s')

  -- The `loop`, from a start in state `start`, after `slept` rounds.
  unfoldable pub wait_loop : ℕ → ℕ → S → ℕ → Serve S (Unit {0})
  wait_loop zero slot start slept = hang
  wait_loop (suc fuel) slot start slept =
      let again = wait_loop fuel slot start (suc slept) in
      of_pool (pool.get_slot_status slot) >>= wait_round slot start slept again

  unfoldable pub wait_for_slot_ready : ℕ → Serve S (Unit {0})
  wait_for_slot_ready slot s = wait_loop max_rounds slot s 0 s

  -- `let _ = pool.reset_slot(slot).await`
  unfoldable pub cleanup_reserved_vm : ℕ → Serve S (Unit {0})
  cleanup_reserved_vm slot s =
      let (outcome, s') = pool.reset_slot slot s in
      (elim outcome [ pending ↦ pending | _ ↦ returned tt ], s')

  -- The lock is dropped, the slot reset, and the VM's answer returned as an error.
  unfoldable pub give_up {ℓ} : {A : Type ℓ} → ℕ → ProxyResponse → Serve S A
  give_up slot response = do
    unlock
    cleanup_reserved_vm slot
    raise (backend (format_backend_error world.decode response))

  abbrev pub refused : ProxyResponse → Bool
  refused response = leb 400 response.status

  abbrev pub send : ℕ → String → List ℕ → Option String → Serve S ProxyResponse
  send slot path body content_type =
      of_pool (pool.request_with_content_type slot put path body content_type)

  -- The body of the first request, and its path.
  abbrev pub create_body : BootConfig → SlotStatus → Json
  create_body payload reserved =
      if is_some payload.snapshot_path
      then create_restore_request_body payload
      else create_vm_request_body payload reserved

  abbrev pub create_path : BootConfig → String
  create_path payload =
      if is_some payload.snapshot_path then "/api/v1/vm.restore" else "/api/v1/vm.create"

  -- A request without a body, on whose refusal the slot is given up.
  unfoldable pub demand : ℕ → String → Serve S (Unit {0})
  demand slot path = do
    response ← send slot path [] none
    if refused response then give_up slot response else give tt

  -- `if payload.snapshot_path.is_none() { .. }`: a VM that was created is booted.
  abbrev pub boot : BootConfig → ℕ → Serve S (Unit {0})
  boot payload slot =
      if is_none payload.snapshot_path then demand slot "/api/v1/vm.boot" else give tt

  -- From the answer to the first request on.
  unfoldable pub finish_vm : BootConfig → ℕ → String → Serve S VmRuntime
  finish_vm payload slot started_at = do
    boot payload slot
    unlock
    wait_for_slot_ready slot
    status ← of_pool (pool.mark_slot_booted slot started_at)
    lift (map_err from_pool_error (try_from status))

  -- From the body of the first request on.
  unfoldable pub start_vm : BootConfig → SlotStatus → String → Serve S VmRuntime
  start_vm payload reserved started_at = do
    body ← lift (map_err backend (world.to_vec (create_body payload reserved)))
    response ← send reserved.slot (create_path payload) body (some "application/json")
    if refused response
        then give_up reserved.slot response
        else finish_vm payload reserved.slot started_at

  unfoldable pub create_vm_with_pool : BootConfig → Serve S VmRuntime
  create_vm_with_pool payload = do
    lift (validate_boot_config payload)
    reserved ← of_pool (pool.allocate_slot payload.name (mac_for_name world.digest payload.name))
    unlock
    wait_for_slot_ready reserved.slot
    λ s. start_vm payload reserved (world.now s) s

  -- What was found by a name must be there and be running.
  unfoldable pub expect_running : String → Option SlotStatus → Serve S SlotStatus
  expect_running name none = raise (not_found ("VM '" +++ name +++ "' not found"))
  expect_running name (some status) =
      if not (state_eq status.state occupied)
      then raise (conflict ("VM '" +++ name +++ "' is not running"))
      else give status

  -- The status of the running VM of a name: the steps that deleting and proxying begin with.
  unfoldable pub find_running : String → Serve S SlotStatus
  find_running name = of_pool (pool.find_slot_by_name name) >>= expect_running name

  -- From the first request to the VM on.
  unfoldable pub remove_vm : ℕ → Serve S (Unit {0})
  remove_vm slot = do
    demand slot "/api/v1/vm.shutdown"
    demand slot "/api/v1/vm.delete"
    of_pool (pool.release_slot slot)
    give tt

  unfoldable pub delete_vm_with_pool : String → Serve S (Unit {0})
  delete_vm_with_pool name = find_running name >>= λ status. remove_vm status.slot

  unfoldable pub proxy_action_by_name_with_body : String → String → Json → Serve S (Unit {0})
  proxy_action_by_name_with_body name path body = do
    status ← find_running name
    bytes ← lift (map_err backend (world.to_vec body))
    response ← send status.slot path bytes (some "application/json")
    if refused response
        then raise (backend (format_backend_error world.decode response))
        else give tt

  unfoldable pub proxy_action_by_name : String → String → Serve S (Unit {0})
  proxy_action_by_name name path = proxy_action_by_name_with_body name path (obj end)

  unfoldable pub proxy_passthrough_by_name : String → String → Serve S ProxyResponse
  proxy_passthrough_by_name name path = do
    status ← find_running name
    of_pool (pool.request status.slot get path [])
