-- ===== src/Pool.antt =====
-- src/pool.rs: the process pool. The methods are calls over the pool's state; `Env` says what
-- happens elsewhere while a call waits.
pub mod Keeps
pub mod Size
pub mod Invariant
pub mod Scale
pub mod Names
pub mod Allocate
pub mod Quiet
pub mod Occupancy
pub mod Warm
pub use croutond.Calls.{Outcome, returned, raised, pending, Call, continue, ◌>>◌, give, raise, hang}
unfoldable pub use croutond.Calls.{◌>>=◌}
use croutond.Base.{
  ℕ, suc, zero, ◌+◌, ◌-◌, String, ◌≡◌, Bool, true, false, not, ◌&&◌, Option, none, some, is_some,
  List, [], ◌∷◌, ◌++◌, length, get_elem?, set, find, count_if, init, ltb, leb, if◌then◌else◌,
  Result, ok, err, str_eq,
}
use croutond.Base.Text.{◌+++◌}
use croutond.Base.Text.Decimal.{decimal}
use croutond.Types.{
  VmRuntime, SlotState, empty, occupied, SlotStatus, PoolError, slot_not_found, vm_already_running,
  no_available_slot, channel_closed, backend, ProxyResponse, state_eq, running,
}
use croutond.Runtime.{runtime_from_slot_status}
use mathlib.Core.List.{filter_map}
use croutond.ChClient.{Http, Method, send_unix_http_request}
use croutond.Slot.{
  SlotCommand, reserve_vm, mark_vm_booted, release_vm, reset_vm, get_vm_status, Reply, status,
  result, Os, handle_command,
}
use croutond.Slot.Worker.{Config, Phase, live, stopped, Round}
use croutond.Slot.Micro.{Micro, advance}
use croutond.Slot.Handle.{SlotHandle, socket_path, initialize_slot, worker_ends}

-- `time` counts the waits of all calls so far: it tells the waits apart in `Env`.
pub record ProcessPool : Type 0 where
  pub shutdown_tx : Bool
  pub slots : List SlotHandle
  pub vm_path : String
  pub program : String
  pub args : List String
  pub bridge : Option String
  pub min_pool_size : ℕ
  pub max_pool_size : ℕ
  pub scale_down_cooldown : ℕ
  pub last_scale_down_at : Option ℕ
  pub time : ℕ

-- At each wait: the steps that each worker takes before it reads the command (those for commands of
-- other tasks included), the answers of the operating system to it, the clock, the rounds that a
-- worker runs while its end is awaited, and the VMs' control sockets.
pub record Env : Type 0 where
  pub background : ℕ → ℕ → List Micro
  pub os : ℕ → Os
  pub clock : ℕ → ℕ
  pub rounds : ℕ → List Round
  pub http : ℕ → Http

abbrev pub PoolCall {ℓ} : Type ℓ → Type ℓ
PoolCall A = Call ProcessPool PoolError A

abbrev reply_outcome : Reply → Outcome PoolError SlotStatus
reply_outcome (status s) = returned s
reply_outcome (result (ok s)) = returned s
reply_outcome (result (err e)) = raised e

-- A snapshot that fails is logged as a failure.
abbrev pub logged : Outcome PoolError (List SlotStatus) → Outcome PoolError (Unit {0})
logged (returned statuses) = returned tt
logged (raised error) = returned tt
logged pending = pending

abbrev pub size : ProcessPool → ℕ
size p = length p.slots

abbrev pub vm_socket_path : ProcessPool → ℕ → String
vm_socket_path p slot = socket_path p.vm_path slot

-- `status.name.as_deref() == Some(name)`
abbrev pub is_named : String → SlotStatus → Bool
is_named name s = elim s.name [ none ↦ false | some n ↦ str_eq n name ]

abbrev pub is_in : SlotState → SlotStatus → Bool
is_in state s = state_eq s.state state

-- The other tasks go on while a call waits.
abbrev pub pass_slots : (ℕ → List Micro) → ℕ → List SlotHandle → List SlotHandle
pass_slots background i [] = []
pass_slots background i (h ∷ hs) =
    record h { phase = advance h.config (background i) h.phase } ∷ pass_slots background (suc i) hs

-- A worker that has ended has dropped its receiver.
unfoldable pub deliver : Os → SlotCommand → Config → Phase → Outcome PoolError SlotStatus × Phase
deliver os command c (stopped rt) = (raised channel_closed, stopped rt)
deliver os command c (live rt) =
    let (rt', reply, effects) = handle_command c.bridge c.api_socket os command rt in
    (reply_outcome reply, live rt')

abbrev push_slot : ProcessPool → ProcessPool
push_slot p = record p {
  slots = p.slots ++ initialize_slot (size p) p.program p.args p.bridge p.vm_path ∷ [];
}

-- `for slot in current_size..new_size`
unfoldable pub push_slots : ℕ → ProcessPool → ProcessPool
push_slots zero p = p
push_slots (suc n) p = push_slots n (push_slot p)

module _ (env : Env) where
  unfoldable pub pass_time : ProcessPool → ProcessPool
  pass_time p = record p { slots = pass_slots (env.background p.time) 0 p.slots; time = suc p.time }

  -- `self.slots.get(slot)`, `tx.send(…)` and `rx.await`.
  unfoldable pub ask : ℕ → SlotCommand → PoolCall SlotStatus
  ask slot command p =
      let p' = pass_time p in
      elim (get_elem? p'.slots slot) [
        | none ↦ (raised (slot_not_found slot), p)
        | some h ↦
            let (outcome, phase) = deliver (env.os p.time) command h.config h.phase in
            (outcome, record p' { slots = set p'.slots slot (record h { phase = phase }) })
      ]

  unfoldable pub get_vm_slot_status : ℕ → PoolCall SlotStatus
  get_vm_slot_status slot = ask slot get_vm_status

  -- The statuses of `n` slots from `slot` on.
  unfoldable pub statuses_from : ℕ → ℕ → PoolCall (List SlotStatus)
  statuses_from zero slot = give []
  statuses_from (suc n) slot = do
    s ← get_vm_slot_status slot
    rest ← statuses_from n (suc slot)
    give (s ∷ rest)

  unfoldable pub list_vm_slots : PoolCall (List SlotStatus)
  list_vm_slots p = statuses_from (size p) 0 p

  -- `(used, idle)`
  unfoldable pub pool_usage : PoolCall (ℕ × ℕ)
  pool_usage = do
    statuses ← list_vm_slots
    let idle = count_if (is_in empty) statuses
    give (length statuses - idle, idle)

  unfoldable pub find_vm_slot_status_by_name : String → PoolCall (Option SlotStatus)
  find_vm_slot_status_by_name name = do
    statuses ← list_vm_slots
    give (find (is_named name) statuses)

  unfoldable pub list_running_vms : PoolCall (List VmRuntime)
  list_running_vms = do
    statuses ← list_vm_slots
    give (filter_map runtime_from_slot_status statuses)

  unfoldable pub find_vm_runtime_by_name : String → PoolCall (Option VmRuntime)
  find_vm_runtime_by_name name = do
    runtimes ← list_running_vms
    give (find (λ runtime. str_eq runtime.name name) runtimes)

  -- The exchange with the VM takes time, in which the workers go on.
  unfoldable pub proxy_vm_request_with_content_type :
      ℕ → Method → String → List ℕ → Option String → PoolCall ProxyResponse
  proxy_vm_request_with_content_type slot method path body content_type p =
      let sent =
        send_unix_http_request (env.http p.time) (vm_socket_path p slot) method path body
          content_type in
      (
        (elim sent [ ok response ↦ returned response | err error ↦ raised (backend error) ]),
        pass_time p,
      )

  unfoldable pub proxy_vm_request : ℕ → Method → String → List ℕ → PoolCall ProxyResponse
  proxy_vm_request slot method path body =
      proxy_vm_request_with_content_type slot method path body none

  -- The counts go to the log only; an error of the query is logged too.
  unfoldable pub log_pool_occupancy : PoolCall (Unit {0})
  log_pool_occupancy p = let (outcome, p') = list_vm_slots p in (logged outcome, p')

  -- The three commands that change a slot, each followed by the occupancy log.
  unfoldable pub command_vm_slot : SlotCommand → ℕ → PoolCall SlotStatus
  command_vm_slot command slot = do s ← ask slot command; log_pool_occupancy; give s

  unfoldable pub reserve_vm_slot : ℕ → String → String → String → PoolCall SlotStatus
  reserve_vm_slot slot name mac tap = command_vm_slot (reserve_vm name mac tap) slot

  unfoldable pub mark_vm_slot_booted : ℕ → String → PoolCall SlotStatus
  mark_vm_slot_booted slot started_at = command_vm_slot (mark_vm_booted started_at) slot

  unfoldable pub release_vm_slot : ℕ → PoolCall SlotStatus
  release_vm_slot = command_vm_slot release_vm

  unfoldable pub reset_vm_slot : ℕ → PoolCall SlotStatus
  reset_vm_slot = command_vm_slot reset_vm

  unfoldable pub extend : ℕ → PoolCall (Unit {0})
  extend additional_size p = log_pool_occupancy (push_slots additional_size p)

  abbrev pub tap_name : ℕ → String
  tap_name slot = "tap" +++ decimal slot

  -- The body of the `loop`; `again` is its next round.
  unfoldable pub allocate_step :
      Option SlotStatus → PoolCall SlotStatus → String → String → PoolCall SlotStatus
  allocate_step (some s) again name mac p = reserve_vm_slot s.slot name mac (tap_name s.slot) p
  allocate_step none again name mac p =
      if leb p.max_pool_size (size p) then raise no_available_slot p else (extend 1 >> again) p

  -- The `loop`, on fuel: without any left the call is pending.
  unfoldable pub allocate_loop : ℕ → String → String → PoolCall SlotStatus
  allocate_loop zero name mac = hang
  allocate_loop (suc fuel) name mac =
      let again = allocate_loop fuel name mac in
      list_vm_slots >>= λ statuses. allocate_step (find (is_in empty) statuses) again name mac

  -- Each round of the loop but the last adds a slot, so there are no more rounds than slots, and one.
  unfoldable pub allocate_unless : Bool → String → String → PoolCall SlotStatus
  allocate_unless true name mac p = raise (vm_already_running name) p
  allocate_unless false name mac p = allocate_loop (suc p.max_pool_size) name mac p

  unfoldable pub allocate_vm_slot : String → String → PoolCall SlotStatus
  allocate_vm_slot name mac = do
    found ← find_vm_slot_status_by_name name
    allocate_unless (is_some found) name mac
