-- ===== src/Pool/Keeps.antt =====
-- Invariants of the pool's calls: a predicate that every question to a worker keeps is kept by the
-- calls that are made of such questions.
pub use croutond.Calls.Keeps.{
  Keeps, Keeps-bind, Keeps-give, Keeps-after, Leads, Leads-bind, Leads-after,
}
use croutond.Base.{
  refl, ◌≡◌, ◌⊎◌, inl, inr, get_elem?, set, Option-cases, ℕ, zero, suc, [], ◌∷◌, String, List, set,
  get_elem?, some, none,
}
use croutond.Slot.{SlotCommand, get_vm_status}
use croutond.Pool.{
  ProcessPool, Env, raised, size, ask, pass_time, pass_slots, deliver, get_vm_slot_status,
  statuses_from, list_vm_slots, pool_usage, list_running_vms, find_vm_runtime_by_name,
  find_vm_slot_status_by_name, log_pool_occupancy, command_vm_slot, SlotHandle, slot_not_found,
}

module _ (env : Env) (P : ProcessPool → Type 0) where
  abbrev pub AskKeeps : SlotCommand → Type 0
  AskKeeps command = (slot : ℕ) → Keeps P (ask env slot command)

module _ (env : Env) (P : ProcessPool → Type 0) (query : AskKeeps env P get_vm_status) where
  pub statuses_from-Keeps : (n slot : ℕ) → Keeps P (statuses_from env n slot)
  unfolding statuses_from get_vm_slot_status
  statuses_from-Keeps zero slot = Keeps-give []
  statuses_from-Keeps (suc n) slot =
      Keeps-bind _ _ (query slot)
        λ s. Keeps-bind _ _ (statuses_from-Keeps n (suc slot)) λ rest. Keeps-give (s ∷ rest)

  pub list_vm_slots-Keeps : Keeps P (list_vm_slots env)
  unfolding list_vm_slots
  list_vm_slots-Keeps = record { at = λ p h. (statuses_from-Keeps (size p) 0).at p h }

  pub find_vm_slot_status_by_name-Keeps :
      (name : String) → Keeps P (find_vm_slot_status_by_name env name)
  unfolding find_vm_slot_status_by_name
  find_vm_slot_status_by_name-Keeps name =
      Keeps-bind _ _ list_vm_slots-Keeps λ statuses. Keeps-give _

  pub pool_usage-Keeps : Keeps P (pool_usage env)
  unfolding pool_usage
  pool_usage-Keeps = Keeps-bind _ _ list_vm_slots-Keeps λ statuses. Keeps-give _

  pub list_running_vms-Keeps : Keeps P (list_running_vms env)
  unfolding list_running_vms
  list_running_vms-Keeps = Keeps-bind _ _ list_vm_slots-Keeps λ statuses. Keeps-give _

  pub find_vm_runtime_by_name-Keeps : (name : String) → Keeps P (find_vm_runtime_by_name env name)
  unfolding find_vm_runtime_by_name
  find_vm_runtime_by_name-Keeps name =
      Keeps-bind _ _ list_running_vms-Keeps λ runtimes. Keeps-give _

  pub log_pool_occupancy-Keeps : Keeps P (log_pool_occupancy env)
  unfolding log_pool_occupancy
  log_pool_occupancy-Keeps = record { at = λ p h. list_vm_slots-Keeps.at p h }

  pub command_vm_slot-Keeps :
      (command : SlotCommand) (slot : ℕ)
      → AskKeeps env P command
      → Keeps P (command_vm_slot env command slot)
  unfolding command_vm_slot
  command_vm_slot-Keeps command slot k =
      Keeps-bind _ _ (k slot) λ s. Keeps-bind _ _ log_pool_occupancy-Keeps λ _. Keeps-give s

-- The slots after a command has been handled at one of them.
abbrev pub sent : Env → ℕ → ℕ → SlotCommand → SlotHandle → List SlotHandle → List SlotHandle
sent env time slot command h hs =
    set hs slot (record h { phase = (deliver (env.os time) command h.config h.phase).1 })

-- A question to a slot that is there.
pub ask_found :
    (env : Env) (slot : ℕ) (command : SlotCommand) (p : ProcessPool) (h : SlotHandle)
    → get_elem? (pass_time env p).slots slot ≡ some h
    → ask env slot command p ≡ (
      (deliver (env.os p.time) command h.config h.phase).0,
      record (pass_time env p) { slots = sent env p.time slot command h (pass_time env p).slots },
    )
unfolding ask
ask_found env slot command p h e = rw (e, ask) refl

pub ask_missing :
    (env : Env) (slot : ℕ) (command : SlotCommand) (p : ProcessPool)
    → get_elem? (pass_time env p).slots slot ≡ none
    → ask env slot command p ≡ (raised (slot_not_found slot), p)
unfolding ask
ask_missing env slot command p e = rw (e, ask) refl

-- A question to a worker keeps what the passing of time and the handling of the command keep.
pub ask-Keeps :
    (env : Env) (P : List SlotHandle → Type 0) (command : SlotCommand)
    → ((time : ℕ) (hs : List SlotHandle) → P hs → P (pass_slots (env.background time) 0 hs))
    → ((time : ℕ) (hs : List SlotHandle) (slot : ℕ) (h : SlotHandle)
        → P hs
        → get_elem? hs slot ≡ some h
        → P (sent env time slot command h hs))
    → AskKeeps env (λ p. P p.slots) command
unfolding pass_time
ask-Keeps env P command pass send slot = record { at = λ p k. go p k (Option-cases _) }
  where
    go :
        (p : ProcessPool)
        → P p.slots
        → (get_elem? (pass_time env p).slots slot ≡ none)
          ⊎ ((h : SlotHandle) × (get_elem? (pass_time env p).slots slot ≡ some h))
        → P (ask env slot command p).1.slots
    go p k (inl e) = rw (ask_missing env slot command p e) k
    go p k (inr (h, e)) =
        rw (ask_found env slot command p h e) (send p.time _ slot h (pass p.time p.slots k) e)
