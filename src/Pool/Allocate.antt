-- ===== src/Pool/Allocate.antt =====
-- src/pool.rs: what `allocate_vm_slot` and `autoscale_tick` keep, whatever else happens meanwhile.
pub mod Bounds
pub mod Total
pub mod History
pub mod Names
use croutond.Base.{
  ℕ, zero, suc, String, ◌≡◌, true, false, some, none, find, leb, is_some, Bool-cases, Option-cases,
  inl, inr, List, Option, Bool, ◌⊎◌,
}
use croutond.Types.{SlotStatus, empty, no_available_slot, vm_already_running}
use croutond.Slot.{SlotCommand, reserve_vm, get_vm_status}
use croutond.Pool.{
  ProcessPool, Env, ask, PoolCall, ◌>>=◌, ◌>>◌, raise, hang, size, is_in, list_vm_slots, push_slots,
  extend, reserve_vm_slot, allocate_loop, allocate_step, allocate_unless, allocate_vm_slot,
  tap_name, command_vm_slot,
}
use croutond.Pool.Keeps.{
  Keeps, AskKeeps, Keeps-bind, Keeps-give, Keeps-after, Leads, Leads-bind, Leads-after,
  list_vm_slots-Keeps, log_pool_occupancy-Keeps, command_vm_slot-Keeps,
  find_vm_slot_status_by_name-Keeps,
}

-- `Q` is what a reservation leaves of `P`.
module _ (env : Env) (P Q : ProcessPool → Type 0) (weaken : (p : ProcessPool) → P p → Q p)
    (query : AskKeeps env P get_vm_status) (query_after : AskKeeps env Q get_vm_status)
    (grow : (p : ProcessPool)
      → leb p.max_pool_size (size p) ≡ false
      → P p
      → P (push_slots 1 p)) where
  extend_below :
      (p : ProcessPool) → leb p.max_pool_size (size p) ≡ false → P p → P (extend env 1 p).1
  unfolding extend
  extend_below p below h = (log_pool_occupancy-Keeps env P query).at _ (grow p below h)

  module _ (name mac : String)
      (reserve : (tap : String) (slot : ℕ) (p : ProcessPool)
        → P p
        → Q (ask env slot (reserve_vm name mac tap) p).1) where
    reserve_vm_slot-Leads :
        (slot : ℕ) (tap : String) → Leads P Q (reserve_vm_slot env slot name mac tap)
    unfolding reserve_vm_slot command_vm_slot
    reserve_vm_slot-Leads slot tap = record {
      at = λ p h.
          Keeps-after (ask env slot (reserve_vm name mac tap)) _
            (λ s. Keeps-bind _ _ (log_pool_occupancy-Keeps env Q query_after) λ _. Keeps-give s) p
            (reserve tap slot p h);
    }

    allocate_step-Leads :
        (found : Option SlotStatus) (again : PoolCall SlotStatus)
        → Leads P Q again
        → Leads P Q (allocate_step env found again name mac)
    unfolding allocate_step
    allocate_step-Leads (some s) again k = record {
      at = λ p h. (reserve_vm_slot-Leads s.slot (tap_name env s.slot)).at p h;
    }
    allocate_step-Leads none again k = record { at = λ p h. go p h (Bool-cases _) }
      where
        go :
            (p : ProcessPool)
            → P p
            → (leb p.max_pool_size (size p) ≡ true) ⊎ (leb p.max_pool_size (size p) ≡ false)
            → Q (allocate_step env none again name mac p).1
        go p h (inl full) = rw (full, allocate_step) (weaken p h)
        go p h (inr below) =
            rw (below, allocate_step)
              (Leads-after (extend env 1) again weaken k p (extend_below p below h))

    allocate_loop-Leads : (fuel : ℕ) → Leads P Q (allocate_loop env fuel name mac)
    unfolding allocate_loop
    allocate_loop-Leads zero = record { at = weaken }
    allocate_loop-Leads (suc fuel) =
        Leads-bind _ _ weaken (list_vm_slots-Keeps env P query)
          λ statuses. allocate_step-Leads _ _ (allocate_loop-Leads fuel)

    pub allocate_unless-Leads : (taken : Bool) → Leads P Q (allocate_unless env taken name mac)
    unfolding allocate_unless
    allocate_unless-Leads true = record { at = weaken }
    allocate_unless-Leads false = record {
      at = λ p h. (allocate_loop-Leads (suc p.max_pool_size)).at p h;
    }

    pub allocate_vm_slot-Leads : Leads P Q (allocate_vm_slot env name mac)
    unfolding allocate_vm_slot
    allocate_vm_slot-Leads =
        Leads-bind _ _ weaken (find_vm_slot_status_by_name-Keeps env P query name)
          λ found. allocate_unless-Leads (is_some found)

-- An invariant that every question and every new slot keeps is kept by an allocation.
pub allocate_vm_slot-Keeps :
    (env : Env) (P : ProcessPool → Type 0)
    → ((command : SlotCommand) → AskKeeps env P command)
    → ((p : ProcessPool) → leb p.max_pool_size (size p) ≡ false → P p → P (push_slots 1 p))
    → (name mac : String) → Keeps P (allocate_vm_slot env name mac)
allocate_vm_slot-Keeps env P kept grow name mac = record {
  at = λ p h.
      (allocate_vm_slot-Leads env P P (λ p h. h) (kept get_vm_status) (kept get_vm_status) grow name
          mac (λ tap slot q k. (kept (reserve_vm name mac tap) slot).at q k)).at
        p h;
}
