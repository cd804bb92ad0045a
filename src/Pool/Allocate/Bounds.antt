-- ===== src/Pool/Allocate/Bounds.antt =====
-- The number of slots stays between the two bounds.
use croutond.Base.{ℕ, suc, zero, ◌≤◌, String, ◌≡◌, false, leb, arith}
use croutond.Slot.{SlotCommand}
use croutond.Pool.{ProcessPool, Env, size, push_slots, allocate_vm_slot}
use croutond.Pool.Keeps.{AskKeeps}
use croutond.Pool.Size.{ask-frame-Keeps, size-push_slots}
use croutond.Pool.Allocate.{allocate_vm_slot-Keeps}

abbrev pub IsBounded : ProcessPool → Type 0
IsBounded p = (p.min_pool_size ≤ size p) × (size p ≤ p.max_pool_size)

pub ask-IsBounded : (env : Env) (command : SlotCommand) → AskKeeps env IsBounded command
ask-IsBounded env command = ask-frame-Keeps env IsBounded command λ p q same h. ground arith

pub push_slots_bounds :
    (n : ℕ) (p : ProcessPool)
    → ((push_slots n p).max_pool_size ≡ p.max_pool_size)
      × ((push_slots n p).min_pool_size ≡ p.min_pool_size)
unfolding push_slots
push_slots_bounds zero p = ground arith
push_slots_bounds (suc n) p = push_slots_bounds n _

pub push_slots-IsBounded :
    (p : ProcessPool)
    → leb p.max_pool_size (size p) ≡ false
    → IsBounded p
    → IsBounded (push_slots 1 p)
push_slots-IsBounded p below h = ground (arith, size-push_slots 1 p, push_slots_bounds 1 p)

-- Allocating a slot keeps the number of slots between the two bounds of the pool, however it ends and
-- whatever the workers do meanwhile.
pub allocate_vm_slot-IsBounded :
    (env : Env) (name mac : String) (p : ProcessPool)
    → IsBounded p
    → IsBounded (allocate_vm_slot env name mac p).1
allocate_vm_slot-IsBounded env name mac p h =
    (allocate_vm_slot-Keeps env IsBounded (ask-IsBounded env) push_slots-IsBounded name mac).at p h
