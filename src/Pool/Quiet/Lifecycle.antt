-- ===== src/Pool/Quiet/Lifecycle.antt =====
-- The life of a VM in the pool: its name is found where it was reserved, it runs once it is marked as
-- booted, and it is gone after its slot is released.
use croutond.Base.{ℕ, String, ◌≡◌, refl, ◌∙◌, ap, true, none, some, if◌then◌else◌, eq_iff}
use croutond.Base.Text.{◌+++◌}
use croutond.Base.Text.Decimal.{decimal}
use croutond.Types.{SlotStatus, VmRuntime, running, booting, occupied}
use croutond.Slot.{handle_command, mark_vm_booted, release_vm, booted, cleared}
use croutond.Pool.{
  ProcessPool, Env, returned, deliver, is_named, find_vm_slot_status_by_name, allocate_vm_slot,
  find_vm_runtime_by_name, mark_vm_slot_booted, release_vm_slot,
}
use croutond.Pool.Quiet.{IsQuiet, IsUp}
use croutond.Pool.Quiet.Spec.{MakesTaps}
use croutond.Pool.Quiet.Places.{Takes}
use croutond.Runtime.{runtime_from_slot_status}
use croutond.Pool.Quiet.Reserved.{IsReserved}
use croutond.Pool.Quiet.Taken.{
  command-IsTaken, find_vm_slot_status_by_name-IsTaken, find_vm_runtime_by_name-IsTaken,
  allocate-IsTaken,
}

pub Takes-boot :
    (env : Env) (s : SlotStatus) (started_at : String)
    → s.state ≡ booting
    → Takes env (mark_vm_booted started_at) s (booted started_at s)
unfolding deliver handle_command
Takes-boot env s started_at e time c child = (child, rw e refl)

pub Takes-release :
    (env : Env) (s : SlotStatus) → s.state ≡ occupied → Takes env release_vm s (cleared s)
unfolding deliver handle_command
Takes-release env s e time c child = (none, rw e refl)

-- The runtime of a reserved slot once it is booted.
abbrev pub runtime_of : String → String → String → SlotStatus → ℕ → VmRuntime
runtime_of name mac started_at s pid = record {
  name = name;
  mac = mac;
  tap = "tap" +++ decimal s.slot;
  pid = pid;
  state = running;
  started_at = started_at;
}

pub booted_runs :
    (name mac started_at : String) (s : SlotStatus) (pid : ℕ)
    → IsReserved name mac s
    → s.pid ≡ some pid
    → runtime_from_slot_status (booted started_at s) ≡ some (runtime_of name mac started_at s pid)
unfolding runtime_from_slot_status
booted_runs name mac started_at s pid (_, n, m, t) e = rw (n, m, t, e) refl

-- With nothing else going on and devices that can be made, in a pool of valid slots whose workers
-- run, from an allocation that has returned a slot with a child: the name is found at the slot; the
-- slot can be marked as booted, and then the VM is found among the running ones, with its name, its
-- address, the slot's device and the child's pid; and after the slot is released, which it can be, the
-- name is not found any more.
pub vm_lives :
    (env : Env) (name mac started_at : String) (p q : ProcessPool) (s : SlotStatus) (pid : ℕ)
    → IsQuiet env
    → MakesTaps env
    → IsUp p
    → allocate_vm_slot env name mac p ≡ (returned s, q)
    → s.pid ≡ some pid
    → let q₁ = (mark_vm_slot_booted env s.slot started_at q).1 in
      let q₂ = (find_vm_runtime_by_name env name q₁).1 in
      let q₃ = (release_vm_slot env s.slot q₂).1 in
      ((find_vm_slot_status_by_name env name q).0 ≡ returned (some s))
      × ((mark_vm_slot_booted env s.slot started_at q).0 ≡ returned (booted started_at s))
      × ((find_vm_runtime_by_name env name q₁).0
          ≡ returned (some (runtime_of name mac started_at s pid)))
      × ((release_vm_slot env s.slot q₂).0 ≡ returned (cleared s))
      × ((find_vm_slot_status_by_name env name q₃).0 ≡ returned none)
unfolding mark_vm_slot_booted release_vm_slot
vm_lives env name mac started_at p q s pid quiet taps up e has_pid =
    let (taken, fields) = allocate-IsTaken env quiet name mac p q s taps up e in
    let named : is_named name s ≡ true = rw fields.1 ((eq_iff name name).1 refl) in
    let (booted_to, taken₁) =
      command-IsTaken env quiet name (mark_vm_booted started_at) s.slot s (booted started_at s) q
        taken (Takes-boot env s started_at fields.0) in
    let (found, taken₂) =
      find_vm_runtime_by_name-IsTaken env quiet name s.slot (booted started_at s)
        (runtime_of name mac started_at s pid) _ taken₁
        (booted_runs name mac started_at s pid fields has_pid) refl in
    let (released, taken₃) =
      command-IsTaken env quiet name release_vm s.slot (booted started_at s) (cleared s) _ taken₂
        (Takes-release env (booted started_at s) refl) in
    (
      (find_vm_slot_status_by_name-IsTaken env quiet name s.slot s q taken).0
          ∙ ap (λ b. returned (if b then some s else none)) named,
      booted_to,
      found,
      released,
      (find_vm_slot_status_by_name-IsTaken env quiet name s.slot (cleared s) _ taken₃).0,
    )
