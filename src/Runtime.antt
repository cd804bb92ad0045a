-- ===== src/Runtime.antt =====
-- The two views of a slot's status as a running VM: `runtime_from_slot_status` of src/pool.rs and
-- `TryFrom<&SlotStatus> for VmRuntime` of src/service.rs.
use croutond.Base.{
  ◌≡◌, ◌↔◌, not, Option, none, some, if◌then◌else◌, Result, ok, err, ok_or, ◌>>=◌, arith,
}
use croutond.Types.{
  VmRuntime, occupied, SlotStatus, PoolError, invalid_transition, backend, state_eq, running,
}

-- `status.name.clone()?` and its like.
abbrev field {ℓ κ} : {A : Type ℓ} {B : Type κ} → Option A → (A → Option B) → Option B
field none f = none
field (some a) f = f a

unfoldable pub runtime_from_slot_status : SlotStatus → Option VmRuntime
runtime_from_slot_status s =
    if not (state_eq s.state occupied)
    then none
    else field s.name λ name. field s.mac λ mac. field s.tap λ tap. field s.pid λ pid.
      field s.started_at λ started_at. some (record {
        name = name;
        mac = mac;
        tap = tap;
        pid = pid;
        state = running;
        started_at = started_at;
      })

unfoldable pub try_from : SlotStatus → Result PoolError VmRuntime
try_from s =
    if not (state_eq s.state occupied)
    then err (invalid_transition s.slot s.state "convert_runtime")
    else do
      name ← ok_or s.name (backend "missing VM name")
      mac ← ok_or s.mac (backend "missing MAC address")
      tap ← ok_or s.tap (backend "missing tap device")
      pid ← ok_or s.pid (backend "missing pid")
      started_at ← ok_or s.started_at (backend "missing started_at")
      ok (record {
        name = name;
        mac = mac;
        tap = tap;
        pid = pid;
        state = running;
        started_at = started_at;
      })

-- The conversion for a reply and the filter for a list agree: one succeeds exactly when the other
-- does, with the same runtime.
pub try_from-runtime_from_slot_status :
    (s : SlotStatus) (r : VmRuntime) → (try_from s ≡ ok r) ↔ (runtime_from_slot_status s ≡ some r)
unfolding try_from runtime_from_slot_status
try_from-runtime_from_slot_status s r = ground arith
