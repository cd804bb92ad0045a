-- ===== src/Pool/Quiet/Spec.antt =====
-- What an allocation promises, on the list of the slots' statuses.
use croutond.Base.{
  ℕ, ◌+◌, ◌%◌, ◌^◌, String, ◌≡◌, Option, none, some, List, [], ◌∷◌, ◌++◌, set, find, length, leb,
  is_some, ok, if◌then◌else◌,
}
use croutond.Base.Text.{◌+++◌}
use croutond.Base.Text.Decimal.{decimal}
use croutond.Tap.{ensure_tap_device}
use croutond.Types.{SlotStatus, empty, booting, PoolError, vm_already_running, no_available_slot}
use croutond.Slot.Worker.{initial}
use croutond.Pool.{Env, Outcome, returned, raised, is_named, is_in}

-- The state of a slot that has just been reserved.
abbrev pub reservation : String → String → SlotStatus → SlotStatus
reservation name mac s = record s {
  generation = (s.generation + 1) % 2 ^ 64;
  state = booting;
  name = some name;
  mac = some mac;
  tap = some ("tap" +++ decimal s.slot);
  started_at = none;
  last_error = none;
}

-- The specification: what the call returns, and the statuses afterwards, from those before.
abbrev pub spec_reserve :
    ℕ
    → String
    → String
    → Option SlotStatus
    → List SlotStatus
    → Outcome PoolError SlotStatus × List SlotStatus
spec_reserve max name mac (some s) ss =
    (returned (reservation name mac s), set ss s.slot (reservation name mac s))
spec_reserve max name mac none ss =
    let new = reservation name mac (initial (length ss)).status in
    if leb max (length ss) then (raised no_available_slot, ss) else (returned new, ss ++ new ∷ [])

abbrev pub spec_allocate :
    ℕ → String → String → List SlotStatus → Outcome PoolError SlotStatus × List SlotStatus
spec_allocate max name mac ss =
    if is_some (find (is_named name) ss)
    then (raised (vm_already_running name), ss)
    else spec_reserve max name mac (find (is_in empty) ss) ss

-- TAP devices can be made and attached.
abbrev pub MakesTaps : Env → Type 0
MakesTaps env =
    (time : ℕ) (tap : String) (bridge : Option String)
    → ensure_tap_device (env.os time).net tap bridge ≡ ok tt
