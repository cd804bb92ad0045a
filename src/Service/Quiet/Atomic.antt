-- ===== src/Service/Quiet/Atomic.antt =====
-- Creating and deleting are atomic, whatever the VMs answer: a creation leaves a VM that runs, or its
-- name free; a deletion leaves the name free in any case.
use croutond.Base.{ℕ, String, ◌≡◌, refl, sym, ap, none, some, find, ok, subst, get_elem?}
use croutond.Calls.{returned}
use croutond.Calls.Succeeds.{
  Succeeds-give, Succeeds-lift, Succeeds-of, Succeeds-converted, Succeeds-bind,
}
use croutond.Calls.Settles.{Settles, Settles-weaken, Settles-success, Settles-bind}
use croutond.Types.{SlotStatus, empty, occupied}
use croutond.Error.{ApiError, from_pool_error, backend}
use croutond.Boot.{BootConfig}
use croutond.Boot.Validation.{validate_boot_config}
use croutond.Slot.{cleared}
use croutond.Pool.{ProcessPool, Env, is_named, is_in, allocate_vm_slot}
use croutond.Pool.Quiet.{IsUp, view}
use croutond.Pool.Quiet.Sole.{find-IsSole}
use croutond.Pool.Quiet.Taken.{IsTaken}
use croutond.Facade.{process_pool}
use croutond.Service.{World, create_vm_with_pool, remove_vm, delete_vm_with_pool}
use croutond.Service.Mac.{mac_for_name}
use croutond.Service.Quiet.{IsCalm}
use croutond.Service.Quiet.Steps.{StaysAt, IsCreated, reserved_for, occupy, reserve_succeeds}
use croutond.Service.Quiet.Deletes.{find_running_succeeds, release_succeeds}
use croutond.Service.Quiet.Settles.{HasFailed, demand_settles, occupy_settles}

-- A slot that has been cleared does not carry the name, so none does.
free_after :
    (name : String) (s : SlotStatus) (p : ProcessPool)
    → IsTaken name s.slot (cleared s) p
    → find (is_named name) (view p.slots) ≡ none
free_after name s p h = find-IsSole name (view p.slots) s.slot (cleared s) h.sole h.here

-- An error of the backend, after which no slot carries the name, and the slot is empty.
abbrev pub LeavesFree : String → SlotStatus → ApiError → ProcessPool → Type 0
LeavesFree name s e p =
    (text : String) × ((e ≡ backend text)
      × (find (is_named name) (view p.slots) ≡ none)
      × (get_elem? (view p.slots) s.slot ≡ some (cleared s)))

failed-LeavesFree :
    (name : String) (s : SlotStatus) (e : ApiError) (p : ProcessPool)
    → HasFailed name s e p
    → LeavesFree name s e p
failed-LeavesFree name s e p (text, (is, h)) = (text, (is, free_after name s p h, h.here))

module _ (env : Env) (world : World ProcessPool) (calm : IsCalm env world) where
  create_settles :
      (payload : BootConfig) (p : ProcessPool) (vacant : SlotStatus) (pid : ℕ)
      → IsUp p
      → validate_boot_config payload ≡ ok tt
      → find (is_named payload.name) (view p.slots) ≡ none
      → find (is_in empty) (view p.slots) ≡ some vacant
      → vacant.pid ≡ some pid
      → let s = reserved_for world payload vacant in
        Settles
          (create_vm_with_pool (process_pool env) world payload)
          p
          (IsCreated world payload s pid)
          (HasFailed payload.name s)
  unfolding create_vm_with_pool
  create_settles payload p vacant pid up valid free found has_pid =
      let mac = mac_for_name world.digest payload.name in
      let s = reserved_for world payload vacant in
      let Q = IsCreated world payload s pid in
      let R = HasFailed payload.name s in
      let allocate = allocate_vm_slot env payload.name mac in
      let Reserved =
        λ (t : SlotStatus) (q : ProcessPool). (t ≡ s) × IsTaken payload.name s.slot s q in
      Settles-bind
        (λ _ q. ((allocate q).0 ≡ returned s) × IsTaken payload.name s.slot s (allocate q).1) Q R _
        _ p
        (Settles-success _ R _ p (
          Succeeds-lift _ _ tt p valid
            (reserve_succeeds env calm.quiet calm.taps payload.name mac p vacant up free found)))
        λ _ p₁ (got, taken).
          Settles-bind Reserved Q R _ (occupy env world payload) p₁
            (Settles-success Reserved R _ p₁ (
              Succeeds-converted from_pool_error Reserved allocate p₁
                (Succeeds-of Reserved allocate s p₁ got (refl, taken))))
            λ t p₂ (is, h₂).
              subst (λ u. Settles (occupy env world payload u) p₂ Q R) (sym is)
                (occupy_settles env world calm payload.name mac s pid (refl, refl, refl, refl)
                  has_pid payload p₂ h₂)

  delete_settles :
      (name : String) (s : SlotStatus) (p : ProcessPool)
      → s.name ≡ some name
      → s.state ≡ occupied
      → IsTaken name s.slot s p
      → Settles
          (delete_vm_with_pool (process_pool env) world name)
          p
          (λ _ q. IsTaken name s.slot (cleared s) q)
          (HasFailed name s)
  unfolding delete_vm_with_pool remove_vm
  delete_settles name s p named runs h =
      let Q = λ (_ : Unit {0}) (q : ProcessPool). IsTaken name s.slot (cleared s) q in
      let R = HasFailed name s in
      let shut = demand_settles env world calm name s "/api/v1/vm.shutdown" in
      let delete = demand_settles env world calm name s "/api/v1/vm.delete" in
      Settles-bind _ Q R _ _ p
        (Settles-success _ R _ p
          (find_running_succeeds env world calm name s.slot s p named runs h))
        λ t p₁ (same, h₁).
          subst (λ i. Settles (remove_vm (process_pool env) world i) p₁ Q R)
            (sym (ap (λ x. x.slot) same))
            (Settles-bind (StaysAt name s) Q R _ _ p₁ (shut p₁ h₁) λ _ p₂ h₂.
              Settles-bind (StaysAt name s) Q R _ _ p₂ (delete p₂ h₂) λ _ p₃ h₃.
                Settles-success Q R _ p₃ (
                  Succeeds-bind _ Q _ _ p₃
                    (Succeeds-converted from_pool_error _ _ p₃
                      (release_succeeds env world calm name s.slot s p₃ runs h₃))
                    λ _ p₄ h₄. Succeeds-give Q tt p₄ h₄))

-- While nothing else goes on, devices can be made, control sockets can be connected and every
-- request to a VM is answered, with whatever status, a valid request for a free name, with a child
-- at the first empty slot, comes to an end, and in one of two ways: the VM of the reply runs at the
-- slot, or the error is one of the backend, no slot carries the name and the slot is empty.
pub create_vm_is_atomic :
    (env : Env) (world : World ProcessPool) (payload : BootConfig) (p : ProcessPool)
    (vacant : SlotStatus) (pid : ℕ)
    → IsCalm env world
    → IsUp p
    → validate_boot_config payload ≡ ok tt
    → find (is_named payload.name) (view p.slots) ≡ none
    → find (is_in empty) (view p.slots) ≡ some vacant
    → vacant.pid ≡ some pid
    → let s = reserved_for world payload vacant in
      Settles
        (create_vm_with_pool (process_pool env) world payload)
        p
        (IsCreated world payload s pid)
        (LeavesFree payload.name s)
create_vm_is_atomic env world payload p vacant pid calm up valid free found has_pid =
    let s = reserved_for world payload vacant in
    Settles-weaken _ _ (HasFailed payload.name s) _ _ p (λ r q h. h)
      (failed-LeavesFree payload.name s)
      (create_settles env world calm payload p vacant pid up valid free found has_pid)

-- While nothing else goes on, devices can be made, control sockets can be connected and every
-- request to a VM is answered, with whatever status, a request to delete the VM that runs at the
-- one slot with its name comes to an end, and after it no slot carries the name and the slot is
-- empty, be it with success or with an error of the backend.
pub delete_vm_frees :
    (env : Env) (world : World ProcessPool) (name : String) (s : SlotStatus) (p : ProcessPool)
    → IsCalm env world
    → s.name ≡ some name
    → s.state ≡ occupied
    → IsTaken name s.slot s p
    → Settles
        (delete_vm_with_pool (process_pool env) world name)
        p
        (λ _ q.
          (find (is_named name) (view q.slots) ≡ none)
          × (get_elem? (view q.slots) s.slot ≡ some (cleared s)))
        (LeavesFree name s)
delete_vm_frees env world name s p calm named runs h =
    Settles-weaken (λ _ q. IsTaken name s.slot (cleared s) q) _ (HasFailed name s) _ _ p
      (λ _ q h'. (free_after name s q h', h'.here)) (failed-LeavesFree name s)
      (delete_settles env world calm name s p named runs h)
