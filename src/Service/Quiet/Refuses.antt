-- ===== src/Service/Quiet/Refuses.antt =====
-- Requests for a name that is in use, while nothing else goes on.
use croutond.Base.{ℕ, String, ◌≡◌, refl, ◌∙◌, ap, true, none, some, ok, if◌then◌else◌}
use croutond.Base.Text.{◌+++◌}
use croutond.Calls.{returned, raised, convert}
use croutond.Calls.Succeeds.{
  Succeeds-of, Succeeds-converted, Succeeds-lift, Succeeds-raises, raises-bind,
}
use croutond.Types.{SlotStatus, booting, vm_already_running}
use croutond.Error.{conflict, from_pool_error}
use croutond.Boot.{BootConfig}
use croutond.Boot.Validation.{validate_boot_config}
use croutond.Pool.{ProcessPool, Env, is_named, allocate_vm_slot}
use croutond.Pool.Quiet.{IsQuiet, view}
use croutond.Pool.Quiet.Spec.{MakesTaps}
use croutond.Pool.Quiet.Sole.{find-IsSole}
use croutond.Pool.Quiet.Taken.{IsTaken, find_vm_slot_status_by_name-IsTaken}
use croutond.Pool.Quiet.Allocates.{allocate_vm_slot_refines}
use croutond.Facade.{process_pool}
use croutond.Service.{World, expect_running, find_running, create_vm_with_pool, delete_vm_with_pool}
use croutond.Service.Mac.{mac_for_name}

module _ (env : Env) (world : World ProcessPool) (quiet : IsQuiet env) (taps : MakesTaps env)
    (name : String) where
  -- A second VM of a name that is in use is refused.
  pub create_refused :
      (payload : BootConfig) (slot : ℕ) (s : SlotStatus) (p : ProcessPool)
      → payload.name ≡ name
      → validate_boot_config payload ≡ ok tt
      → is_named name s ≡ true
      → IsTaken name slot s p
      → (create_vm_with_pool (process_pool env) world payload p).0
        ≡ raised (conflict ("VM '" +++ name +++ "' is already running"))
  unfolding create_vm_with_pool from_pool_error
  create_refused payload slot s p same valid named h =
      let mac = mac_for_name world.digest payload.name in
      let refuses = allocate_vm_slot_refines env name mac p quiet taps h.up in
      let taken =
        find-IsSole name (view p.slots) slot s h.sole h.here
        ∙ ap (λ b. if b then some s else none) named in
      let got : (allocate_vm_slot env name mac p).0 ≡ raised (vm_already_running name) =
        ap (λ x. x.0) refuses ∙ rw taken refl in
      Succeeds-raises
        (λ _ q. (allocate_vm_slot env name mac q).0 ≡ raised (vm_already_running name)) _ _ p _
        (Succeeds-lift _ _ tt p valid got)
        λ _ q refused. raises-bind _ _ q _ (
          ap (λ n. convert from_pool_error (allocate_vm_slot env n mac q).0) same
          ∙ ap (convert from_pool_error) refused)

  -- A VM whose slot is booting cannot be deleted.
  pub delete_refused :
      (slot : ℕ) (s : SlotStatus) (p : ProcessPool)
      → is_named name s ≡ true
      → s.state ≡ booting
      → IsTaken name slot s p
      → (delete_vm_with_pool (process_pool env) world name p).0
        ≡ raised (conflict ("VM '" +++ name +++ "' is not running"))
  unfolding delete_vm_with_pool find_running expect_running
  delete_refused slot s p named boots h =
      let (found, kept) = find_vm_slot_status_by_name-IsTaken env quiet name slot s p h in
      raises-bind _ _ p _ (
        Succeeds-raises (λ o _. o ≡ some s) _ _ p _
          (Succeeds-converted from_pool_error _ _ p (
            Succeeds-of _ _ (some s) p
              (found ∙ ap (λ b. returned (if b then some s else none)) named) refl))
          λ o q is. rw (is, boots) refl)
