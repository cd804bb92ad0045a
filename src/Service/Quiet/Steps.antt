-- ===== src/Service/Quiet/Steps.antt =====
-- The steps of a creation that succeed whether the VMs answer with errors or not.
use croutond.Base.{ℕ, String, ◌≡◌, refl, ◌∙◌, sym, ap, none, some, find, subst, map_err}
use croutond.Calls.{returned, lift, ◌>>=◌, ◌>>◌}
use croutond.Calls.Succeeds.{
  Succeeds, Succeeds-lift, Succeeds-of, Succeeds-converted, Succeeds-bind,
}
use croutond.Types.{SlotStatus, VmRuntime, empty}
use croutond.Error.{from_pool_error}
use croutond.Runtime.{try_from, try_from-runtime_from_slot_status}
use croutond.Boot.{BootConfig}
use croutond.Slot.{booted, mark_vm_booted}
use croutond.Pool.{ProcessPool, Env, is_named, is_in, mark_vm_slot_booted, allocate_vm_slot}
use croutond.Pool.Quiet.{IsQuiet, IsUp, view}
use croutond.Pool.Quiet.Spec.{MakesTaps, reservation}
use croutond.Pool.Quiet.Reserved.{IsReserved}
use croutond.Pool.Quiet.Taken.{IsTaken, command-IsTaken, allocate-IsTaken}
use croutond.Pool.Quiet.Allocates.{allocate_vm_slot_refines}
use croutond.Pool.Quiet.Lifecycle.{Takes-boot, booted_runs, runtime_of}
use croutond.Facade.{process_pool}
use croutond.Service.{World, Serve, of_pool, unlock, wait_for_slot_ready, start_vm}
use croutond.Service.Mac.{mac_for_name}
use croutond.Service.Quiet.{IsCalm, wait_succeeds}

-- The slot has the status `s`, with the name.
abbrev pub StaysAt : String → SlotStatus → {A : Type 0} → A → ProcessPool → Type 0
StaysAt name s a p = IsTaken name s.slot s p

-- The VM runs at the slot that had the status `s`, and the reply says so.
abbrev pub RunsAt : String → String → SlotStatus → ℕ → String → VmRuntime → ProcessPool → Type 0
RunsAt name mac s pid started_at r p =
    (r ≡ runtime_of name mac started_at s pid) × IsTaken name s.slot (booted started_at s) p

abbrev pub IsCreated :
    World ProcessPool → BootConfig → SlotStatus → ℕ → VmRuntime → ProcessPool → Type 0
IsCreated world payload s pid r q =
    (started_at : String) × RunsAt payload.name (mac_for_name world.digest payload.name) s pid
      started_at r q

-- The status that an empty slot has once it is reserved for the request.
abbrev pub reserved_for : World ProcessPool → BootConfig → SlotStatus → SlotStatus
reserved_for world payload = reservation payload.name (mac_for_name world.digest payload.name)

-- What a creation does from the reserved slot on.
abbrev pub occupy : Env → World ProcessPool → BootConfig → SlotStatus → Serve ProcessPool VmRuntime
occupy env world payload s = do
  unlock (process_pool env) world
  wait_for_slot_ready (process_pool env) world s.slot
  λ q. start_vm (process_pool env) world payload s (world.now q) q

-- What a creation does once the requests have been answered.
abbrev pub mark_ready : Env → World ProcessPool → ℕ → String → Serve ProcessPool VmRuntime
mark_ready env world slot started_at = do
  unlock (process_pool env) world
  wait_for_slot_ready (process_pool env) world slot
  status ← of_pool (process_pool env) world (mark_vm_slot_booted env slot started_at)
  lift (map_err from_pool_error (try_from status))

module _ (env : Env) (world : World ProcessPool) (calm : IsCalm env world) where
  pub unlock_succeeds :
      (name : String) (s : SlotStatus) (p : ProcessPool)
      → IsTaken name s.slot s p
      → Succeeds (unlock (process_pool env) world) p (StaysAt name s)
  unlock_succeeds name s p h = record {
    value = tt;
    end = world.unlocked p;
    runs = refl;
    holds = subst (IsTaken name s.slot s) (sym (calm.unlocked p)) h;
  }

  module _ (name mac : String) (s : SlotStatus) (pid : ℕ) (is_reserved : IsReserved name mac s)
      (has_pid : s.pid ≡ some pid) where
    mark_succeeds :
        (started_at : String) (p : ProcessPool)
        → IsTaken name s.slot s p
        → Succeeds
            (mark_vm_slot_booted env s.slot started_at)
            p
            (λ t q. (t ≡ booted started_at s) × IsTaken name s.slot (booted started_at s) q)
    unfolding mark_vm_slot_booted
    mark_succeeds started_at p h =
        let (marked, taken) =
          command-IsTaken env calm.quiet name (mark_vm_booted started_at) s.slot s
            (booted started_at s) p h (Takes-boot env s started_at is_reserved.0) in
        Succeeds-of _ _ (booted started_at s) p marked (refl, taken)

    reply_succeeds :
        (started_at : String) (t : SlotStatus) (p : ProcessPool)
        → t ≡ booted started_at s
        → IsTaken name s.slot (booted started_at s) p
        → Succeeds
            (lift (map_err from_pool_error (try_from t)))
            p
            (RunsAt name mac s pid started_at)
    reply_succeeds started_at t p e h =
        let r = runtime_of name mac started_at s pid in
        let converts =
          (try_from-runtime_from_slot_status (booted started_at s) r).1
            (booted_runs name mac started_at s pid is_reserved has_pid) in
        Succeeds-lift _ _ r p (ap (map_err from_pool_error) (ap try_from e ∙ converts)) (refl, h)

    -- The end of a creation, once the requests have been answered.
    pub mark_ready_succeeds :
        (started_at : String) (p : ProcessPool)
        → IsTaken name s.slot s p
        → Succeeds (mark_ready env world s.slot started_at) p (RunsAt name mac s pid started_at)
    mark_ready_succeeds started_at p h =
        let Q = RunsAt name mac s pid started_at in
        Succeeds-bind (StaysAt name s) Q _ _ p (unlock_succeeds name s p h) λ _ p₁ h₁.
          Succeeds-bind (StaysAt name s) Q _ _ p₁
            (wait_succeeds env world calm name s.slot s p₁ (rw has_pid refl) h₁)
            λ _ p₂ h₂.
              Succeeds-bind _ Q _ _ p₂
                (Succeeds-converted from_pool_error _ _ p₂ (mark_succeeds started_at p₂ h₂))
                λ t p₃ (same, h₃). reply_succeeds started_at t p₃ same h₃

module _ (env : Env) (quiet : IsQuiet env) (taps : MakesTaps env) where
  -- The allocation of an empty slot to a free name.
  pub reserve_succeeds :
      (name mac : String) (p : ProcessPool) (vacant : SlotStatus)
      → IsUp p
      → find (is_named name) (view p.slots) ≡ none
      → find (is_in empty) (view p.slots) ≡ some vacant
      → let s = reservation name mac vacant in
        ((allocate_vm_slot env name mac p).0 ≡ returned s)
        × IsTaken name s.slot s (allocate_vm_slot env name mac p).1
  reserve_succeeds name mac p vacant up free found =
      let refines = allocate_vm_slot_refines env name mac p quiet taps up in
      let s = reservation name mac vacant in
      let got : (allocate_vm_slot env name mac p).0 ≡ returned s =
        ap (λ x. x.0) refines ∙ rw (free, found) refl in
      (
        got,
        (allocate-IsTaken env quiet name mac p (allocate_vm_slot env name mac p).1 s taps up
            (ap (λ o. (o, (allocate_vm_slot env name mac p).1)) got)).0,
      )
