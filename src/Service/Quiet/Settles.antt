-- ===== src/Service/Quiet/Settles.antt =====
-- A creation or a deletion to which the VM answers with an error, at any of its requests: the slot is
-- reset, and the name is free again.
use croutond.Base.{ℕ, String, ◌≡◌, refl, ap, none, some, is_none, map_err, if◌then◌else◌, []}
use croutond.Calls.{give}
use croutond.Calls.Succeeds.{Succeeds, Succeeds-give, Succeeds-lift}
use croutond.Calls.Settles.{
  Settles, Settles-weaken, Settles-success, Settles-raise, Settles-if, Settles-bind,
}
use croutond.Types.{SlotStatus, VmRuntime, ProxyResponse}
use croutond.Error.{ApiError, backend}
use croutond.Boot.{BootConfig}
use croutond.Boot.Payload.{format_backend_error}
use croutond.Slot.{cleared, reset_vm, handle_command}
use croutond.Pool.{ProcessPool, Env, deliver, reset_vm_slot}
use croutond.Pool.Quiet.Places.{Takes}
use croutond.Pool.Quiet.Reserved.{IsReserved}
use croutond.Pool.Quiet.Taken.{IsTaken, command-IsTaken}
use croutond.Facade.{process_pool}
use croutond.Service.{
  World, Serve, boot, create_body, create_path, finish_vm, start_vm, cleanup_reserved_vm, give_up,
  demand, refused,
}
use croutond.Service.Quiet.{IsCalm, wait_succeeds, send_answers}
use croutond.Service.Quiet.Steps.{StaysAt, RunsAt, occupy, unlock_succeeds, mark_ready_succeeds}

Takes-reset : (env : Env) (s : SlotStatus) → Takes env reset_vm s (cleared s)
unfolding deliver handle_command
Takes-reset env s time c child = (none, refl)

-- The error is one of the backend, and the slot has been cleared.
abbrev pub HasFailed : String → SlotStatus → ApiError → ProcessPool → Type 0
HasFailed name s e p = (text : String) × ((e ≡ backend text) × IsTaken name s.slot (cleared s) p)

module _ (env : Env) (world : World ProcessPool) (calm : IsCalm env world) where
  module _ (name : String) (s : SlotStatus) where
    cleanup_succeeds :
        (p : ProcessPool)
        → IsTaken name s.slot s p
        → Succeeds
            (cleanup_reserved_vm (process_pool env) world s.slot)
            p
            (λ _ q. IsTaken name s.slot (cleared s) q)
    unfolding cleanup_reserved_vm reset_vm_slot
    cleanup_succeeds p h =
        let (reset, kept) =
          command-IsTaken env calm.quiet name reset_vm s.slot s (cleared s) p h
            (Takes-reset env s) in
        record { value = tt; end = _; runs = rw reset refl; holds = kept }

    -- Where the VM refuses, the slot is given up; else the call goes on.
    pub unless_refused_settles {ℓ} :
        {A : Type ℓ} (Q : A → ProcessPool → Type 0) (response : ProxyResponse)
        (next : Serve ProcessPool A) (p : ProcessPool)
        → IsTaken name s.slot s p
        → Settles next p Q (HasFailed name s)
        → Settles
            (if refused (process_pool env) world response
              then give_up (process_pool env) world s.slot response
              else next)
            p
            Q
            (HasFailed name s)
    unfolding give_up
    unless_refused_settles Q response next p h goes =
        let R = HasFailed name s in
        Settles-if Q R (refused (process_pool env) world response) _ next p
          (λ _.
            Settles-bind (StaysAt name s) Q R _ _ p
              (Settles-success _ R _ p (unlock_succeeds env world calm name s p h))
              λ _ p₁ h₁.
                Settles-bind (λ (_ : Unit {0}) q. IsTaken name s.slot (cleared s) q) Q R _ _ p₁
                  (Settles-success _ R _ p₁ (cleanup_succeeds p₁ h₁))
                  λ _ p₂ h₂.
                    Settles-raise Q R _ p₂ (format_backend_error world.decode response, (refl, h₂)))
          λ _. goes

    pub demand_settles :
        (path : String) (p : ProcessPool)
        → IsTaken name s.slot s p
        → Settles
            (demand (process_pool env) world s.slot path)
            p
            (StaysAt name s)
            (HasFailed name s)
    unfolding demand
    demand_settles path p h =
        let R = HasFailed name s in
        Settles-bind _ (StaysAt name s) R _ _ p
          (Settles-success _ R _ p (send_answers env world calm name s.slot s path [] none p h))
          λ response q (_, there).
            unless_refused_settles (StaysAt name s) response (give tt) q there
              (Settles-success (StaysAt name s) R _ q (Succeeds-give (StaysAt name s) tt q there))

module _ (env : Env) (world : World ProcessPool) (calm : IsCalm env world) (name mac : String)
    (s : SlotStatus) (pid : ℕ) (is_reserved : IsReserved name mac s)
    (has_pid : s.pid ≡ some pid) where
  abbrev Fails : ApiError → ProcessPool → Type 0
  Fails = HasFailed name s

  abbrev Runs : String → VmRuntime → ProcessPool → Type 0
  Runs = RunsAt name mac s pid

  boot_settles :
      (payload : BootConfig) (p : ProcessPool)
      → IsTaken name s.slot s p
      → Settles (boot (process_pool env) world payload s.slot) p (StaysAt name s) Fails
  boot_settles payload p h =
      Settles-if (StaysAt name s) Fails (is_none payload.snapshot_path) _ _ p
        (λ _. demand_settles env world calm name s "/api/v1/vm.boot" p h)
        λ _. Settles-success _ Fails _ p (Succeeds-give (StaysAt name s) tt p h)

  finish_vm_settles :
      (payload : BootConfig) (started_at : String) (p : ProcessPool)
      → IsTaken name s.slot s p
      → Settles
          (finish_vm (process_pool env) world payload s.slot started_at)
          p
          (Runs started_at)
          Fails
  unfolding finish_vm
  finish_vm_settles payload started_at p h =
      let Q = Runs started_at in
      Settles-bind (StaysAt name s) Q Fails _ _ p (boot_settles payload p h) λ _ p₁ h₁.
        Settles-success Q Fails _ p₁
          (mark_ready_succeeds env world calm name mac s pid is_reserved has_pid started_at p₁ h₁)

  start_vm_settles :
      (payload : BootConfig) (started_at : String) (p : ProcessPool)
      → IsTaken name s.slot s p
      → Settles (start_vm (process_pool env) world payload s started_at) p (Runs started_at) Fails
  unfolding start_vm
  start_vm_settles payload started_at p h =
      let Q = Runs started_at in
      let path = create_path (process_pool env) world payload in
      let (bytes, serialised) = calm.serialises (create_body (process_pool env) world payload s) in
      Settles-bind (StaysAt name s) Q Fails _ _ p
        (Settles-success _ Fails _ p
          (Succeeds-lift (StaysAt name s) _ bytes p (ap (map_err backend) serialised) h))
        λ body p₁ h₁.
          Settles-bind _ Q Fails _ _ p₁
            (Settles-success _ Fails _ p₁
              (send_answers env world calm name s.slot s path body (some "application/json") p₁ h₁))
            λ response p₂ (_, h₂).
              unless_refused_settles env world calm name s Q response _ p₂ h₂
                (finish_vm_settles payload started_at p₂ h₂)

  pub occupy_settles :
      (payload : BootConfig) (p : ProcessPool)
      → IsTaken name s.slot s p
      → Settles
          (occupy env world payload s)
          p
          (λ r q. (started_at : String) × Runs started_at r q)
          Fails
  occupy_settles payload p h =
      let Q = λ (r : VmRuntime) (q : ProcessPool). (started_at : String) × Runs started_at r q in
      Settles-bind (StaysAt name s) Q Fails _ _ p
        (Settles-success _ Fails _ p (unlock_succeeds env world calm name s p h))
        λ _ p₁ h₁.
          Settles-bind (StaysAt name s) Q Fails _ _ p₁
            (Settles-success _ Fails _ p₁
              (wait_succeeds env world calm name s.slot s p₁ (rw has_pid refl) h₁))
            λ _ p₂ h₂.
              let now = world.now p₂ in
              record {
                at =
                    (Settles-weaken (Runs now) Q Fails Fails _ p₂ (λ r q h'. (now, h'))
                      (λ e q h'. h') (start_vm_settles payload now p₂ h₂)).at;
              }
