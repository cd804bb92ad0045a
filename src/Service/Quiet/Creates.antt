-- ===== src/Service/Quiet/Creates.antt =====
-- A creation succeeds where a request is valid, its name is free and a slot with a child is empty.
use croutond.Base.{
  ℕ, String, ◌≡◌, refl, sym, ap, none, some, is_none, find, ok, subst, map_err, if◌then◌else◌,
  Bool-cases, inl, inr,
}
use croutond.Calls.{returned}
use croutond.Calls.Succeeds.{
  Succeeds, Succeeds-give, Succeeds-lift, Succeeds-of, Succeeds-converted, Succeeds-bind,
}
use croutond.Types.{SlotStatus, empty}
use croutond.Error.{from_pool_error, backend}
use croutond.Boot.{BootConfig}
use croutond.Boot.Validation.{validate_boot_config}
use croutond.Pool.{ProcessPool, Env, is_named, is_in, allocate_vm_slot}
use croutond.Pool.Quiet.{IsUp, view}
use croutond.Pool.Quiet.Reserved.{IsReserved}
use croutond.Pool.Quiet.Taken.{IsTaken}
use croutond.Facade.{process_pool}
use croutond.Service.{
  World, boot, create_body, create_path, finish_vm, start_vm, give_up, create_vm_with_pool,
}
use croutond.Service.Mac.{mac_for_name}
use croutond.Service.Quiet.Steps.{
  StaysAt, RunsAt, IsCreated, reserved_for, occupy, unlock_succeeds, mark_ready_succeeds,
  reserve_succeeds,
}
use croutond.Service.Quiet.{GoesWell, wait_succeeds, send_succeeds, demand_succeeds}

module _ (env : Env) (world : World ProcessPool) (well : GoesWell env world) where
  module _ (name mac : String) (s : SlotStatus) (pid : ℕ) (is_reserved : IsReserved name mac s)
      (has_pid : s.pid ≡ some pid) where
    boot_succeeds :
        (payload : BootConfig) (p : ProcessPool)
        → IsTaken name s.slot s p
        → Succeeds (boot (process_pool env) world payload s.slot) p (StaysAt name s)
    boot_succeeds payload p h = elim (Bool-cases (is_none payload.snapshot_path)) [
      | inl created ↦
          rw created (demand_succeeds env world well name s.slot s "/api/v1/vm.boot" p h)
      | inr restored ↦ rw restored (Succeeds-give (StaysAt name s) tt p h)
    ]

    finish_vm_succeeds :
        (payload : BootConfig) (started_at : String) (p : ProcessPool)
        → IsTaken name s.slot s p
        → Succeeds
            (finish_vm (process_pool env) world payload s.slot started_at)
            p
            (RunsAt name mac s pid started_at)
    unfolding finish_vm
    finish_vm_succeeds payload started_at p h =
        Succeeds-bind (StaysAt name s) _ _ _ p (boot_succeeds payload p h) λ _ p₁ h₁.
          mark_ready_succeeds env world well.calm name mac s pid is_reserved has_pid started_at p₁
            h₁

    start_vm_succeeds :
        (payload : BootConfig) (started_at : String) (p : ProcessPool)
        → IsTaken name s.slot s p
        → Succeeds
            (start_vm (process_pool env) world payload s started_at)
            p
            (RunsAt name mac s pid started_at)
    unfolding start_vm
    start_vm_succeeds payload started_at p h =
        let json = create_body (process_pool env) world payload s in
        let path = create_path (process_pool env) world payload in
        let (bytes, serialised) = well.calm.serialises json in
        Succeeds-bind (StaysAt name s) _ _ _ p
          (Succeeds-lift (StaysAt name s) _ bytes p (ap (map_err backend) serialised) h)
          λ body p₁ h₁.
            Succeeds-bind _ _ _ _ p₁
              (send_succeeds env world well name s.slot s path body (some "application/json") p₁ h₁)
              λ response p₂ (fine, h₂).
                let next = finish_vm (process_pool env) world payload s.slot started_at in
                subst
                  (λ b.
                    Succeeds (if b then give_up (process_pool env) world s.slot response else next)
                      p₂ (RunsAt name mac s pid started_at))
                  (sym fine) (finish_vm_succeeds payload started_at p₂ h₂)

    occupy_succeeds :
        (payload : BootConfig) (p : ProcessPool)
        → IsTaken name s.slot s p
        → Succeeds
            (occupy env world payload s)
            p
            (λ r q. (started_at : String) × RunsAt name mac s pid started_at r q)
    occupy_succeeds payload p h =
        Succeeds-bind (StaysAt name s) _ _ _ p (unlock_succeeds env world well.calm name s p h)
          λ _ p₁ h₁.
            Succeeds-bind (StaysAt name s) _ _ _ p₁
              (wait_succeeds env world well.calm name s.slot s p₁ (rw has_pid refl) h₁)
              λ _ p₂ h₂.
                let started = start_vm_succeeds payload (world.now p₂) p₂ h₂ in
                record {
                  value = started.value;
                  end = started.end;
                  runs = started.runs;
                  holds = (world.now p₂, started.holds);
                }

  -- A valid request for a free name is served where a slot with a child is empty: the reply is the VM
  -- that runs then at the first such slot.
  pub create_succeeds :
      (payload : BootConfig) (p : ProcessPool) (vacant : SlotStatus) (pid : ℕ)
      → IsUp p
      → validate_boot_config payload ≡ ok tt
      → find (is_named payload.name) (view p.slots) ≡ none
      → find (is_in empty) (view p.slots) ≡ some vacant
      → vacant.pid ≡ some pid
      → Succeeds
          (create_vm_with_pool (process_pool env) world payload)
          p
          (IsCreated world payload (reserved_for world payload vacant) pid)
  unfolding create_vm_with_pool
  create_succeeds payload p vacant pid up valid free found has_pid =
      let mac = mac_for_name world.digest payload.name in
      let s = reserved_for world payload vacant in
      let allocate = allocate_vm_slot env payload.name mac in
      let Reserved =
        λ (t : SlotStatus) (q : ProcessPool). (t ≡ s) × IsTaken payload.name s.slot s q in
      Succeeds-bind
        (λ _ q. ((allocate q).0 ≡ returned s) × IsTaken payload.name s.slot s (allocate q).1)
        (IsCreated world payload s pid) _ _ p
        (Succeeds-lift _ _ tt p valid (
          reserve_succeeds env well.calm.quiet well.calm.taps payload.name mac p vacant up free
            found))
        λ _ p₁ (got, taken).
          Succeeds-bind Reserved (IsCreated world payload s pid) _ (occupy env world payload) p₁
            (Succeeds-converted from_pool_error Reserved allocate p₁
              (Succeeds-of Reserved allocate s p₁ got (refl, taken)))
            λ t p₂ (is, h₂).
              subst (λ u. Succeeds (occupy env world payload u) p₂ (IsCreated world payload s pid))
                (sym is)
                (occupy_succeeds payload.name mac s pid (refl, refl, refl, refl) has_pid payload p₂
                  h₂)
