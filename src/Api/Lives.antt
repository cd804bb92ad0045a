-- ===== src/Api/Lives.antt =====
-- The life of a VM as the clients of the API see it, on the process pool while nothing else goes on.
use croutond.Base.{
  ℕ, String, ◌≡◌, refl, ◌∙◌, ap, true, false, none, some, find, ok, subst, sym, if◌then◌else◌,
  eq_iff,
}
use croutond.Base.Text.{◌+++◌}
use croutond.Calls.{returned, raised}
use croutond.Calls.Succeeds.{
  Succeeds, Succeeds-give, Succeeds-of, Succeeds-converted, Succeeds-bind, Succeeds-raises,
}
use croutond.Types.{SlotStatus, VmRuntime, empty, occupied}
use croutond.Error.{not_found, conflict, from_pool_error}
use croutond.Runtime.{runtime_from_slot_status}
use croutond.Boot.{BootConfig}
use croutond.Boot.Validation.{validate_boot_config}
use croutond.Slot.{cleared, booted}
use croutond.Pool.{ProcessPool, Env, is_named, is_in}
use croutond.Pool.Quiet.{IsUp, view}
use croutond.Pool.Quiet.Taken.{
  IsTaken, find_vm_slot_status_by_name-IsTaken, find_vm_runtime_by_name-IsTaken,
  find_vm_runtime_by_name_missing,
}
use croutond.Pool.Quiet.Lifecycle.{runtime_of, booted_runs}
use croutond.Facade.{process_pool}
use croutond.Service.{World}
use croutond.Service.Mac.{mac_for_name}
use croutond.Service.Quiet.{GoesWell}
use croutond.Service.Quiet.Refuses.{create_refused}
use croutond.Service.Quiet.Steps.{reserved_for}
use croutond.Service.Quiet.Creates.{create_succeeds}
use croutond.Service.Quiet.Deletes.{delete_succeeds}
use croutond.Api.{Web, create_vm, get_vm, delete_vm, reply_or_not_running}

-- What the clients see from the state on: the VM is served, a second one of its name is refused, and
-- once the VM has been deleted there is none.
abbrev pub Serves :
    {R : Type 0}
    → Web R
    → Env
    → World ProcessPool
    → String
    → BootConfig
    → VmRuntime
    → ProcessPool
    → Type 0
Serves web env world name again r p =
    let got = get_vm (process_pool env) world web name p in
    let deleted = delete_vm (process_pool env) world web name got.1 in
    (got.0 ≡ returned r)
    × ((create_vm (process_pool env) world web again got.1).0
        ≡ raised (conflict ("VM '" +++ name +++ "' is already running")))
    × (deleted.0 ≡ returned (record { ok = true }))
    × ((get_vm (process_pool env) world web name deleted.1).0
        ≡ raised (not_found ("VM '" +++ name +++ "' not found")))

module _ {R : Type 0} (web : Web R) (env : Env) (world : World ProcessPool)
    (well : GoesWell env world) (name : String) where
  -- A VM that runs at its slot is served.
  get_succeeds :
      (slot : ℕ) (s : SlotStatus) (r : VmRuntime) (p : ProcessPool)
      → runtime_from_slot_status s ≡ some r
      → r.name ≡ name
      → IsTaken name slot s p
      → Succeeds
          (get_vm (process_pool env) world web name)
          p
          (λ t q. (t ≡ r) × IsTaken name slot s q)
  unfolding get_vm
  get_succeeds slot s r p runs named h =
      let (found, kept) =
        find_vm_runtime_by_name-IsTaken env well.calm.quiet name slot s r p h runs named in
      Succeeds-bind (λ o q. (o ≡ some r) × IsTaken name slot s q) _ _ _ p
        (Succeeds-converted from_pool_error _ _ p (Succeeds-of _ _ (some r) p found (refl, kept)))
        λ o q (is, there).
          subst
            (λ x.
              Succeeds (reply_or_not_running (process_pool env) world web name x) q
                (λ t u. (t ≡ r) × IsTaken name slot s u))
            (sym is) (Succeeds-give _ r q (refl, there))

  -- Where the slot does not carry the name, nobody does, and the reply says so.
  get_missing :
      (slot : ℕ) (s : SlotStatus) (p : ProcessPool)
      → is_named name s ≡ false
      → IsTaken name slot s p
      → (get_vm (process_pool env) world web name p).0
        ≡ raised (not_found ("VM '" +++ name +++ "' not found"))
  unfolding get_vm
  get_missing slot s p other h =
      let (found, kept) =
        find_vm_runtime_by_name_missing env well.calm.quiet name slot s p h other in
      Succeeds-raises (λ o q. (o ≡ none) × IsTaken name slot s q) _ _ p _
        (Succeeds-converted from_pool_error _ _ p (Succeeds-of _ _ none p found (refl, kept)))
        λ o q (is, there).
          ap (λ x. (reply_or_not_running (process_pool env) world web name x q).0) is
          ∙ (let (nobody, _) =
                find_vm_slot_status_by_name-IsTaken env well.calm.quiet name slot s q there in
              Succeeds-raises (λ x u. x ≡ none) _ _ q _
                (Succeeds-converted from_pool_error _ _ q (
                  Succeeds-of _ _ none q
                    (nobody ∙ ap (λ b. returned (if b then some s else none)) other) refl))
                λ x u absent. rw absent refl)

  delete_replies :
      (slot : ℕ) (s : SlotStatus) (p : ProcessPool)
      → s.slot ≡ slot
      → s.name ≡ some name
      → s.state ≡ occupied
      → IsTaken name slot s p
      → Succeeds
          (delete_vm (process_pool env) world web name)
          p
          (λ o q. (o ≡ record { ok = true }) × IsTaken name slot (cleared s) q)
  delete_replies slot s p numbered named runs h =
      Succeeds-bind _ _ _ _ p (delete_succeeds env world well name slot s p numbered named runs h)
        λ _ q gone. Succeeds-give _ (record { ok = true }) q (refl, gone)

  running-Serves :
      (again : BootConfig) (s : SlotStatus) (r : VmRuntime) (p : ProcessPool)
      → again.name ≡ name
      → validate_boot_config again ≡ ok tt
      → s.name ≡ some name
      → s.state ≡ occupied
      → runtime_from_slot_status s ≡ some r
      → r.name ≡ name
      → IsTaken name s.slot s p
      → Serves web env world name again r p
  running-Serves again s r p same valid named runs runtime runtime_named h =
      let got = get_succeeds s.slot s r p runtime runtime_named h in
      let gone = delete_replies s.slot s got.end refl named runs got.holds.1 in
      let carries : is_named name s ≡ true = rw named ((eq_iff name name).1 refl) in
      let after_get = sym (ap (λ x. x.1) got.runs) in
      let deleted = ap (delete_vm (process_pool env) world web name) (sym after_get) ∙ gone.runs in
      (
        ap (λ x. x.0) got.runs ∙ ap returned got.holds.0,
        subst
            (λ q.
              (create_vm (process_pool env) world web again q).0
              ≡ raised (conflict ("VM '" +++ name +++ "' is already running")))
            after_get
            (create_refused env world well.calm.quiet well.calm.taps name again s.slot s got.end
              same valid carries got.holds.1),
        ap (λ x. x.0) deleted ∙ ap returned gone.holds.0,
        ap (λ x. (get_vm (process_pool env) world web name x.1).0) deleted
            ∙ get_missing s.slot (cleared s) gone.end refl gone.holds.1,
      )

-- While nothing else goes on, devices can be made, control sockets can be connected and every
-- request to a VM is answered without an error, a valid request for a free name, with a child at
-- the first empty slot, is replied to with the VM, which is on that slot's device and has that
-- child's pid; from then on the VM is served under its name, another request for the name is
-- refused as a conflict, and after a deletion, which succeeds, the VM is not found.
pub vm_is_served :
    {R : Type 0} (web : Web R) (env : Env) (world : World ProcessPool) (payload again : BootConfig)
    (p : ProcessPool) (vacant : SlotStatus) (pid : ℕ)
    → GoesWell env world
    → IsUp p
    → validate_boot_config payload ≡ ok tt
    → validate_boot_config again ≡ ok tt
    → again.name ≡ payload.name
    → find (is_named payload.name) (view p.slots) ≡ none
    → find (is_in empty) (view p.slots) ≡ some vacant
    → vacant.pid ≡ some pid
    → let created = create_vm (process_pool env) world web payload p in
      let mac = mac_for_name world.digest payload.name in
      (started_at : String) × ((created.0
          ≡ returned (runtime_of payload.name mac started_at vacant pid))
        × Serves web env world payload.name again
            (runtime_of payload.name mac started_at vacant pid)
            created.1)
vm_is_served web env world payload again p vacant pid well up valid valid' same free found has_pid =
    let made = create_succeeds env world well payload p vacant pid up valid free found has_pid in
    let (started_at, (is, taken)) = made.holds in
    let mac = mac_for_name world.digest payload.name in
    let s = reserved_for world payload vacant in
    let r = runtime_of payload.name mac started_at vacant pid in
    let runs = booted_runs payload.name mac started_at s pid (refl, refl, refl, refl) has_pid in
    let serves =
      running-Serves web env world well payload.name again (booted started_at s) r made.end same
        valid' refl refl runs refl taken in
    (
      started_at,
      (
        ap (λ x. x.0) made.runs ∙ ap returned is,
        subst (Serves web env world payload.name again r) (sym (ap (λ x. x.1) made.runs)) serves,
      ),
    )
