-- ===== src/Service/Quiet/Leaks.antt =====
-- A creation whose slot does not become ready: the slot stays with the name, in the state Booting.
use croutond.Base.{
  ℕ, zero, suc, ◌+◌, ◌≤◌, String, ◌≡◌, refl, ◌∙◌, sym, ap, Bool, true, false, ◌&&◌, none, some,
  find, ok, subst, leb, arith, is_some, Bool-cases, inl, inr, eq_iff,
}
use croutond.Base.Text.{◌+++◌}
use croutond.Base.Text.Decimal.{decimal}
use croutond.Calls.{Outcome, returned, raised, pending}
use croutond.Calls.Succeeds.{Succeeds-lift, Succeeds-of, Succeeds-converted}
use croutond.Calls.Settles.{Settled, Settles, Settles-success, Settles-bind}
use croutond.Types.{SlotStatus, empty}
use croutond.Error.{ApiError, backend, conflict, from_pool_error}
use croutond.Boot.{BootConfig}
use croutond.Boot.Validation.{validate_boot_config}
use croutond.Pool.{ProcessPool, Env, is_named, is_in, allocate_vm_slot}
use croutond.Pool.Quiet.{IsQuiet, IsUp, view}
use croutond.Pool.Quiet.Spec.{MakesTaps}
use croutond.Pool.Quiet.Taken.{IsTaken}
use croutond.Facade.{process_pool}
use croutond.Service.{
  World, Serve, is_ready, wait_round, wait_loop, wait_for_slot_ready, max_rounds,
  create_vm_with_pool, delete_vm_with_pool,
}
use croutond.Service.Mac.{mac_for_name}
use croutond.Service.Waits.{ClockRuns}
use croutond.Service.Quiet.{status_succeeds}
use croutond.Service.Quiet.Steps.{reserved_for, occupy, reserve_succeeds}
use croutond.Service.Quiet.Refuses.{create_refused, delete_refused}

-- Nothing else touches the pool, devices can be made, the clock counts the sleeps, and no control
-- socket can be connected.
pub record IsStuck (env : Env) (world : World ProcessPool) : Type 0 where
  pub quiet : IsQuiet env
  pub taps : MakesTaps env
  pub unlocked : (p : ProcessPool) → world.unlocked p ≡ p
  pub runs : ClockRuns (process_pool env) world
  pub refuses : (p : ProcessPool) (path : String) → world.connects p path ≡ false

and_false : (a b : Bool) → b ≡ false → (a && b) ≡ false
and_false true b e = e
and_false false b e = refl

-- An end that is no success is an error.
settled_raised {ℓ} :
    {S E : Type 0} {A : Type ℓ} (R : E → S → Type 0) (x : Outcome E A × S)
    → Settled (λ _ _. ⊥) R x
    → (e : E) × (x.0 ≡ raised e) × R e x.1
settled_raised R (returned a, s) h = elim h [ ]
settled_raised R (raised e, s) h = (e, refl, h)
settled_raised R (pending, s) h = elim h [ ]

abbrev Never {ℓ} : {A : Type ℓ} → A → ProcessPool → Type 0
Never a q = ⊥

abbrev pub late : ℕ → ApiError
late slot = backend ("slot " +++ decimal slot +++ " did not become ready")

module _ (env : Env) (world : World ProcessPool) (stuck : IsStuck env world) where
  module _ (name : String) (slot : ℕ) (s : SlotStatus) where
    abbrev IsLate : ApiError → ProcessPool → Type 0
    IsLate e q = (e ≡ late slot) × IsTaken name slot s q

    unlocked-IsTaken :
        (p : ProcessPool) → IsTaken name slot s p → IsTaken name slot s (world.unlocked p)
    unlocked-IsTaken p h = subst (IsTaken name slot s) (sym (stuck.unlocked p)) h

    wait_round_stuck :
        (start : ProcessPool) (slept : ℕ) (again : Serve ProcessPool (Unit {0})) (p : ProcessPool)
        → IsTaken name slot s p
        → (leb 5000 (world.elapsed start slept) ≡ false
            → Settles again (world.unlocked (world.unlocked p)) Never IsLate)
        → Settles (wait_round (process_pool env) world slot start slept again s) p Never IsLate
    unfolding wait_round
    wait_round_stuck start slept again p h k =
        let round = wait_round (process_pool env) world slot start slept again s in
        let unready : is_ready (process_pool env) world slot s p ≡ false =
          and_false (is_some s.pid) _ (stuck.refuses (world.unlocked p) _) in
        elim (Bool-cases (leb 5000 (world.elapsed start slept))) [
          | inl over ↦
              let ends : round p ≡ (raised (late slot), world.unlocked p) =
                rw (unready, over, wait_round) refl in
              record { at = subst (Settled Never IsLate) (sym ends) (refl, unlocked-IsTaken p h) }
          | inr early ↦
              let goes : round p ≡ again (world.unlocked (world.unlocked p)) =
                rw (unready, early, wait_round) refl in
              record { at = subst (Settled Never IsLate) (sym goes) (k early).at }
        ]

    wait_loop_stuck :
        (fuel : ℕ) (start : ProcessPool) (slept : ℕ) (p : ProcessPool)
        → slept ≤ 100
        → 101 ≤ slept + fuel
        → IsTaken name slot s p
        → Settles (wait_loop (process_pool env) world fuel slot start slept) p Never IsLate
    unfolding wait_loop
    wait_loop_stuck zero start slept p few enough h = absurd (omega arith)
    wait_loop_stuck (suc fuel) start slept p few enough h =
        let again = wait_loop (process_pool env) world fuel slot start (suc slept) in
        let Found = λ (t : SlotStatus) (q : ProcessPool). (t ≡ s) × IsTaken name slot s q in
        Settles-bind Found Never IsLate _ _ p
          (Settles-success Found IsLate _ p (
            Succeeds-converted from_pool_error _ _ p
              (status_succeeds env stuck.quiet name slot s p h)))
          λ t q (same, taken).
            subst
              (λ u.
                Settles (wait_round (process_pool env) world slot start slept again u) q Never
                  IsLate)
              (sym same)
              (wait_round_stuck start slept again q taken λ early.
                let clock = stuck.runs start slept in
                wait_loop_stuck fuel start (suc slept) (world.unlocked (world.unlocked q))
                  (ground arith) (omega arith)
                  (unlocked-IsTaken (world.unlocked q) (unlocked-IsTaken q taken)))

    wait_stuck :
        (p : ProcessPool)
        → IsTaken name slot s p
        → Settles (wait_for_slot_ready (process_pool env) world slot) p Never IsLate
    unfolding wait_for_slot_ready
    wait_stuck p h = record {
      at = (wait_loop_stuck max_rounds p 0 p (omega arith) (omega arith) h).at;
    }

  occupy_stuck :
      (payload : BootConfig) (name : String) (s : SlotStatus) (p : ProcessPool)
      → IsTaken name s.slot s p
      → Settles (occupy env world payload s) p Never (IsLate name s.slot s)
  occupy_stuck payload name s p h =
      let R = IsLate name s.slot s in
      Settles-bind (λ (_ : Unit {0}) q. IsTaken name s.slot s q) Never R _ _ p
        (record { at = unlocked-IsTaken name s.slot s p h })
        λ _ p₁ h₁.
          Settles-bind (Never {A = Unit {0}}) Never R _ _ p₁ (wait_stuck name s.slot s p₁ h₁)
            λ _ q never. elim never [ ]

  create_stuck :
      (payload : BootConfig) (p : ProcessPool) (vacant : SlotStatus)
      → IsUp p
      → validate_boot_config payload ≡ ok tt
      → find (is_named payload.name) (view p.slots) ≡ none
      → find (is_in empty) (view p.slots) ≡ some vacant
      → let s = reserved_for world payload vacant in
        Settles
          (create_vm_with_pool (process_pool env) world payload)
          p
          Never
          (IsLate payload.name s.slot s)
  unfolding create_vm_with_pool
  create_stuck payload p vacant up valid free found =
      let mac = mac_for_name world.digest payload.name in
      let s = reserved_for world payload vacant in
      let R = IsLate payload.name s.slot s in
      let allocate = allocate_vm_slot env payload.name mac in
      let Reserved =
        λ (t : SlotStatus) (q : ProcessPool). (t ≡ s) × IsTaken payload.name s.slot s q in
      let Ready = λ (_ : Unit {0}) (q : ProcessPool).
        ((allocate q).0 ≡ returned s) × IsTaken payload.name s.slot s (allocate q).1 in
      Settles-bind Ready Never R _ _ p
        (Settles-success Ready R _ p (
          Succeeds-lift Ready _ tt p valid
            (reserve_succeeds env stuck.quiet stuck.taps payload.name mac p vacant up free found)))
        λ _ p₁ (got, taken).
          Settles-bind Reserved Never R _ (occupy env world payload) p₁
            (Settles-success Reserved R _ p₁ (
              Succeeds-converted from_pool_error Reserved allocate p₁
                (Succeeds-of Reserved allocate s p₁ got (refl, taken))))
            λ t p₂ (is, h₂).
              subst (λ u. Settles (occupy env world payload u) p₂ Never R) (sym is)
                (occupy_stuck payload payload.name s p₂ h₂)

-- While nothing else goes on, devices can be made, the clock counts the sleeps and no control socket
-- can be connected, a valid request for a free name with an empty slot fails, as the slot did not
-- become ready, and leaves the slot reserved for the name: another request for the name is refused as
-- the VM is running already, and a deletion as it is not running.
pub unready_slot_leaks :
    (env : Env) (world : World ProcessPool) (payload again : BootConfig) (p : ProcessPool)
    (vacant : SlotStatus)
    → IsStuck env world
    → IsUp p
    → validate_boot_config payload ≡ ok tt
    → validate_boot_config again ≡ ok tt
    → again.name ≡ payload.name
    → find (is_named payload.name) (view p.slots) ≡ none
    → find (is_in empty) (view p.slots) ≡ some vacant
    → let (outcome, q) = create_vm_with_pool (process_pool env) world payload p in
      let s = reserved_for world payload vacant in
      (outcome ≡ raised (late vacant.slot))
      × IsTaken payload.name vacant.slot s q
      × ((create_vm_with_pool (process_pool env) world again q).0
          ≡ raised (conflict ("VM '" +++ payload.name +++ "' is already running")))
      × ((delete_vm_with_pool (process_pool env) world payload.name q).0
          ≡ raised (conflict ("VM '" +++ payload.name +++ "' is not running")))
unready_slot_leaks env world payload again p vacant stuck up valid valid' same free found =
    let s = reserved_for world payload vacant in
    let name = payload.name in
    let ends = create_stuck env world stuck payload p vacant up valid free found in
    let (e, outcome, (is, taken)) =
      settled_raised (IsLate env world stuck name s.slot s)
        (create_vm_with_pool (process_pool env) world payload p) ends.at in
    let carries : is_named name s ≡ true = (eq_iff name name).1 refl in
    (
      outcome ∙ ap raised is,
      taken,
      create_refused env world stuck.quiet stuck.taps name again s.slot s _ same valid' carries
          taken,
      delete_refused env world stuck.quiet stuck.taps name s.slot s _ carries refl taken,
    )
