-- ===== src/Service/Quiet/Deletes.antt =====
-- Looking up and deleting a VM that runs at its slot, and asking for one that is not there.
use croutond.Base.{
  ℕ, String, ◌≡◌, refl, sym, subst, ◌∙◌, ap, true, none, some, if◌then◌else◌, eq_iff,
}
use croutond.Calls.{returned}
use croutond.Calls.Succeeds.{
  Succeeds, Succeeds-give, Succeeds-of, Succeeds-converted, Succeeds-bind,
}
use croutond.Types.{SlotStatus, occupied, state_eq}
use croutond.Error.{from_pool_error}
use croutond.Slot.{cleared, release_vm}
use croutond.Pool.{ProcessPool, Env, is_named, find_vm_slot_status_by_name, release_vm_slot}
use croutond.Pool.Quiet.Taken.{IsTaken, command-IsTaken, find_vm_slot_status_by_name-IsTaken}
use croutond.Pool.Quiet.Lifecycle.{Takes-release}
use croutond.Facade.{process_pool}
use croutond.Service.{World, expect_running, find_running, remove_vm, delete_vm_with_pool}
use croutond.Service.Quiet.{IsCalm, GoesWell, demand_succeeds}

module _ (env : Env) (world : World ProcessPool) (calm : IsCalm env world) (name : String) where
  -- A search by the name, in a pool where the slot carries it.
  find_succeeds :
      (slot : ℕ) (s : SlotStatus) (p : ProcessPool)
      → s.name ≡ some name
      → IsTaken name slot s p
      → Succeeds
          (find_vm_slot_status_by_name env name)
          p
          (λ found q. (found ≡ some s) × IsTaken name slot s q)
  find_succeeds slot s p named h =
      let (found, kept) = find_vm_slot_status_by_name-IsTaken env calm.quiet name slot s p h in
      let carries : is_named name s ≡ true = rw named ((eq_iff name name).1 refl) in
      Succeeds-of _ _ (some s) p (found ∙ ap (λ b. returned (if b then some s else none)) carries)
        (refl, kept)

  expects :
      (s : SlotStatus) (p : ProcessPool)
      → s.state ≡ occupied
      → expect_running (process_pool env) world name (some s) p ≡ (returned s, p)
  unfolding expect_running
  expects s p runs =
      let is_occupied = ap (λ state. state_eq state occupied) runs in rw is_occupied refl

  pub find_running_succeeds :
      (slot : ℕ) (s : SlotStatus) (p : ProcessPool)
      → s.name ≡ some name
      → s.state ≡ occupied
      → IsTaken name slot s p
      → Succeeds
          (find_running (process_pool env) world name)
          p
          (λ t q. (t ≡ s) × IsTaken name slot s q)
  unfolding find_running
  find_running_succeeds slot s p named runs h =
      let Found = λ (t : SlotStatus) (q : ProcessPool). (t ≡ s) × IsTaken name slot s q in
      Succeeds-bind _ Found _ _ p
        (Succeeds-converted from_pool_error _ _ p (find_succeeds slot s p named h))
        λ found q (same, kept).
          subst (λ x. Succeeds (expect_running (process_pool env) world name x) q Found) (sym same)
            (record { value = s; end = q; runs = expects s q runs; holds = (refl, kept) })

  pub release_succeeds :
      (slot : ℕ) (s : SlotStatus) (p : ProcessPool)
      → s.state ≡ occupied
      → IsTaken name slot s p
      → Succeeds (release_vm_slot env slot) p (λ _ q. IsTaken name slot (cleared s) q)
  unfolding release_vm_slot
  release_succeeds slot s p runs h =
      let (released, kept) =
        command-IsTaken env calm.quiet name release_vm slot s (cleared s) p h
          (Takes-release env s runs) in
      Succeeds-of _ _ (cleared s) p released kept

module _ (env : Env) (world : World ProcessPool) (well : GoesWell env world) (name : String) where
  -- A running VM is deleted, and its slot is empty then.
  pub delete_succeeds :
      (slot : ℕ) (s : SlotStatus) (p : ProcessPool)
      → s.slot ≡ slot
      → s.name ≡ some name
      → s.state ≡ occupied
      → IsTaken name slot s p
      → Succeeds
          (delete_vm_with_pool (process_pool env) world name)
          p
          (λ _ q. IsTaken name slot (cleared s) q)
  unfolding delete_vm_with_pool remove_vm
  delete_succeeds slot s p numbered named runs h =
      let Here = λ (_ : Unit {0}) (q : ProcessPool). IsTaken name slot s q in
      let Gone = λ (_ : Unit {0}) (q : ProcessPool). IsTaken name slot (cleared s) q in
      let shut = demand_succeeds env world well name slot s "/api/v1/vm.shutdown" in
      let delete = demand_succeeds env world well name slot s "/api/v1/vm.delete" in
      Succeeds-bind _ Gone _ _ p
        (find_running_succeeds env world well.calm name slot s p named runs h)
        λ t p₁ (same, h₁).
          subst (λ i. Succeeds (remove_vm (process_pool env) world i) p₁ Gone)
            (sym (ap (λ x. x.slot) same ∙ numbered))
            (Succeeds-bind Here Gone _ _ p₁ (shut p₁ h₁) λ _ p₂ h₂.
              Succeeds-bind Here Gone _ _ p₂ (delete p₂ h₂) λ _ p₃ h₃.
                Succeeds-bind _ Gone _ _ p₃
                  (Succeeds-converted from_pool_error _ _ p₃
                    (release_succeeds env world well.calm name slot s p₃ runs h₃))
                  λ _ p₄ h₄. Succeeds-give Gone tt p₄ h₄)
