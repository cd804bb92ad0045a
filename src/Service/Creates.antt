-- ===== src/Service/Creates.antt =====
-- Creating a VM: what has happened when it succeeds.
use croutond.Base.{ℕ, String, ◌≡◌, ◌∙◌, sym, ap, some, subst, Result, ok, err, map_err}
use croutond.Calls.{returned, >>=-returned, convert-returned, lift, lift-returned}
use croutond.Types.{SlotStatus, VmRuntime}
use croutond.Runtime.{try_from}
use croutond.Error.{from_pool_error, backend}
use croutond.Boot.{BootConfig}
use croutond.Boot.Validation.{validate_boot_config}
use croutond.Facade.{PoolFacade}
use croutond.Service.Mac.{mac_for_name}
use croutond.Service.{
  World, of_pool, unlock, send, boot, create_body, create_path, wait_for_slot_ready, finish_vm,
  start_vm, create_vm_with_pool,
}
use croutond.Service.Waits.{HasSeenReady, wait_for_slot_ready-HasSeenReady}
use croutond.Service.Deletes.{unless_refused}

map_err-ok {ℓ} :
    {E F : Type 0} {A : Type ℓ} (f : E → F) (r : Result E A) {a : A} → map_err f r ≡ ok a → r ≡ ok a
map_err-ok f (ok a) e = cc
map_err-ok f (err x) e = cc

-- The slot was ready once more, was marked as booted right after, and its status is the reply.
abbrev pub HasBooted : {S : Type 0} → PoolFacade S → World S → ℕ → String → VmRuntime → S → Type 0
HasBooted {S} pool world slot started_at runtime end =
    (q : S) × (status : SlotStatus) × HasSeenReady pool world slot q
    × ((pool.mark_slot_booted slot started_at q).0 ≡ returned status)
    × (try_from status ≡ ok runtime)
    × (end ≡ (pool.mark_slot_booted slot started_at q).1)

module _ {S : Type 0} (pool : PoolFacade S) (world : World S) where
  finish_vm-HasBooted :
      (payload : BootConfig) (slot : ℕ) (started_at : String) (s : S) {runtime : VmRuntime}
      → (finish_vm pool world payload slot started_at s).0 ≡ returned runtime
      → HasBooted pool world slot started_at runtime
          (finish_vm pool world payload slot started_at s).1
  unfolding finish_vm
  finish_vm-HasBooted payload slot started_at s e =
      let (_, got₁, step₁) = >>=-returned (boot pool world payload slot) _ s e in
      let e₁ = ap (λ x. x.0) (sym step₁) ∙ e in
      let (_, got₂, step₂) = >>=-returned (unlock pool world) _ _ e₁ in
      let e₂ = ap (λ x. x.0) (sym step₂) ∙ e₁ in
      let (_, got₃, step₃) = >>=-returned (wait_for_slot_ready pool world slot) _ _ e₂ in
      let e₃ = ap (λ x. x.0) (sym step₃) ∙ e₂ in
      let seen = wait_for_slot_ready-HasSeenReady pool world slot _ got₃ in
      let (status, got₄, step₄) =
        >>=-returned (of_pool pool world (pool.mark_slot_booted slot started_at)) _ _ e₃ in
      let e₄ = ap (λ x. x.0) (sym step₄) ∙ e₃ in
      let (converts, kept) = lift-returned (map_err from_pool_error (try_from status)) _ e₄ in
      (
        _,
        status,
        seen,
        convert-returned from_pool_error _ got₄,
        map_err-ok from_pool_error _ converts,
        ap (λ x. x.1) (step₁ ∙ step₂ ∙ step₃ ∙ step₄) ∙ kept,
      )

  start_vm-HasBooted :
      (payload : BootConfig) (reserved : SlotStatus) (started_at : String) (s : S)
      {runtime : VmRuntime}
      → (start_vm pool world payload reserved started_at s).0 ≡ returned runtime
      → HasBooted pool world reserved.slot started_at runtime
          (start_vm pool world payload reserved started_at s).1
  unfolding start_vm
  start_vm-HasBooted payload reserved started_at s {runtime} e =
      let (body, got₁, step₁) =
        >>=-returned
          (lift (map_err backend (world.to_vec (create_body pool world payload reserved)))) _ s e in
      let e₁ = ap (λ x. x.0) (sym step₁) ∙ e in
      let (response, got₂, step₂) =
        >>=-returned
          (send pool world reserved.slot (create_path pool world payload) body
            (some "application/json"))
          _ _ e₁ in
      let e₂ = ap (λ x. x.0) (sym step₂) ∙ e₁ in
      let (_, step₃) = unless_refused pool world reserved.slot response _ _ e₂ in
      let booted =
        finish_vm-HasBooted payload reserved.slot started_at _ (ap (λ x. x.0) (sym step₃) ∙ e₂) in
      subst (HasBooted pool world reserved.slot started_at runtime)
        (sym (ap (λ x. x.1) (step₁ ∙ step₂ ∙ step₃))) booted

  -- A VM is reported as created only when the request was valid, a slot was reserved for its name and
  -- MAC, the slot was seen ready, and was right after that marked as booted: the reply is the status
  -- that the marking returned, as a running VM.
  pub create_vm_with_pool-HasBooted :
      (payload : BootConfig) (s : S) {runtime : VmRuntime}
      → (create_vm_with_pool pool world payload s).0 ≡ returned runtime
      → (validate_boot_config payload ≡ ok tt)
        × ((reserved : SlotStatus) × (started_at : String) × ((pool.allocate_slot payload.name
                (mac_for_name world.digest payload.name)
                s).0
              ≡ returned reserved)
            × HasBooted pool world reserved.slot started_at runtime
                (create_vm_with_pool pool world payload s).1)
  unfolding create_vm_with_pool
  create_vm_with_pool-HasBooted payload s {runtime} e =
      let (_, got₁, step₁) = >>=-returned (lift (validate_boot_config payload)) _ s e in
      let (valid, kept) = lift-returned (validate_boot_config payload) s got₁ in
      let e₁ = rw kept at (ap (λ x. x.0) (sym step₁) ∙ e) in
      let (reserved, got₂, step₂) =
        >>=-returned
          (of_pool pool world
            (pool.allocate_slot payload.name (mac_for_name world.digest payload.name)))
          _ s e₁ in
      let e₂ = ap (λ x. x.0) (sym step₂) ∙ e₁ in
      let (_, got₃, step₃) = >>=-returned (unlock pool world) _ _ e₂ in
      let e₃ = ap (λ x. x.0) (sym step₃) ∙ e₂ in
      let (_, got₄, step₄) = >>=-returned (wait_for_slot_ready pool world reserved.slot) _ _ e₃ in
      let e₄ = ap (λ x. x.0) (sym step₄) ∙ e₃ in
      let booted = start_vm-HasBooted payload reserved _ _ e₄ in
      let same = ap (λ x. x.1) (rw kept at step₁ ∙ step₂ ∙ step₃ ∙ step₄) in
      (
        valid,
        (
          reserved,
          _,
          convert-returned from_pool_error _ got₂,
          subst (HasBooted pool world reserved.slot _ runtime) (sym same) booted,
        ),
      )
