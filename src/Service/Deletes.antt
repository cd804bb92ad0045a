-- ===== src/Service/Deletes.antt =====
-- Deleting a VM: what has happened when it succeeds.
use croutond.Base.{
  ℕ, String, ◌≡◌, refl, ◌∙◌, sym, ap, Option, none, some, [], Bool-cases, inl, inr, subst, arith,
  ◌<◌, if◌then◌else◌,
}
use croutond.Calls.{returned, ◌>>=◌, ◌>>◌, >>=-returned, convert-returned, give, returned-injective}
use croutond.Types.{SlotStatus, ProxyResponse, occupied, state_eq, state_eq_iff}
use croutond.ChClient.{put}
use croutond.Error.{from_pool_error}
use croutond.Facade.{PoolFacade}
use croutond.Service.{
  World, Serve, of_pool, unlock, cleanup_reserved_vm, give_up, refused, send, expect_running,
  find_running, demand, remove_vm, delete_vm_with_pool,
}

-- What happened at a slot that was removed: the VM answered the request to shut down and then the one
-- to be deleted, neither with an error, and then the slot was released, with no other call in between.
abbrev pub HasRemoved : {S : Type 0} → PoolFacade S → ℕ → S → S → Type 0
HasRemoved {S} pool slot s end =
    let shut = pool.request_with_content_type slot put "/api/v1/vm.shutdown" [] none s in
    let gone = pool.request_with_content_type slot put "/api/v1/vm.delete" [] none shut.1 in
    (shutdown : ProxyResponse) × (delete : ProxyResponse) × (released : SlotStatus) × (shut.0
      ≡ returned shutdown)
    × (shutdown.status < 400)
    × (gone.0 ≡ returned delete)
    × (delete.status < 400)
    × ((pool.release_slot slot gone.1).0 ≡ returned released)
    × (end ≡ (pool.release_slot slot gone.1).1)

-- The name was found at a running slot, which was removed.
abbrev pub HasDeleted : {S : Type 0} → PoolFacade S → String → S → S → Type 0
HasDeleted {S} pool name s end =
    (status : SlotStatus) × ((pool.find_slot_by_name name s).0 ≡ returned (some status))
    × (status.state ≡ occupied)
    × HasRemoved pool status.slot (pool.find_slot_by_name name s).1 end

module _ {S : Type 0} (pool : PoolFacade S) (world : World S) where
  expect_running-returned :
      (name : String) (found : Option SlotStatus) (s : S) {status : SlotStatus}
      → (expect_running pool world name found s).0 ≡ returned status
      → (found ≡ some status)
        × (status.state ≡ occupied)
        × ((expect_running pool world name found s).1 ≡ s)
  unfolding expect_running
  expect_running-returned name none s e = cc
  expect_running-returned name (some t) s e = elim (Bool-cases (state_eq t.state occupied)) [
    | inl runs ↦
        let same = returned-injective t _ (rw (runs, expect_running) at e) in
        (
          ap some same,
          ap (λ x. x.state) (sym same) ∙ (state_eq_iff t.state occupied).0 runs,
          rw (runs, expect_running) refl,
        )
    | inr stopped ↦ absurd (cc (rw (stopped, expect_running) at e))
  ]

  pub find_running-returned :
      (name : String) (s : S) {status : SlotStatus}
      → (find_running pool world name s).0 ≡ returned status
      → ((pool.find_slot_by_name name s).0 ≡ returned (some status))
        × (status.state ≡ occupied)
        × ((find_running pool world name s).1 ≡ (pool.find_slot_by_name name s).1)
  unfolding find_running
  find_running-returned name s e =
      let (found, got, step) =
        >>=-returned (of_pool pool world (pool.find_slot_by_name name))
          (expect_running pool world name) s e in
      let (is, runs, kept) = expect_running-returned name found _ (ap (λ x. x.0) (sym step) ∙ e) in
      (convert-returned from_pool_error _ got ∙ ap returned is, runs, ap (λ x. x.1) step ∙ kept)

  give_up_fails {ℓ} :
      {A : Type ℓ} (slot : ℕ) (response : ProxyResponse) (s : S) {a : A}
      → (give_up pool world {A = A} slot response s).0 ≡ returned a
      → ⊥
  unfolding give_up ◌>>=◌
  give_up_fails slot response s e =
      let (_, got, step) =
        >>=-returned (unlock pool world >> cleanup_reserved_vm pool world slot) _ s e in
      cc (ap (λ x. x.0) (sym step) ∙ e)

  -- A step that is taken only where the VM has not answered with an error.
  pub unless_refused {ℓ} :
      {A : Type ℓ} (slot : ℕ) (response : ProxyResponse) (next : Serve S A) (s : S) {a : A}
      → ((if refused pool world response then give_up pool world slot response else next) s).0
        ≡ returned a
      → (response.status < 400)
        × ((if refused pool world response then give_up pool world slot response else next) s
            ≡ next s)
  unless_refused slot response next s e = elim (Bool-cases (refused pool world response)) [
    | inl bad ↦ absurd (give_up_fails slot response s (rw bad at e))
    | inr good ↦ (ground arith, rw good refl)
  ]

  demand-returned :
      (slot : ℕ) (path : String) (s : S)
      → (demand pool world slot path s).0 ≡ returned tt
      → let sent = pool.request_with_content_type slot put path [] none s in
        (response : ProxyResponse) × (sent.0 ≡ returned response)
        × (response.status < 400)
        × ((demand pool world slot path s).1 ≡ sent.1)
  unfolding demand
  demand-returned slot path s e =
      let (response, got, step) = >>=-returned (send pool world slot path [] none) _ s e in
      let (fine, go) = unless_refused slot response (give tt) _ (ap (λ x. x.0) (sym step) ∙ e) in
      (response, convert-returned from_pool_error _ got, fine, ap (λ x. x.1) (step ∙ go))

  remove_vm-HasRemoved :
      (slot : ℕ) (s : S)
      → (remove_vm pool world slot s).0 ≡ returned tt
      → HasRemoved pool slot s (remove_vm pool world slot s).1
  unfolding remove_vm
  remove_vm-HasRemoved slot s e =
      let (_, got₁, step₁) = >>=-returned (demand pool world slot "/api/v1/vm.shutdown") _ s e in
      let (r₁, sent₁, fine₁, kept₁) = demand-returned slot "/api/v1/vm.shutdown" s got₁ in
      let e₁ = rw kept₁ at (ap (λ x. x.0) (sym step₁) ∙ e) in
      let (_, got₂, step₂) = >>=-returned (demand pool world slot "/api/v1/vm.delete") _ _ e₁ in
      let (r₂, sent₂, fine₂, kept₂) = demand-returned slot "/api/v1/vm.delete" _ got₂ in
      let e₂ = rw kept₂ at (ap (λ x. x.0) (sym step₂) ∙ e₁) in
      let (t, got₃, step₃) =
        >>=-returned (of_pool pool world (pool.release_slot slot)) (λ _. give tt) _ e₂ in
      (
        r₁,
        r₂,
        t,
        sent₁,
        fine₁,
        sent₂,
        fine₂,
        convert-returned from_pool_error _ got₃,
        rw (step₁, kept₁, step₂, kept₂, step₃) refl,
      )

  -- A VM is reported as deleted only when its name was found at a running slot, the VM answered the
  -- request to shut down and then the request to be deleted without an error, and then its slot was
  -- released, with no other call of the pool in between.
  pub delete_vm_with_pool-HasDeleted :
      (name : String) (s : S)
      → (delete_vm_with_pool pool world name s).0 ≡ returned tt
      → HasDeleted pool name s (delete_vm_with_pool pool world name s).1
  unfolding delete_vm_with_pool
  delete_vm_with_pool-HasDeleted name s e =
      let (status, got, step) = >>=-returned (find_running pool world name) _ s e in
      let (found, runs, kept) = find_running-returned name s got in
      let whole = step ∙ ap (remove_vm pool world status.slot) kept in
      let removed = remove_vm-HasRemoved status.slot _ (ap (λ x. x.0) (sym whole) ∙ e) in
      (
        status,
        found,
        runs,
        subst (HasRemoved pool status.slot _) (sym (ap (λ x. x.1) whole)) removed,
      )
