-- ===== src/Service/Frees.antt =====
-- Deleting a VM of the process pool gives its name back.
use croutond.Base.{ℕ, String, ◌≡◌, sym, Option, none, List, [], subst}
use croutond.Calls.{returned}
use croutond.ChClient.{put, Method}
use croutond.Pool.{
  ProcessPool, Env, pass_time, find_vm_slot_status_by_name, proxy_vm_request_with_content_type,
}
use croutond.Pool.Invariant.{PoolIsValid}
use croutond.Pool.Names.{IsTame}
use croutond.Pool.Names.Distinct.{IsFree, AreDistinct}
use croutond.Pool.Names.Fading.{pass_slots_fade, IsFreeAt-AllFade}
use croutond.Pool.Names.Found.{IsOnlyAt, found-IsOnlyAt, release_vm_slot-IsFree}
use croutond.Facade.{process_pool}
use croutond.Service.{World, delete_vm_with_pool}
use croutond.Service.Deletes.{delete_vm_with_pool-HasDeleted}

-- A request to a VM takes time, in which names only fade.
request-IsOnlyAt :
    (env : Env) (name : String) (i slot : ℕ) (method : Method) (path : String) (body : List ℕ)
    (content_type : Option String) (p : ProcessPool)
    → IsTame env
    → IsOnlyAt name i p.slots
    → IsOnlyAt name i
        (proxy_vm_request_with_content_type env slot method path body content_type p).1.slots
unfolding proxy_vm_request_with_content_type pass_time
request-IsOnlyAt env name i slot method path body content_type p tame only j differs =
    IsFreeAt-AllFade name j p.slots _
      (pass_slots_fade (env.background p.time) 0 p.slots (tame p.time)) (only j differs)

-- When a VM has been deleted with success, no slot of the pool carries its name any more: it can be
-- used again. This holds for a pool whose slots are valid and carry distinct names, where meanwhile no
-- other task reserves a slot (the lock is held throughout), and whatever else the workers, the VMs and
-- the operating system do.
pub delete_vm_with_pool-IsFree :
    (env : Env) (world : World ProcessPool) (name : String) (p : ProcessPool)
    → IsTame env
    → PoolIsValid p
    → AreDistinct p.slots
    → (delete_vm_with_pool (process_pool env) world name p).0 ≡ returned tt
    → IsFree name (delete_vm_with_pool (process_pool env) world name p).1.slots
delete_vm_with_pool-IsFree env world name p tame valid distinct e =
    let (status, found, _, removed) =
      delete_vm_with_pool-HasDeleted (process_pool env) world name p e in
    let (_, _, released, _, _, _, _, freed, end) = removed in
    let request =
      λ (path : String). proxy_vm_request_with_content_type env status.slot put path [] none in
    let only = found-IsOnlyAt env tame name p status valid distinct found in
    let p₁ = (find_vm_slot_status_by_name env name p).1 in
    let only₁ =
      request-IsOnlyAt env name status.slot status.slot put "/api/v1/vm.shutdown" [] none p₁ tame
        only in
    let p₂ = (request "/api/v1/vm.shutdown" p₁).1 in
    let only₂ =
      request-IsOnlyAt env name status.slot status.slot put "/api/v1/vm.delete" [] none p₂ tame
        only₁ in
    subst (λ (q : ProcessPool). IsFree name q.slots) (sym end)
      (release_vm_slot-IsFree env tame name status.slot _ released only₂ freed)
