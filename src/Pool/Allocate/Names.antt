-- ===== src/Pool/Allocate/Names.antt =====
-- An allocation gives a name to one slot only.
use croutond.Base.{
  ℕ, String, ◌≡◌, refl, ◌⊎◌, inl, inr, Bool, false, Option, none, some, is_some, get_elem?, leb,
  arith, Option-cases,
}
use croutond.Types.{SlotStatus, PoolError}
use croutond.Slot.{reserve_vm, get_vm_status, Os, handle_command}
use croutond.Slot.Worker.{Phase, Config, live, stopped, initial}
use croutond.Slot.Failure.{runtime}
use croutond.Slot.Handle.{SlotHandle, initialize_slot}
use croutond.Pool.{
  ProcessPool, Env, Outcome, returned, raised, pending, continue, ◌>>=◌, deliver, size, push_slots,
  ask, pass_time, find_vm_slot_status_by_name, allocate_unless, allocate_vm_slot,
}
use croutond.Pool.Keeps.{AskKeeps, ask_found, ask_missing, sent, find_vm_slot_status_by_name-Keeps}
use croutond.Pool.Names.{Fades, IsTame}
use croutond.Pool.Names.Distinct.{
  IsFree, AreDistinct, AllFade-set, IsFree-AllFade, AreDistinct-AllFade, AreDistinct-set,
  IsFree-append, AreDistinct-append,
}
use croutond.Pool.Allocate.{allocate_unless-Leads}
use croutond.Pool.Names.Fading.{pass_slots_fade, ask_fade_Keeps, AreDistinct-Keeps}
use croutond.Pool.Names.Listing.{NameIsFree, found_none}

reserve_name :
    (os : Os) (name mac tap : String) (c : Config) (phase : Phase)
    → ((runtime (deliver os (reserve_vm name mac tap) c phase).1).status.name ≡ some name)
      ⊎ Fades
          (runtime phase).status.name
          (runtime (deliver os (reserve_vm name mac tap) c phase).1).status.name
unfolding deliver handle_command
reserve_name os name mac tap c (stopped rt) = inr (inr refl)
reserve_name os name mac tap c (live rt) = ground arith

module _ (env : Env) (tame : IsTame env) where
  module _ (name : String) where
    taken :
        (mac tap : String) (slot : ℕ) (p : ProcessPool) (h : SlotHandle)
        → get_elem? (pass_time env p).slots slot ≡ some h
        → AreDistinct (pass_time env p).slots
        → IsFree name (pass_time env p).slots
        → AreDistinct (sent env p.time slot (reserve_vm name mac tap) h (pass_time env p).slots)
    taken mac tap slot p h e d f =
        elim (reserve_name (env.os p.time) name mac tap h.config h.phase) [
          | inl named ↦ AreDistinct-set name _ slot _ named f d
          | inr fades ↦ AreDistinct-AllFade _ _ (AllFade-set _ slot h _ e fades) d
        ]

    reserve-AreDistinct :
        (mac tap : String) (slot : ℕ) (p : ProcessPool)
        → NameIsFree name p
        → AreDistinct (ask env slot (reserve_vm name mac tap) p).1.slots
    unfolding pass_time
    reserve-AreDistinct mac tap slot p (d, f) =
        let passed = pass_slots_fade (env.background p.time) 0 p.slots (tame p.time) in
        elim (Option-cases (get_elem? (pass_time env p).slots slot)) [
          | inl e ↦ rw (ask_missing env slot (reserve_vm name mac tap) p e) d
          | inr (h, e) ↦ rw (ask_found env slot (reserve_vm name mac tap) p h e) (
              taken mac tap slot p h e (AreDistinct-AllFade _ _ passed d)
                (IsFree-AllFade name _ _ passed f))
        ]

    NameIsFree-Keeps : AskKeeps env (NameIsFree name) get_vm_status
    NameIsFree-Keeps =
        ask_fade_Keeps env tame (λ hs. AreDistinct hs × IsFree name hs) get_vm_status refl
          λ hs ks f (d, n). (AreDistinct-AllFade hs ks f d, IsFree-AllFade name hs ks f n)

    NameIsFree-push :
        (p : ProcessPool)
        → leb p.max_pool_size (size p) ≡ false
        → NameIsFree name p
        → NameIsFree name (push_slots 1 p)
    unfolding push_slots initialize_slot initial
    NameIsFree-push p below (d, n) =
        (AreDistinct-append p.slots _ refl d, IsFree-append name p.slots _ refl n)

    allocate_free :
        (mac : String) (taken : Bool) (p : ProcessPool)
        → NameIsFree name p
        → AreDistinct (allocate_unless env taken name mac p).1.slots
    allocate_free mac taken p h =
        (allocate_unless-Leads env (NameIsFree name) (λ q. AreDistinct q.slots) (λ q k. k.0)
            NameIsFree-Keeps (AreDistinct-Keeps env tame get_vm_status refl) NameIsFree-push name
            mac (reserve-AreDistinct mac) taken).at
          p h

    allocate_found :
        (mac : String) (p : ProcessPool) (outcome : Outcome PoolError (Option SlotStatus))
        → AreDistinct p.slots
        → (outcome ≡ returned none → IsFree name p.slots)
        → AreDistinct
            (continue outcome (λ found. allocate_unless env (is_some found) name mac) p).1.slots
    unfolding allocate_unless
    allocate_found mac p (returned none) d free = allocate_free mac false p (d, free refl)
    allocate_found mac p (returned (some s)) d free = d
    allocate_found mac p (raised e) d free = d
    allocate_found mac p pending d free = d

-- Allocating a slot gives a name to one slot only: if no two slots carry one name before, none do
-- afterwards, however the call ends and whatever the workers, the VMs and the commands of other tasks
-- do while it waits. Other tasks do not reserve slots meanwhile, since only this call does.
pub allocate_vm_slot-AreDistinct :
    (env : Env) (name mac : String) (p : ProcessPool)
    → IsTame env
    → AreDistinct p.slots
    → AreDistinct (allocate_vm_slot env name mac p).1.slots
unfolding allocate_vm_slot ◌>>=◌
allocate_vm_slot-AreDistinct env name mac p tame d =
    let outcome = (find_vm_slot_status_by_name env name p).0 in
    allocate_found env tame name mac _ outcome
      ((find_vm_slot_status_by_name-Keeps env (λ q. AreDistinct q.slots)
          (AreDistinct-Keeps env tame get_vm_status refl) name).at
        p d)
      λ e. (found_none env tame name p none d e refl).1
