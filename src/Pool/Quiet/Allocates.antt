-- ===== src/Pool/Quiet/Allocates.antt =====
-- `allocate_vm_slot` against its specification.
use croutond.Base.{
  ℕ, zero, suc, String, ◌≡◌, refl, ◌∙◌, sym, ap, true, false, Bool, none, some, [], ◌∷◌, ◌++◌, set,
  find, arith, find-true, find-append, set-append_last, All-append, Option-cases, Bool-cases, inl,
  inr, leb, is_some, if◌then◌else◌,
}
use croutond.Types.{SlotStatus, empty, vm_already_running}
use croutond.Slot.{reserve_vm, handle_command}
use croutond.Slot.Worker.{initial}
use croutond.Slot.Handle.{initialize_slot}
use croutond.Pool.{
  ProcessPool, Env, returned, raised, ◌>>◌, size, deliver, is_named, is_in, tap_name, list_vm_slots,
  find_vm_slot_status_by_name, reserve_vm_slot, push_slots, extend, allocate_step, allocate_loop,
  allocate_unless, allocate_vm_slot,
}
use croutond.Pool.Invariant.{push_slots-IsValid}
use croutond.Pool.Quiet.{IsQuiet, IsLive, IsUp, view, later, bind_to, list_quiet, log_quiet}
use croutond.Pool.Quiet.Spec.{reservation, spec_reserve, spec_allocate, MakesTaps}
use croutond.Pool.Quiet.Places.{view-append, length-view, find_placed, shown, Takes, command_shown}

room : (size n : ℕ) → leb n size ≡ false → (m : ℕ) × (n ≡ suc m)
room size zero h = absurd (ground arith)
room size (suc m) h = (m, refl)

-- The pool with one slot more.
pub push_slots-IsUp : (p : ProcessPool) → IsUp p → IsUp (push_slots 1 p)
unfolding push_slots initialize_slot
push_slots-IsUp p (valid, alive) =
    (push_slots-IsValid 1 p valid, All-append IsLive p.slots _ alive ((_, refl), tt))

module _ (env : Env) (quiet : IsQuiet env) (taps : MakesTaps env) (name mac : String) where
  -- A worker whose slot is empty takes the reservation.
  Takes-reservation :
      (s : SlotStatus)
      → is_in empty s ≡ true
      → Takes env (reserve_vm name mac (tap_name env s.slot)) s (reservation name mac s)
  unfolding deliver handle_command
  Takes-reservation s vacant time c child =
      (child, rw (vacant, taps time (tap_name env s.slot) c.bridge) refl)

  -- The first empty slot is reserved.
  reserve_quiet :
      (p : ProcessPool) (s : SlotStatus)
      → IsUp p
      → find (is_in empty) (view p.slots) ≡ some s
      → shown (reserve_vm_slot env s.slot name mac (tap_name env s.slot) p)
        ≡ (returned (reservation name mac s), set (view p.slots) s.slot (reservation name mac s))
  unfolding reserve_vm_slot
  reserve_quiet p s (valid, alive) e =
      command_shown env (reserve_vm name mac (tap_name env s.slot)) s.slot s
        (reservation name mac s) p quiet alive (find_placed (is_in empty) p.slots s valid e)
        (Takes-reservation s (find-true (is_in empty) (view p.slots) s e))

  -- A round of the loop that finds an empty slot.
  loop_found :
      (n : ℕ) (p : ProcessPool) (s : SlotStatus)
      → IsUp p
      → find (is_in empty) (view p.slots) ≡ some s
      → shown (allocate_loop env (suc n) name mac p)
        ≡ (returned (reservation name mac s), set (view p.slots) s.slot (reservation name mac s))
  unfolding allocate_loop allocate_step
  loop_found n p s (valid, alive) e =
      let (time, listed) = list_quiet env quiet p alive in
      let again = allocate_loop env n name mac in
      ap shown (
        bind_to (list_vm_slots env) _ p (view p.slots) (later p time) listed
        ∙ ap (λ found. allocate_step env found again name mac (later p time)) e)
      ∙ reserve_quiet (later p time) s (valid, alive) e

  -- The statuses with one slot more, and the new slot reserved.
  view_grown :
      (p : ProcessPool)
      → view (push_slots 1 p).slots ≡ view p.slots ++ (initial (size p)).status ∷ []
  unfolding push_slots initialize_slot
  view_grown p = view-append p.slots _

  found_grown :
      (p : ProcessPool)
      → find (is_in empty) (view p.slots) ≡ none
      → find (is_in empty) (view (push_slots 1 p).slots) ≡ some (initial (size p)).status
  unfolding initial
  found_grown p e =
      ap (find (is_in empty)) (view_grown p)
      ∙ find-append (is_in empty) (view p.slots) (initial (size p)).status e refl

  reserved_grown :
      (p : ProcessPool)
      → let fresh = (initial (size p)).status in
        set (view (push_slots 1 p).slots) fresh.slot (reservation name mac fresh)
        ≡ view p.slots ++ reservation name mac fresh ∷ []
  unfolding initial
  reserved_grown p =
      let fresh = (initial (size p)).status in
      ap (λ ss. set ss (size p) (reservation name mac fresh)) (view_grown p)
      ∙ ap (λ n. set (view p.slots ++ fresh ∷ []) n (reservation name mac fresh))
          (sym (length-view p.slots))
      ∙ set-append_last (view p.slots) fresh (reservation name mac fresh)

  -- With no empty slot, one is added where there is room, and reserved in the next round.
  grow_quiet :
      (m : ℕ) (p : ProcessPool)
      → IsUp p
      → find (is_in empty) (view p.slots) ≡ none
      → let new = reservation name mac (initial (size p)).status in
        shown ((extend env 1 >> allocate_loop env (suc m) name mac) p)
        ≡ (returned new, view p.slots ++ new ∷ [])
  unfolding extend
  grow_quiet m p up e =
      let new = reservation name mac (initial (size p)).status in
      let grown = push_slots 1 p in
      let up' = push_slots-IsUp p up in
      let (time, added) = log_quiet env quiet grown up'.1 in
      ap shown (bind_to (extend env 1) _ p tt (later grown time) added)
      ∙ loop_found m (later grown time) (initial (size p)).status up' (found_grown p e)
      ∙ ap (λ ss. (returned new, ss)) (reserved_grown p)

  none_quiet :
      (n : ℕ) (p : ProcessPool)
      → IsUp p
      → p.max_pool_size ≡ n
      → find (is_in empty) (view p.slots) ≡ none
      → shown (allocate_step env none (allocate_loop env n name mac) name mac p)
        ≡ spec_reserve p.max_pool_size name mac none (view p.slots)
  unfolding allocate_step
  none_quiet n p up limit e = elim (Bool-cases (leb p.max_pool_size (size p))) [
    | inl full ↦ rw (length-view p.slots, full, allocate_step) refl
    | inr below ↦
        rw (length-view p.slots, below, allocate_step)
          (let (m, more) = room (size p) n (rw limit at below) in rw more (grow_quiet m p up e))
  ]

  loop_quiet :
      (n : ℕ) (p : ProcessPool)
      → IsUp p
      → p.max_pool_size ≡ n
      → shown (allocate_loop env (suc n) name mac p)
        ≡ spec_reserve p.max_pool_size name mac (find (is_in empty) (view p.slots)) (view p.slots)
  unfolding allocate_loop
  loop_quiet n p (valid, alive) limit = elim (Option-cases (find (is_in empty) (view p.slots))) [
    | inr (s, e) ↦ rw e (loop_found n p s (valid, alive) e)
    | inl e ↦
        (let (time, listed) = list_quiet env quiet p alive in
          let again = allocate_loop env n name mac in
          ap shown (
            bind_to (list_vm_slots env) _ p (view p.slots) (later p time) listed
            ∙ ap (λ found. allocate_step env found again name mac (later p time)) e)
          ∙ none_quiet n (later p time) (valid, alive) limit e
          ∙ ap (λ found. spec_reserve p.max_pool_size name mac found (view p.slots)) (sym e))
  ]

  decided :
      (taken : Bool) (p : ProcessPool)
      → IsUp p
      → shown (allocate_unless env taken name mac p) ≡ (
          if taken
          then (raised (vm_already_running name), view p.slots)
          else spec_reserve p.max_pool_size name mac
              (find (is_in empty) (view p.slots))
              (view p.slots))
  unfolding allocate_unless
  decided true p up = refl
  decided false p up = loop_quiet p.max_pool_size p up refl

-- With nothing else going on and devices that can be made, an allocation in a pool of valid slots
-- whose workers run returns, and does to the statuses of the slots, what the specification says: it
-- refuses a name that is in use; it reserves the first empty slot, or a slot added at the end; or it
-- refuses where there is none and the pool is at its maximum.
pub allocate_vm_slot_refines :
    (env : Env) (name mac : String) (p : ProcessPool)
    → IsQuiet env
    → MakesTaps env
    → IsUp p
    → shown (allocate_vm_slot env name mac p)
      ≡ spec_allocate p.max_pool_size name mac (view p.slots)
unfolding allocate_vm_slot find_vm_slot_status_by_name allocate_unless
allocate_vm_slot_refines env name mac p quiet taps (valid, alive) =
    let (time, listed) = list_quiet env quiet p alive in
    let found = find (is_named name) (view p.slots) in
    let looked : find_vm_slot_status_by_name env name p ≡ (returned found, later p time) =
      bind_to (list_vm_slots env) _ p (view p.slots) (later p time) listed in
    ap shown (bind_to (find_vm_slot_status_by_name env name) _ p found (later p time) looked)
    ∙ decided env quiet taps name mac (is_some found) (later p time) (valid, alive)
