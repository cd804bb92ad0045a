-- ===== src/Pool/Scale/Hangs.antt =====
-- Scaling down awaits a worker whose command sender it still holds.
use croutond.Base.{
  ◌≡◌, refl, List, [], ◌∷◌, arith, init, map, true, false, some, ◌∙◌, last?, last?-get_elem?, ◌-◌,
  ◌<◌,
}
use croutond.Types.{SlotStatus, empty}
use croutond.Slot.{get_vm_status}
use croutond.Slot.Worker.{Round, Phase, live, stopped, supervise}
use croutond.Slot.Ending.{is_live, supervise-live, all_ordinary, is_ordinary}
use croutond.Slot.Handle.{SlotHandle, round_as_seen, worker_ends}
use croutond.Pool.{ProcessPool, Env, returned, pending, size, ◌>>=◌, get_vm_slot_status, ask}
use croutond.Pool.Size.{ask_live, ask-size, ask-SameFrame}
use croutond.Pool.Scale.{await_worker, autoscale_tick, cools_down, remove_last}

-- While the pool keeps both senders, no round that a worker sees ends its loop.
round_as_seen_ordinary : (r : Round) → is_ordinary (round_as_seen false false r) ≡ true
round_as_seen_ordinary r = ground arith

rounds_as_seen_ordinary :
    (rounds : List Round) → all_ordinary (map (round_as_seen false false) rounds) ≡ true
rounds_as_seen_ordinary [] = refl
rounds_as_seen_ordinary (r ∷ rounds) =
    rw (round_as_seen_ordinary r) (rounds_as_seen_ordinary rounds)

supervise_unflagged :
    (rounds : List Round) (h : SlotHandle) (phase : Phase)
    → is_live phase ≡ true
    → is_live (supervise h.config (map (round_as_seen false false) rounds) phase) ≡ true
supervise_unflagged rounds h (live rt) e =
    supervise-live h.config _ rt ∙ rounds_as_seen_ordinary rounds
supervise_unflagged rounds h (stopped rt) e = cc

module _ (env : Env) where
  await_worker_hangs :
      (h : SlotHandle) (p : ProcessPool)
      → p.shutdown_tx ≡ false
      → is_live h.phase ≡ true
      → await_worker env false h p ≡ (pending, p)
  unfolding await_worker worker_ends
  await_worker_hangs h p f e = rw (f, supervise_unflagged (env.rounds p.time) h h.phase e) refl

  remove_last_hangs :
      (h : SlotHandle) (p : ProcessPool)
      → p.shutdown_tx ≡ false
      → last? p.slots ≡ some h
      → is_live h.phase ≡ true
      → (remove_last env p).0 ≡ pending
  unfolding remove_last ◌>>=◌
  remove_last_hangs h p f found e =
      let p' : ProcessPool = record p { slots = init p.slots } in
      rw (found, remove_last) (rw (await_worker_hangs h p' f e) refl)

-- Above the minimum, with no cooldown and an empty last slot, a tick goes on to remove that slot.
autoscale_tick_removes :
    (env : Env) (p : ProcessPool) (s : SlotStatus)
    → p.min_pool_size < size p
    → cools_down env p ≡ false
    → (get_vm_slot_status env (size p - 1) p).0 ≡ returned s
    → s.state ≡ empty
    → (autoscale_tick env p).0 ≡ (remove_last env (get_vm_slot_status env (size p - 1) p).1).0
unfolding autoscale_tick ◌>>=◌
autoscale_tick_removes env p s above warm answered e = ground arith

-- A scale-down never completes: whenever the pool is above its minimum, no cooldown runs and the
-- last slot answers that it is empty, the tick waits for ever for the worker of that slot, since the
-- sender whose end would stop the worker is dropped only after the wait. No shutdown has been sent.
pub autoscale_tick_hangs :
    (env : Env) (p : ProcessPool) (s : SlotStatus)
    → p.shutdown_tx ≡ false
    → p.min_pool_size < size p
    → cools_down env p ≡ false
    → (get_vm_slot_status env (size p - 1) p).0 ≡ returned s
    → s.state ≡ empty
    → (autoscale_tick env p).0 ≡ pending
unfolding get_vm_slot_status
autoscale_tick_hangs env p s f above warm answered e =
    let q = (ask env (size p - 1) get_vm_status p).1 in
    let (h, found, alive) = ask_live env (size p - 1) get_vm_status p answered in
    let same = (ask-size env (size p) get_vm_status (size p - 1)).at p refl in
    let is_last = last?-get_elem? q.slots (size p - 1) (omega arith) ∙ found in
    autoscale_tick_removes env p s above warm answered e
    ∙ remove_last_hangs env h q ((ask-SameFrame env (size p - 1) get_vm_status p).0 ∙ f) is_last
        alive
