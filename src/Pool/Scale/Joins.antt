-- ===== src/Pool/Scale/Joins.antt =====
-- Shutting down ends every worker.
use croutond.Base.{
  ℕ, zero, suc, ◌≡◌, ◌≢◌, refl, List, [], ◌∷◌, arith, length, init, length-init, last?-get_elem?,
  get_elem?_total, map, true, false, Bool, ◌∙◌,
}
use croutond.Slot.Worker.{Round, Phase, live, stopped, supervise}
use croutond.Slot.Ending.{is_live, supervise-live, supervise_stopped}
use croutond.Slot.Handle.{SlotHandle, round_as_seen, worker_ends}
use croutond.Pool.{ProcessPool, Env, returned, size, ◌>>=◌}
use croutond.Pool.Scale.{await_worker, join_workers, shutdown}

nil_of_length : (hs : List SlotHandle) → length hs ≡ 0 → hs ≡ []
nil_of_length [] e = refl
nil_of_length (h ∷ hs) e = absurd (omega arith)

supervise_flagged :
    (dropped : Bool) (rounds : List Round) (h : SlotHandle) (phase : Phase)
    → rounds ≢ []
    → is_live (supervise h.config (map (round_as_seen true dropped) rounds) phase) ≡ false
supervise_flagged dropped [] h phase n = absurd (n refl)
supervise_flagged dropped (r ∷ rounds) h (live rt) n = supervise-live h.config _ rt
supervise_flagged dropped (r ∷ rounds) h (stopped rt) n = rw (supervise_stopped h.config _ rt)

worker_ends_flagged :
    (dropped : Bool) (rounds : List Round) (h : SlotHandle)
    → rounds ≢ []
    → worker_ends true dropped rounds h ≡ true
unfolding worker_ends
worker_ends_flagged dropped rounds h n = rw (supervise_flagged dropped rounds h h.phase n)

module _ (env : Env) (run : (t : ℕ) → env.rounds t ≢ []) where
  await_worker_ends :
      (h : SlotHandle) (p : ProcessPool)
      → p.shutdown_tx ≡ true
      → await_worker env false h p ≡ (returned tt, record p { time = suc p.time })
  unfolding await_worker
  await_worker_ends h p f =
      rw (f, worker_ends_flagged false (env.rounds p.time) h (run p.time)) refl

  join_workers_ends :
      (n : ℕ) (p : ProcessPool)
      → p.shutdown_tx ≡ true
      → size p ≡ n
      → ((join_workers env n p).0 ≡ returned tt) × ((join_workers env n p).1.slots ≡ [])
  unfolding join_workers ◌>>=◌
  join_workers_ends zero p f e = (refl, nil_of_length p.slots e)
  join_workers_ends (suc n) p f e =
      let (h, found) = get_elem?_total p.slots n (omega arith) in
      let p' : ProcessPool = record p { slots = init p.slots } in
      let ends =
        join_workers_ends n (record p' { time = suc p.time }) f (length-init p.slots n e) in
      rw (last?-get_elem? p.slots n e ∙ found, join_workers) (rw (await_worker_ends h p' f) ends)

-- Shutting down returns with no slot left, whatever the workers were doing, if each worker that is
-- awaited gets to run at all: the flag that is broadcast first ends it in its next round.
pub shutdown_ends :
    (env : Env) (p : ProcessPool)
    → ((t : ℕ) → env.rounds t ≢ [])
    → ((shutdown env p).0 ≡ returned tt) × ((shutdown env p).1.slots ≡ [])
unfolding shutdown
shutdown_ends env p run = join_workers_ends env run (size p) _ refl refl
