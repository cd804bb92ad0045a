-- ===== src/Daemon/Ends.antt =====
-- How `main` of src/main.rs ends with an error.
use croutond.Base.{
  ℕ, zero, suc, ◌-◌, String, ◌≡◌, refl, ◌∙◌, sym, ap, Bool, true, false, some, List, [], ◌∷◌, All,
  leb, last?, init, not, if◌then◌else◌, Bool-cases, Option-cases, inl, inr, ◌⊎◌, Result, ok, err,
  subst,
}
use croutond.Calls.{Call, Outcome, returned, raised, pending, continue, convert, ◌>>=◌, ◌>>◌, give}
use croutond.Calls.Keeps.{Keeps, Keeps-bind, Keeps-give}
use croutond.Types.{empty, PoolError}
use croutond.Error.{display}
use croutond.Slot.{SlotCommand, get_vm_status}
use croutond.Slot.Handle.{SlotHandle, worker_ends}
use croutond.Pool.{ProcessPool, Env, size, is_in, get_vm_slot_status}
use croutond.Pool.Keeps.{AskKeeps, log_pool_occupancy-Keeps}
use croutond.Pool.Size.{ask-frame-Keeps}
use croutond.Pool.Scale.{
  autoscale_tick, remove_last, await_worker, cools_down, join_workers, shutdown,
}
use croutond.Daemon.Start.{Machine, Cli, start, serving, start-IsFresh}
use croutond.Daemon.Main.{
  Turn, tick, requests, ticked, serve_pool, finish, autoscale_turn, take_turns, main,
}

-- No shutdown is sent.
abbrev pub IsUntold : ProcessPool → Type 0
IsUntold p = p.shutdown_tx ≡ false

abbrev is_raised {ℓ} : {E : Type 0} {A : Type ℓ} → Outcome E A → Bool
is_raised (raised e) = true
is_raised _ = false

continue-is_raised {ℓ κ} :
    {S E : Type 0} {A : Type ℓ} {B : Type κ} (o : Outcome E A) (f : A → Call S E B) (s : S)
    → is_raised o ≡ false
    → ((a : A) → is_raised (f a s).0 ≡ false)
    → is_raised (continue o f s).0 ≡ false
continue-is_raised (returned a) f s h k = k a
continue-is_raised (raised e) f s h k = cc
continue-is_raised pending f s h k = refl

convert-is_raised {ℓ} :
    {E F : Type 0} {A : Type ℓ} (f : E → F) (o : Outcome E A)
    → is_raised (convert f o) ≡ is_raised o
convert-is_raised f (returned a) = refl
convert-is_raised f (raised e) = refl
convert-is_raised f pending = refl

ticked-is_raised : (o : Outcome PoolError Bool) → is_raised (ticked o) ≡ false
ticked-is_raised (returned scaled) = refl
ticked-is_raised (raised e) = refl
ticked-is_raised pending = refl

result_cases :
    {A : Type 0} (r : Result String A) → ((a : A) × (r ≡ ok a)) ⊎ ((e : String) × (r ≡ err e))
result_cases (ok a) = inl (a, refl)
result_cases (err e) = inr (e, refl)

module _ (env : Env) where
  ask-IsUntold : (command : SlotCommand) → AskKeeps env IsUntold command
  ask-IsUntold command = ask-frame-Keeps env IsUntold command λ p q same h. same.0 ∙ h

  await_worker-IsUntold : (h : SlotHandle) → Keeps IsUntold (await_worker env false h)
  unfolding await_worker
  await_worker-IsUntold h = record {
    at = λ p untold. elim (Bool-cases (worker_ends p.shutdown_tx false (env.rounds p.time) h)) [
      | inl ends ↦ rw ends untold
      | inr runs ↦ rw runs untold
    ];
  }

  remove_last-IsUntold : Keeps IsUntold (remove_last env)
  unfolding remove_last
  remove_last-IsUntold = record {
    at = λ p untold. elim (Option-cases (last? p.slots)) [
      | inl e ↦ rw (e, remove_last) untold
      | inr (slot, e) ↦
          rw (e, remove_last)
            ((Keeps-bind _ _
                (Keeps-bind _ _
                  (Keeps-bind _ _ (await_worker-IsUntold slot) λ _. record { at = λ q h. h })
                  λ _. log_pool_occupancy-Keeps env IsUntold (ask-IsUntold get_vm_status))
                λ _. Keeps-give true).at
              (record p { slots = init p.slots }) untold)
    ];
  }

  autoscale_tick-IsUntold : Keeps IsUntold (autoscale_tick env)
  unfolding autoscale_tick get_vm_slot_status
  autoscale_tick-IsUntold = record {
    at = λ p untold. elim (Bool-cases (leb (size p) p.min_pool_size)) [
      | inl small ↦ rw (small, autoscale_tick) untold
      | inr large ↦ elim (Bool-cases (cools_down env p)) [
        | inl wait ↦ rw (large, wait, autoscale_tick) untold
        | inr warm ↦
            rw (large, warm, autoscale_tick)
              ((Keeps-bind (get_vm_slot_status env (size p - 1))
                  (λ s. if not (is_in empty s) then give false else remove_last env)
                  (ask-IsUntold get_vm_status (size p - 1))
                  λ s. elim (Bool-cases (is_in empty s)) [
                    | inl e ↦ rw e remove_last-IsUntold
                    | inr e ↦ rw e (Keeps-give false)
                  ]).at
                p untold)
      ]
    ];
  }

  -- No request sends the shutdown.
  abbrev pub SendsNone : Turn → Type 0
  SendsNone tick = Unit
  SendsNone (requests f) = (p : ProcessPool) → (f p).shutdown_tx ≡ p.shutdown_tx

  autoscale_turn-IsUntold : Keeps IsUntold (autoscale_turn env)
  unfolding autoscale_turn
  autoscale_turn-IsUntold = record { at = autoscale_tick-IsUntold.at }

  take_turns-IsUntold :
      (turns : List Turn) → All SendsNone turns → Keeps IsUntold (take_turns env turns)
  unfolding take_turns
  take_turns-IsUntold [] none_sent = Keeps-give tt
  take_turns-IsUntold (tick ∷ turns) (_, none_sent) =
      Keeps-bind _ _ autoscale_turn-IsUntold λ _. take_turns-IsUntold turns none_sent
  take_turns-IsUntold (requests f ∷ turns) (kept, none_sent) = record {
    at = λ p untold. (take_turns-IsUntold turns none_sent).at (f p) (kept p ∙ untold);
  }

  autoscale_turn-is_raised : (p : ProcessPool) → is_raised (autoscale_turn env p).0 ≡ false
  unfolding autoscale_turn
  autoscale_turn-is_raised p = ticked-is_raised (autoscale_tick env p).0

  take_turns-is_raised :
      (turns : List Turn) (p : ProcessPool) → is_raised (take_turns env turns p).0 ≡ false
  unfolding take_turns ◌>>=◌
  take_turns-is_raised [] p = refl
  take_turns-is_raised (tick ∷ turns) p =
      continue-is_raised (autoscale_turn env p).0 (λ _. take_turns env turns)
        (autoscale_turn env p).1 (autoscale_turn-is_raised p)
        λ _. take_turns-is_raised turns (autoscale_turn env p).1
  take_turns-is_raised (requests f ∷ turns) p = take_turns-is_raised turns (f p)

  await_worker-is_raised :
      (h : SlotHandle) (p : ProcessPool) → is_raised (await_worker env false h p).0 ≡ false
  unfolding await_worker
  await_worker-is_raised h p =
      elim (Bool-cases (worker_ends p.shutdown_tx false (env.rounds p.time) h)) [
        | inl ends ↦ rw ends refl
        | inr runs ↦ rw runs refl
      ]

  join_workers-is_raised : (n : ℕ) (p : ProcessPool) → is_raised (join_workers env n p).0 ≡ false
  unfolding join_workers ◌>>=◌
  join_workers-is_raised zero p = refl
  join_workers-is_raised (suc n) p = elim (Option-cases (last? p.slots)) [
    | inl e ↦ rw (e, join_workers) refl
    | inr (h, e) ↦
        rw (e, join_workers)
          (continue-is_raised (await_worker env false h (record p { slots = init p.slots })).0
            (λ _. join_workers env n)
            (await_worker env false h (record p { slots = init p.slots })).1
            (await_worker-is_raised h (record p { slots = init p.slots }))
            λ _. join_workers-is_raised n _)
  ]

  ending-is_raised :
      (turns : List Turn) (p : ProcessPool)
      → is_raised ((take_turns env turns >> shutdown env) p).0 ≡ false
  unfolding shutdown ◌>>=◌
  ending-is_raised turns p =
      continue-is_raised (take_turns env turns p).0 (λ _. shutdown env) (take_turns env turns p).1
        (take_turns-is_raised turns p) λ _. join_workers-is_raised _ _

  -- What an error end of the daemon's serving has left.
  abbrev pub Abandoned : Machine → Cli → String → ProcessPool → Type 0
  Abandoned machine cli e q =
      ((serving machine cli.listen_addr ≡ err e) ⊎ (machine.serve ≡ err e)) × IsUntold q

  module _ (machine : Machine) (cli : Cli) (turns : List Turn) (p : ProcessPool) where
    serve_unbound :
        (x : String)
        → serving machine cli.listen_addr ≡ err x
        → serve_pool env machine cli turns p ≡ (raised x, p)
    serve_unbound x unbound = rw (unbound, serve_pool) refl

    serve_broken :
        (x : String)
        → serving machine cli.listen_addr ≡ ok tt
        → machine.serve ≡ err x
        → serve_pool env machine cli turns p ≡ (raised x, (take_turns env turns p).1)
    serve_broken x bound broke = rw (bound, serve_pool) (rw (broke, finish) refl)

    serve_well :
        serving machine cli.listen_addr ≡ ok tt
        → machine.serve ≡ ok tt
        → (serve_pool env machine cli turns p).0
          ≡ convert display ((take_turns env turns >> shutdown env) p).0
    serve_well bound served = rw (bound, serve_pool) (rw (served, finish) refl)

  serve_pool-Abandoned :
      (machine : Machine) (cli : Cli) (turns : List Turn) (p : ProcessPool) (e : String)
      → All SendsNone turns
      → IsUntold p
      → (serve_pool env machine cli turns p).0 ≡ raised e
      → Abandoned machine cli e (serve_pool env machine cli turns p).1
  serve_pool-Abandoned machine cli turns p e none_sent untold failed =
      elim (result_cases (serving machine cli.listen_addr)) [
        | inr (x, unbound) ↦
            let ends = serve_unbound machine cli turns p x unbound in
            let same : x ≡ e = cc (sym (ap (λ r. r.0) ends) ∙ failed) in
            (inl (unbound ∙ ap err same), ap (λ r. r.1.shutdown_tx) ends ∙ untold)
        | inl (_, bound) ↦ elim (result_cases machine.serve) [
          | inr (x, broke) ↦
              let ends = serve_broken machine cli turns p x bound broke in
              let same : x ≡ e = cc (sym (ap (λ r. r.0) ends) ∙ failed) in
              (
                inr (broke ∙ ap err same),
                ap (λ r. r.1.shutdown_tx) ends ∙ (take_turns-IsUntold turns none_sent).at p untold,
              )
          | inl (_, served) ↦
              let ended = sym (serve_well machine cli turns p bound served) ∙ failed in
              let never =
                convert-is_raised display ((take_turns env turns >> shutdown env) p).0
                ∙ ending-is_raised turns p in
              absurd (cc (sym (ap is_raised ended) ∙ never))
        ]
      ]

  -- A daemon that has come to have a pool and ends with an error, has that error from its listener or
  -- from its server, and leaves the pool without the shutdown sent, which would stop the children,
  -- where no request sends it.
  pub main_error_abandons :
      (machine : Machine) (cli : Cli) (turns : List Turn) (e : String) (q : ProcessPool)
      → All SendsNone turns
      → main env machine cli turns ≡ (raised e, some q)
      → ((serving machine cli.listen_addr ≡ err e) ⊎ (machine.serve ≡ err e))
        × (q.shutdown_tx ≡ false)
  unfolding main
  main_error_abandons machine cli turns e q none_sent ended =
      elim (result_cases (start machine cli)) [
        | inr (x, refused) ↦ absurd (cc (ap (λ r. r.1) (rw (refused, main) at ended)))
        | inl (p, started) ↦
            let ended' = rw (started, main) at ended in
            let fresh = start-IsFresh machine cli p started in
            let left =
              serve_pool-Abandoned machine cli turns p e none_sent fresh.1 (ap (λ r. r.0) ended') in
            let same : (serve_pool env machine cli turns p).1 ≡ q = cc (ap (λ r. r.1) ended') in
            subst (Abandoned machine cli e) same left
      ]
