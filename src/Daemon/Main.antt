-- ===== src/Daemon/Main.antt =====
-- src/main.rs: `main`, with the task that scales the pool, and how it ends.
use croutond.Base.{
  ℕ, String, ◌≡◌, ◌≢◌, refl, Bool, false, Option, none, some, List, [], ◌∷◌, Result, ok, err, ◌<◌,
  ◌-◌,
}
use croutond.Calls.{Outcome, returned, raised, pending, ◌>>=◌, ◌>>◌, give, convert}
use croutond.Types.{SlotStatus, empty, PoolError}
use croutond.Error.{display}
use croutond.Pool.{ProcessPool, Env, PoolCall, size, get_vm_slot_status}
use croutond.Pool.Scale.{autoscale_tick, shutdown, cools_down}
use croutond.Pool.Scale.Hangs.{autoscale_tick_hangs}
use croutond.Pool.Scale.Joins.{shutdown_ends}
use croutond.Daemon.Start.{Machine, Cli, start, serving}

-- While the server runs, the autoscale task and the requests take the lock of the pool in turns.
pub data Turn : Type 0 where
  tick : Turn
  requests : (ProcessPool → ProcessPool) → Turn

-- An error of a tick is logged.
abbrev pub ticked : Outcome PoolError Bool → Outcome PoolError (Unit {0})
ticked (returned scaled) = returned tt
ticked (raised error) = returned tt
ticked pending = pending

module _ (env : Env) where
  -- The body of the `loop` of the autoscale task, under the write lock.
  unfoldable pub autoscale_turn : PoolCall (Unit {0})
  autoscale_turn p = let (outcome, q) = autoscale_tick env p in (ticked outcome, q)

  -- A turn that never ends keeps the lock, so no other turn follows.
  unfoldable pub take_turns : List Turn → PoolCall (Unit {0})
  take_turns [] = give tt
  take_turns (tick ∷ turns) = autoscale_turn >> take_turns turns
  take_turns (requests f ∷ turns) = λ p. take_turns turns (f p)

  -- From the server's end on: the lock is taken for the shutdown.
  abbrev pub finish :
      Result String (Unit {0}) → List Turn → ProcessPool → Outcome String (Unit {0}) × ProcessPool
  finish (err error) turns p = (raised error, (take_turns turns p).1)
  finish (ok _) turns p =
      let (outcome, q) = (take_turns turns >> shutdown env) p in (convert display outcome, q)

  abbrev pub serve_pool :
      Machine → Cli → List Turn → ProcessPool → Outcome String (Unit {0}) × ProcessPool
  serve_pool machine cli turns p = elim (serving machine cli.listen_addr) [
    | err error ↦ (raised error, p)
    | ok _ ↦ finish machine.serve turns p
  ]

  -- `main`: its result, and the pool that it leaves, if it came to have one.
  unfoldable pub main : Machine → Cli → List Turn → Outcome String (Unit {0}) × Option ProcessPool
  main machine cli turns = elim (start machine cli) [
    | err error ↦ (raised error, none)
    | ok p ↦ (let (outcome, q) = serve_pool machine cli turns p in (outcome, some q))
  ]

  -- The daemon that has started and whose server has ended well has shut its pool down, with no slot
  -- left, where the turns before came to an end and each worker that is awaited runs at all.
  pub main_shuts_down :
      (machine : Machine) (cli : Cli) (turns : List Turn) (p : ProcessPool)
      → ((t : ℕ) → env.rounds t ≢ [])
      → start machine cli ≡ ok p
      → serving machine cli.listen_addr ≡ ok tt
      → machine.serve ≡ ok tt
      → (take_turns turns p).0 ≡ returned tt
      → (q : ProcessPool) × (main machine cli turns ≡ (returned tt, some q)) × (q.slots ≡ [])
  unfolding main ◌>>=◌
  main_shuts_down machine cli turns p runs started bound served took =
      let (ended, left) = shutdown_ends env (take_turns turns p).1 runs in
      (
        (shutdown env (take_turns turns p).1).1,
        rw (started, main) (rw (bound, serve_pool) (rw (served, finish) (rw (took, ended) refl))),
        left,
      )

  -- A scale-down hangs the daemon: where, after some requests, the autoscale task finds the pool above
  -- its minimum, with no cooldown and with a last slot that answers that it is empty, its tick keeps the
  -- lock for ever; the end of the server does not bring the shutdown about, and `main` never returns.
  pub main_hangs :
      (machine : Machine) (cli : Cli) (f : ProcessPool → ProcessPool) (turns : List Turn)
      (p : ProcessPool) (s : SlotStatus)
      → start machine cli ≡ ok p
      → serving machine cli.listen_addr ≡ ok tt
      → machine.serve ≡ ok tt
      → (f p).shutdown_tx ≡ false
      → (f p).min_pool_size < size (f p)
      → cools_down env (f p) ≡ false
      → (get_vm_slot_status env (size (f p) - 1) (f p)).0 ≡ returned s
      → s.state ≡ empty
      → (main machine cli (requests f ∷ tick ∷ turns)).0 ≡ pending
  unfolding main take_turns autoscale_turn ◌>>=◌
  main_hangs machine cli f turns p s started bound served flag above warm answered e =
      let hung = autoscale_tick_hangs env (f p) s flag above warm answered e in
      rw (started, main) (rw (bound, serve_pool) (rw (served, finish) (rw hung refl)))
