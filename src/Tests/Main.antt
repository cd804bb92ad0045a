-- ===== src/Tests/Main.antt =====
-- The daemon's start and end.
use croutond.Base.{◌⊎◌, false, ◌≡◌, ◌↔◌, refl, none, some, [], ◌∷◌, ok, err, arith, true}
use croutond.Daemon.Start.{
  serving, Machine, Cli, v6, present, bind, start, parse_env_args, bind_listener, CanStart, IsFresh,
  start_iff,
}
use croutond.Daemon.Ends.{main_error_abandons}
use croutond.Calls.{pending, returned, raised}
use croutond.Slot.{handle_command}
use croutond.Slot.Worker.{initial}
use croutond.Slot.Micro.{advance}
use croutond.Slot.Handle.{initialize_slot}
use croutond.Pool.{ProcessPool, push_slots, ask, deliver, pass_time, get_vm_slot_status}
use croutond.Pool.Scale.{spawn_pool, new_pool}
use croutond.Daemon.{pool_bounds}
use croutond.Daemon.Main.{tick, requests, take_turns, main, main_shuts_down, main_hangs}
use croutond.Tests.Data.{env, pool, idle_status}

abbrev machine : Machine
machine = record {
  env_args = present "--seccomp false";
  split = λ text. some ("--seccomp" ∷ "false" ∷ []);
  create_dir_all = λ path. ok tt;
  listens = λ call. ok tt;
  serve = ok tt;
}

abbrev cli : Cli
cli = record {
  pool_size = 1;
  max_pool_size = some 3;
  scale_down_cooldown_secs = 15;
  autoscale_interval_ms = 1000;
  runtime_dir = "/tmp";
  ch_bin = "cloud-hypervisor";
  bridge = none;
  listen_addr = v6 true "[::]:7777";
}

abbrev started : ProcessPool
started = push_slots 1 (new_pool 1 3 15 "cloud-hypervisor" ("--seccomp" ∷ "false" ∷ []) none "/tmp")

cli_starts : start machine cli ≡ ok started
unfolding start pool_bounds parse_env_args spawn_pool
cli_starts = refl

cli_listens : bind_listener machine cli.listen_addr ≡ ok tt
unfolding bind_listener
cli_listens = refl

start_iff_example :
    ((p : ProcessPool) × (start machine cli ≡ ok p) × IsFresh cli p) ↔ CanStart machine cli
start_iff_example = start_iff machine cli

main_shuts_down_example :
    (q : ProcessPool) × (main env machine cli [] ≡ (returned tt, some q)) × (q.slots ≡ [])
unfolding bind_listener take_turns
main_shuts_down_example =
    main_shuts_down env machine cli [] started (λ t. λ e. cc) cli_starts refl refl refl

main_hangs_example : (main env machine cli (requests (λ p. pool) ∷ tick ∷ [])).0 ≡ pending
unfolding bind_listener get_vm_slot_status ask deliver pass_time push_slots initialize_slot initial
    advance handle_command
main_hangs_example =
    main_hangs env machine cli (λ p. pool) [] started
      (record idle_status { slot = 1; generation = 0; pid = none }) cli_starts refl refl refl
      (omega arith) refl refl refl

-- The port is taken.
abbrev unbound : Machine
unbound = record machine {
  listens = λ call. elim call [ bind addr ↦ err "Address already in use" | _ ↦ ok tt ];
}

main_ends_unbound :
    main env unbound cli (tick ∷ []) ≡ (raised "Address already in use", some started)
unfolding main bind_listener start pool_bounds parse_env_args spawn_pool
main_ends_unbound = refl

main_error_abandons_example :
    ((serving unbound cli.listen_addr ≡ err "Address already in use")
      ⊎ (unbound.serve ≡ err "Address already in use"))
    × (started.shutdown_tx ≡ false)
main_error_abandons_example =
    main_error_abandons env unbound cli (tick ∷ []) "Address already in use" started (tt, tt)
      main_ends_unbound
