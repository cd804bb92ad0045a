-- ===== src/Daemon/Start.antt =====
-- src/main.rs: the start of the daemon. Logging and the parsing of the options are left out: `Cli` holds the values that the options were read as.
use croutond.Base.{
  ℕ, String, ◌≡◌, refl, ◌∙◌, Bool, true, false, Option, List, [], ◌∷◌, Result, ok, err, ok_or,
  ◌>>=◌, ◌>>◌, ltb, ◌≤◌, ◌↔◌, >>=-ok, ok_injective, sym, subst, zero, suc, arith,
}
use croutond.Pool.{push_slots, ProcessPool, size}
use croutond.Pool.Scale.{new_pool, spawn_pool}
use croutond.Pool.Size.{size-push_slots}
use croutond.Daemon.{pool_bounds, unwrap_or}

-- Of an IPv6 address it matters whether it is the unspecified one.
pub data SocketAddr : Type 0 where
  v4 : String → SocketAddr
  v6 : Bool → String → SocketAddr

pub record Cli : Type 0 where
  pub pool_size : ℕ
  pub max_pool_size : Option ℕ
  pub scale_down_cooldown_secs : ℕ
  pub autoscale_interval_ms : ℕ
  pub runtime_dir : String
  pub ch_bin : String
  pub bridge : Option String
  pub listen_addr : SocketAddr

-- The answers of `std::env::var`.
pub data Var : Type 0 where
  present : String → Var
  not_present : Var
  not_unicode : Var

-- The calls that make the listener.
pub data Listen : Type 0 where
  tokio_bind : SocketAddr → Listen
  new_socket : Listen
  set_reuse_address : Bool → Listen
  set_only_v6 : Bool → Listen
  bind : SocketAddr → Listen
  listen : ℕ → Listen
  set_nonblocking : Bool → Listen
  from_std : Listen
  local_addr : Listen

-- The environment variable, shlex, the file system, sockets, and how `axum::serve` ends.
pub record Machine : Type 0 where
  pub env_args : Var
  pub split : String → Option (List String)
  pub create_dir_all : String → Result String (Unit {0})
  pub listens : Listen → Result String (Unit {0})
  pub serve : Result String (Unit {0})

unfoldable pub parse_env_args : Machine → Result String (List String)
parse_env_args machine = elim machine.env_args [
  | present raw_args ↦
      ok_or (machine.split raw_args)
        "invalid CLOUD_HYPERVISOR_ARGS: could not parse shell-style arguments"
  | not_present ↦ ok []
  | not_unicode ↦ err "invalid CLOUD_HYPERVISOR_ARGS: value is not valid Unicode"
]

abbrev listen_calls : SocketAddr → List Listen
listen_calls (v6 true addr) =
    new_socket
    ∷ set_reuse_address true
    ∷ set_only_v6 false
    ∷ bind (v6 true addr)
    ∷ listen 1024
    ∷ set_nonblocking true
    ∷ from_std
    ∷ []
listen_calls addr = tokio_bind addr ∷ []

-- Each call with `?`.
all_listen : Machine → List Listen → Result String (Unit {0})
all_listen machine [] = ok tt
all_listen machine (call ∷ calls) = machine.listens call >>= λ _. all_listen machine calls

unfoldable pub bind_listener : Machine → SocketAddr → Result String (Unit {0})
unfolding all_listen
bind_listener machine addr = all_listen machine (listen_calls addr)

-- The listener that is served, with its address for the log.
abbrev pub serving : Machine → SocketAddr → Result String (Unit {0})
serving machine addr = bind_listener machine addr >>= λ _. machine.listens local_addr

abbrev resolve_program_and_args : Machine → String → Result String (String × List String)
resolve_program_and_args machine program = do args ← parse_env_args machine; ok (program, args)

-- `main` up to the spawned pool.
unfoldable pub start : Machine → Cli → Result String ProcessPool
start machine cli = do
  bounds ← pool_bounds cli.pool_size cli.max_pool_size
  (program, args) ← resolve_program_and_args machine cli.ch_bin
  machine.create_dir_all cli.runtime_dir
  spawn_pool bounds.0 bounds.1 cli.scale_down_cooldown_secs program args cli.bridge cli.runtime_dir

-- The conditions of a start.
abbrev pub CanStart : Machine → Cli → Type 0
CanStart machine cli =
    (cli.pool_size ≤ unwrap_or cli.max_pool_size cli.pool_size)
    × ((args : List String) × (parse_env_args machine ≡ ok args))
    × (machine.create_dir_all cli.runtime_dir ≡ ok tt)

start_of :
    (machine : Machine) (cli : Cli) (args : List String)
    → ltb (unwrap_or cli.max_pool_size cli.pool_size) cli.pool_size ≡ false
    → parse_env_args machine ≡ ok args
    → machine.create_dir_all cli.runtime_dir ≡ ok tt
    → start machine cli
      ≡ ok (
          push_slots cli.pool_size (
            new_pool cli.pool_size
              (unwrap_or cli.max_pool_size cli.pool_size)
              cli.scale_down_cooldown_secs
              cli.ch_bin
              args
              cli.bridge
              cli.runtime_dir))
unfolding start pool_bounds spawn_pool
start_of machine cli args ordered e d = rw (ordered, e, d) (rw (ordered, spawn_pool) refl)

start-CanStart :
    (machine : Machine) (cli : Cli) (p : ProcessPool)
    → start machine cli ≡ ok p
    → CanStart machine cli
unfolding start pool_bounds
start-CanStart machine cli p e =
    let (bounds, e₁, step₁) = >>=-ok (pool_bounds cli.pool_size cli.max_pool_size) _ e in
    let (_, e₂, step₂) = >>=-ok (resolve_program_and_args machine cli.ch_bin) _ step₁ in
    let (args, parsed, _) = >>=-ok (parse_env_args machine) _ e₂ in
    let (made, e₃, step₃) = >>=-ok (machine.create_dir_all cli.runtime_dir) _ step₂ in
    (ground arith, (args, parsed), e₃)

push_slots_flag : (n : ℕ) (p : ProcessPool) → (push_slots n p).shutdown_tx ≡ p.shutdown_tx
unfolding push_slots
push_slots_flag zero p = refl
push_slots_flag (suc n) p = push_slots_flag n _

-- The pool that is started: it has its slots, and no shutdown is sent.
abbrev pub IsFresh : Cli → ProcessPool → Type 0
IsFresh cli p = (size p ≡ cli.pool_size) × (p.shutdown_tx ≡ false)

CanStart-start :
    (machine : Machine) (cli : Cli)
    → CanStart machine cli
    → (p : ProcessPool) × (start machine cli ≡ ok p) × IsFresh cli p
CanStart-start machine cli (ordered, (args, e), d) =
    let limit : ltb (unwrap_or cli.max_pool_size cli.pool_size) cli.pool_size ≡ false =
      ground arith in
    let new =
      new_pool cli.pool_size (unwrap_or cli.max_pool_size cli.pool_size)
        cli.scale_down_cooldown_secs cli.ch_bin args cli.bridge cli.runtime_dir in
    (
      push_slots cli.pool_size new,
      start_of machine cli args limit e d,
      (omega (arith, size-push_slots cli.pool_size new), push_slots_flag cli.pool_size new),
    )

pub start-IsFresh :
    (machine : Machine) (cli : Cli) (p : ProcessPool) → start machine cli ≡ ok p → IsFresh cli p
start-IsFresh machine cli p e =
    let (q, e', fresh) = CanStart-start machine cli (start-CanStart machine cli p e) in
    subst (IsFresh cli) (ok_injective (sym e' ∙ e)) fresh

-- The daemon gets its pool exactly where the sizes are in order, the arguments in the environment can
-- be parsed and the directory can be made: the pool itself never refuses to start. It then has as many
-- slots as `--pool-size` says, and no shutdown is sent.
pub start_iff :
    (machine : Machine) (cli : Cli)
    → ((p : ProcessPool) × (start machine cli ≡ ok p) × IsFresh cli p) ↔ CanStart machine cli
start_iff machine cli = ((λ (p, e, _). start-CanStart machine cli p e), CanStart-start machine cli)
