-- ===== src/Lib.antt =====
-- croutond: a daemon that keeps a pool of warm virtual machine slots behind an HTTP interface.
--
-- One worker per slot (src/slot_supervisor.rs) keeps a child process, the VM monitor, alive and
-- answers commands in the order of its channel. The pool (src/pool.rs) owns the workers' senders,
-- grows on demand and shrinks on a timer. The service (src/service.rs) creates and deletes VMs
-- through the interface of the pool (src/pool_facade.rs), after it has checked the request
-- (src/vm_validation.rs), with bodies made by src/vm_payload.rs, sent to the slot's control socket
-- by src/ch_client.rs. src/error.rs turns errors into replies.
--
--   Base            tests, lists, results, texts and Unix paths as Rust's std treats them
--   Calls           methods that change a shared state, fail, or wait for ever (`pending`); Keeps,
--                   Succeeds and Settles: what a call keeps, that it succeeds, and how it ends
--   Types           src/pool.rs: the types that the parts share
--   Json            the values of serde_json
--   Error           src/error.rs, and `Display` of `PoolError`; Error.Codes: the status codes
--   Boot            src/service.rs `BootConfig`; Boot.Validation: src/vm_validation.rs, with what
--                   is accepted (Accepts) and what a refusal says (Blame); Boot.Payload:
--                   src/vm_payload.rs, with what the bodies hold (Bodies)
--   Tap             src/net_tap.rs
--   Runtime         the two conversions of a `SlotStatus` into a `VmRuntime`
--   Slot            src/slot_supervisor.rs: `handle_command`; Slot.Worker: the loop of
--                   `supervise_slot`, where a run is a list of rounds and all that the outside does
--                   in a round is in its record; Slot.Handle: `initialize_slot`; Slot.Micro: the
--                   loop cut into the steps between which the pool sees a worker; Invariant,
--                   Commands, Queue, Ending, Failure, Spawns, Children and Warm are about these
--   ChClient        src/ch_client.rs
--   Pool            src/pool.rs: `ProcessPool` and its methods; Pool.Scale: `spawn`,
--                   `autoscale_tick` and `shutdown`. Pool.Keeps, Size, Invariant and Names have
--                   what questions to workers keep, and what a listing tells of the names;
--                   Pool.Occupancy: what is logged of a pool; Pool.Warm: a spawned pool whose
--                   children have started; Pool.Allocate and its children are about
--                   `allocate_vm_slot` and about histories of calls; Pool.Quiet and its children
--                   are about a pool in which nothing else goes on, against a specification on the
--                   list of the slots' statuses
--   Facade          src/pool_facade.rs
--   Service         src/service.rs; Service.Mac: `mac_for_name`, which
--                   Mac.Reads reads back. Waits, Creates and Deletes are
--                   about any pool, Frees about the process pool; Quiet and its children are
--                   about the process pool while nothing else goes on
--   ProcessMetrics  src/vm_metrics.rs; Stat and Reads are about it
--   HostMetrics     src/host_metrics.rs; Cpu, Memory and Totals are about it
--   Api             src/api.rs; Api.Router: the table of its routes. Usage is about the numbers of
--                   the health check, Lives about a VM from its creation to its deletion, Fresh
--                   about the first VM of a spawned pool, Reads and Safe about the handlers of GET
--   Daemon          src/main.rs: the values of the command line; Daemon.Start: what `main` does before
--                   it serves; Daemon.Main: the autoscale task and the end of `main`; Ends is about
--                   its ends with an error
--   DemoVm          src/bin/demo-vm.rs: `parse_api_socket`; DemoVm.Serve: the loop of `main` and
--                   `handle_connection`; DemoVm.Tasks: the tasks of its connections; DemoVm.Main:
--                   `main`
--   Tests           runs on concrete data; Tests.FakePool is the pool that src/service.rs has for its
--                   unit tests, which stand there and in Requests, Host and Metrics
--
-- State and time. A pool is the record of its fields, where the state of a worker stands in its
-- slot's handle. Whenever a call waits, `Env` says what happens elsewhere: any steps of any worker,
-- with any commands of other tasks and any answers of the operating system. Effects (signals,
-- sockets, TAP devices, spawning) are values in a list, in the order of the calls.
--
-- Bounds and fuel. `generation` wraps at 2^64; the size of a VM's memory is a shift on 64 bits.
-- `usize` has 64 bits; pool sizes are far below. The loop of `allocate_vm_slot` has one round of
-- fuel more than the maximum of slots: each round but the last adds a slot. `wait_for_slot_ready`
-- has 101 rounds: it sleeps 50 ms in each and gives up after 5 s. The loops over slots and workers
-- are by their number.
--
-- Foreign code is a parameter: the TUN crate and `ip` (`Tap.Net`), hyper (`ChClient.Http`),
-- SHA-256, the clock, connecting to a socket, serde_json's serialiser and lossy decoding
-- (`Service.World`), the environment, shlex, directories, listeners and axum's server
-- (`Daemon.Start.Machine`), axum's response builder and serde_json's reader (`Api.Web`), reading a
-- file and the clock, the number of processors and floating-point numbers (`HostMetrics.Host`), the
-- demo VM's directories, listener and variable (`DemoVm.Main.DemoMachine`).
--
-- Not modelled: log lines, panics of workers, file names that are not Unicode, the variable
-- `VMM_PATH` of a child, how axum matches a path against the table of src/api.rs, logging and the
-- parsing of the options in src/main.rs, and in src/bin/demo-vm.rs the wait for a signal and what is
-- printed.
pub mod Base
pub mod Calls
pub mod Types
pub mod Json
pub mod Error
pub mod Boot
pub mod Tap
pub mod Runtime
pub mod Slot
pub mod ChClient
pub mod Pool
pub mod Facade
pub mod Service
pub mod ProcessMetrics
pub mod HostMetrics
pub mod Api
pub mod Daemon
pub mod DemoVm
pub mod Tests
