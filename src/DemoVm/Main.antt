-- ===== src/DemoVm/Main.antt =====
-- `main` of src/bin/demo-vm.rs. What it prints is left out.
use croutond.Base.{String, Option, none, some, List, Result, ok, err, ◌>>=◌, ◌>>◌}
use croutond.Base.FilePath.{parent}
use croutond.Calls.{Call, raised}
use croutond.DemoVm.{parse_api_socket}
use croutond.DemoVm.Serve.{Selected, serve}

-- The file system, the listener, and the variable `VMM_SLOT`.
pub record DemoMachine : Type 0 where
  pub create_dir_all : String → Result String (Unit {0})
  pub bind : String → Result String (Unit {0})
  pub vmm_slot : Option String

abbrev make_directory : DemoMachine → Option String → Result String (Unit {0})
make_directory machine (some directory) = machine.create_dir_all directory
make_directory machine none = ok tt

abbrev unwrap_or_unknown : Option String → String
unwrap_or_unknown (some slot) = slot
unwrap_or_unknown none = "unknown"

-- `main` up to the loop, with the slot that the connections are given.
unfoldable pub listen : DemoMachine → List String → Result String String
listen machine args = do
  api_socket ← parse_api_socket args
  make_directory machine (parent api_socket)
  machine.bind api_socket
  ok (unwrap_or_unknown machine.vmm_slot)

unfoldable pub main :
    {C : Type 0}
    → DemoMachine
    → List String
    → List (Selected C)
    → Call (List (C × String)) String (Unit {0})
main machine args turns tasks = elim (listen machine args) [
  | err error ↦ (raised error, tasks)
  | ok slot ↦ serve slot turns tasks
]
