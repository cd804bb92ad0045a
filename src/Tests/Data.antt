-- ===== src/Tests/Data.antt =====
-- The data that the tests share: a network that works, workers that are left alone, small pools.
use croutond.Base.{◌*◌, true, false, none, some, [], ◌∷◌, ok}
use croutond.Types.{VmRuntime, running, occupied, SlotStatus, empty, failed}
use croutond.Tap.{Net}
use croutond.ChClient.{Http}
use croutond.Slot.{Os, SlotRuntime, Child}
use croutond.Slot.Worker.{Config, Round, timeout, alive, live}
use croutond.Service.{World}
use croutond.Slot.Micro.{spawns}
use croutond.Slot.Handle.{initialize_slot}
use croutond.Pool.{Env, ProcessPool, push_slots}
use croutond.Boot.{BootConfig}
use croutond.Pool.Scale.{new_pool}

abbrev pub net : Net
net = record {
  build = λ name. ok tt;
  ip_link = λ name bridge. ok (record { success = true; status = "exit status: 0"; stderr = "" });
}

abbrev pub os : Os
os = record { net = net; can_kill = true }

abbrev pub child : Child
child = record { id = some 4711 }

abbrev pub config : Config
config = record {
  slot = 0;
  program = "cloud-hypervisor";
  args = [];
  bridge = some "br0";
  api_socket = "/tmp/vmm0.sock";
}

-- A round in which the child starts and nothing else happens.
abbrev pub quiet_round : Round
quiet_round = record {
  shutdown = false;
  spawned = ok child;
  queued = [];
  poll = alive;
  wake = timeout;
  os = os;
}

abbrev pub idle_status : SlotStatus
idle_status = record {
  slot = 0;
  generation = 3;
  state = empty;
  name = none;
  mac = none;
  tap = none;
  pid = some 4711;
  started_at = none;
  last_error = none;
}

abbrev pub idle : SlotRuntime
idle = record { status = idle_status; child = some child }

abbrev pub broken : SlotRuntime
broken = record {
  status = record idle_status { state = failed; pid = none; last_error = some "No such file" };
  child = none;
}

abbrev pub http : Http
http request = ok (record { status = 204; headers = []; body = [] })

abbrev pub env : Env
env = record {
  background = λ time slot. [];
  os = λ time. os;
  clock = λ time. time;
  rounds = λ time. quiet_round ∷ [];
  http = λ time. http;
}

-- Two slots where one is the least.
abbrev pub start : ProcessPool
start = new_pool 1 3 15 "cloud-hypervisor" [] (some "br0") "/tmp"

abbrev pub pool : ProcessPool
pool = push_slots 2 start

abbrev pub running_status : SlotStatus
running_status = record idle_status {
  state = occupied;
  name = some "vm";
  mac = some "02:00:00:00:00:01";
  tap = some "tap0";
  started_at = some "now";
}

abbrev pub vm : VmRuntime
vm = record {
  name = "vm";
  mac = "02:00:00:00:00:01";
  tap = "tap0";
  pid = 4711;
  state = running;
  started_at = "now";
}

-- The children start whenever their workers run.
abbrev pub lively : Env
lively = record env { background = λ time slot. spawns (ok child) ∷ [] }

-- One slot, with a VM that runs.
abbrev pub busy : ProcessPool
busy = record start {
  slots =
      record (initialize_slot 0 "cloud-hypervisor" [] (some "br0") "/tmp") {
        phase = live (record { status = running_status; child = some child });
      }
      ∷ [];
}

-- Sockets that accept at once, and a clock that counts the sleeps.
abbrev pub world : World ProcessPool
world = record {
  unlocked = λ p. p;
  connects = λ p path. true;
  elapsed = λ p slept. 50 * slept;
  now = λ p. "now";
  digest = λ name i. i;
  to_vec = λ json. ok [];
  decode = λ bytes. "";
}

abbrev pub linux : BootConfig
linux = record {
  name = "vm-b";
  cpus = 4;
  memory_mb = 1024;
  boot_mode = "Linux";
  disks = "/var/lib/vms/os.qcow2" ∷ "/var/lib/vms/data.RAW" ∷ "/var/lib/vms/misc.img" ∷ [];
  kernel_path = some "/var/lib/vms/vmlinux";
  initrd_path = some "/var/lib/vms/initrd";
  cmdline = some "console=ttyS0";
  firmware_path = none;
  snapshot_path = none;
}
