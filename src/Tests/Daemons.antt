-- ===== src/Tests/Daemons.antt =====
-- The health check, the command line and the demo VM.
use croutond.Base.{ℕ, String, ◌++◌, ◌+◌, ◌≡◌, refl, some, List, [], ◌∷◌, ok, err}
use croutond.Calls.{returned, raised, ◌>>=◌}
use croutond.Slot.{handle_command}
use croutond.Slot.Worker.{initial}
use croutond.Slot.Micro.{advance}
use croutond.Slot.Handle.{initialize_slot}
use croutond.Pool.{
  size, push_slots, ask, deliver, pass_time, get_vm_slot_status, statuses_from, list_vm_slots,
  pool_usage,
}
use croutond.Facade.{process_pool}
use croutond.Json.{Json}
use croutond.Api.{Web, HealthResponse, health}
use croutond.Api.Usage.{health_counts}
use croutond.Base.Text.Decimal.{decimal, parse_uint}
use croutond.Daemon.{parse_pool_size, pool_bounds}
use croutond.DemoVm.Serve.{len, response_for, Stream, handle_connection}
use croutond.Tests.Data.{env, pool, world}

abbrev pub web : Web (List ℕ)
web = record {
  version = "0.1.0";
  build = λ response. ok response.body;
  from_slice = λ bytes. ok Json.null;
  read = λ path. err "No such file or directory";
  now = "now";
}

abbrev healthy : HealthResponse
healthy = record {
  service = "croutond";
  version = "0.1.0";
  pool_size = 2;
  pool_in_use = 0;
  pool_idle = 2;
}

pool_is_healthy : (health (process_pool env) world web pool).0 ≡ returned healthy
unfolding health pool_usage list_vm_slots statuses_from get_vm_slot_status ask deliver pass_time
    push_slots initialize_slot initial advance handle_command ◌>>=◌
pool_is_healthy = refl

health_counts_example : (0 + 2 ≡ 2) × (2 ≡ size pool)
health_counts_example = health_counts env world web pool {r = healthy} pool_is_healthy

four : parse_pool_size "4" ≡ ok 4
unfolding parse_pool_size parse_uint
four = refl

four_to_eight : pool_bounds 4 (some 8) ≡ ok (4, 8)
unfolding pool_bounds
four_to_eight = refl

abbrev reply : String
reply =
    "HTTP/1.1 200 OK\r\ncontent-type: application/json\r\ncontent-length: 42\r\nconnection: close\r\n\r\n{\"status\":\"ok\",\"vm\":\"demo-vm\",\"slot\":\"é\"}"

-- A letter of two bytes counts twice.
response_for_test : response_for "é" ≡ reply
unfolding response_for len decimal
response_for_test = refl

-- A connection that records what is written to it, and whose peer may be gone.
abbrev recorder : Stream (List String)
recorder = record {
  read = λ size written. (returned tt, written);
  write_all = λ text written. (returned tt, written ++ text ∷ []);
  shutdown = λ written. (raised "Broken pipe", written);
}

handle_connection_test : handle_connection recorder "é" [] ≡ (raised "Broken pipe", reply ∷ [])
unfolding handle_connection response_for len decimal ◌>>=◌
handle_connection_test = refl
