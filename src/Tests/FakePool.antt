-- ===== src/Tests/FakePool.antt =====
-- The tests of src/service.rs: a pool with scripted answers that records what is asked of it, as a
-- second implementation of the pool's interface, and the unit tests, each as a definition that is true
-- where the test passes. What a `fake` holds is what the `FakePool` of the test is made with.
use croutond.Base.{
  ℕ, ◌*◌, String, Bool, true, false, ◌&&◌, ◌==◌, Option, none, some, List, [], ◌∷◌, ◌++◌, ◌≡◌, refl,
  ok, ok_or,
}
use croutond.Base.Text.{contains, ◌+++◌, trim, trim_start, trim_end}
use croutond.Base.Text.Decimal.{decimal}
use croutond.Calls.{Outcome, returned, raised, give, raise, lift, ◌>>=◌}
use croutond.Types.{
  VmRuntime, SlotState, empty, booting, occupied, SlotStatus, PoolError, ProxyResponse,
}
use croutond.Types
use croutond.ChClient.{Method, get, put}
use croutond.Tests.Asserts.{
  awaits, awaits_err, conflict_with, not_found_with, backend_with, some_eq, bytes_eq, texts_eq,
}
use croutond.Json.{obj, end}
use croutond.Boot.Payload.{format_backend_error}
use croutond.Facade.{PoolFacade}
use croutond.Pool.{is_named}
use croutond.Service.{
  World, delete_vm_with_pool, proxy_action_by_name_with_body, proxy_passthrough_by_name,
  find_running, expect_running, demand, remove_vm,
}

record FakePool : Type 0 where
  slot_by_name : Option SlotStatus
  passthrough_response : Option ProxyResponse
  scripted_request_responses : List ProxyResponse
  request_paths : List String
  released_slots : List ℕ

abbrev occupied_status : String → ℕ → SlotStatus
occupied_status name slot = record {
  slot = slot;
  generation = 1;
  state = occupied;
  name = some name;
  mac = some "02:aa:bb:cc:dd:ee";
  tap = some ("tap" +++ decimal slot);
  pid = some 1234;
  started_at = some "2026-05-30T00:00:00Z";
  last_error = none;
}

abbrev empty_status : ℕ → ℕ → SlotStatus
empty_status slot generation = record {
  slot = slot;
  generation = generation;
  state = empty;
  name = none;
  mac = none;
  tap = none;
  pid = none;
  started_at = none;
  last_error = none;
}

abbrev filter {ℓ} : {A : Type ℓ} → (A → Bool) → Option A → Option A
filter test none = none
filter test (some a) = elim (test a) [ true ↦ some a | false ↦ none ]

abbrev method_name : Method → String
method_name get = "GET"
method_name put = "PUT"

abbrev pop_front : FakePool → List ProxyResponse → Outcome PoolError ProxyResponse × FakePool
pop_front p [] = (raised (Types.backend "missing scripted response"), p)
pop_front p (response ∷ rest) = (returned response, record p { scripted_request_responses = rest })

abbrev fake_pool : PoolFacade FakePool
fake_pool = record {
  pool_size = λ p. 1;
  pool_usage_counts = give (1, 0);
  list_runtimes = give [];
  find_runtime_by_name = λ name. give none;
  allocate_slot = λ name mac. raise (Types.backend "unused in test");
  find_slot_by_name = λ name p. (returned (filter (is_named name) p.slot_by_name), p);
  mark_slot_booted = λ slot started_at. raise (Types.backend "unused in test");
  release_slot = λ slot p.
      (returned (empty_status slot 2), record p { released_slots = p.released_slots ++ slot ∷ [] });
  reset_slot = λ slot. give (empty_status 0 0);
  get_slot_status = λ slot. raise (Types.backend "unused in test");
  slot_socket_path = λ p slot. "/tmp/unused.sock";
  request = λ slot method path body p.
      lift (ok_or p.passthrough_response (Types.backend "missing passthrough response")) p;
  request_with_content_type = λ slot method path body content_type p.
      pop_front
        (record p { request_paths = p.request_paths ++ (method_name method +++ " " +++ path) ∷ [] })
        p.scripted_request_responses;
}

-- Nothing else happens, and a body is read as the text that the test says.
abbrev world : String → World FakePool
world text = record {
  unlocked = λ p. p;
  connects = λ p path. true;
  elapsed = λ p slept. 50 * slept;
  now = λ p. "now";
  digest = λ name i. i;
  to_vec = λ json. ok [];
  decode = λ bytes. text;
}

abbrev no_response : ProxyResponse
no_response = record { status = 200; content_type = none; body = [] }

-- A pool with these answers, which has not been asked anything yet.
abbrev fake : Option SlotStatus → Option ProxyResponse → List ProxyResponse → FakePool
fake found passthrough scripted = record {
  slot_by_name = found;
  passthrough_response = passthrough;
  scripted_request_responses = scripted;
  request_paths = [];
  released_slots = [];
}

abbrev delete_vm_returns_conflict_for_non_running_vm : Bool
delete_vm_returns_conflict_for_non_running_vm =
    awaits_err (conflict_with "is not running")
      (delete_vm_with_pool fake_pool (world "") "vm-a"
        (fake (some (record (occupied_status "vm-a" 3) { state = booting })) none [])).0

conflict_passes : delete_vm_returns_conflict_for_non_running_vm ≡ true
unfolding delete_vm_with_pool find_running expect_running contains ◌>>=◌
conflict_passes = refl

abbrev proxy_action_returns_not_found_for_unknown_vm : Bool
proxy_action_returns_not_found_for_unknown_vm =
    awaits_err (not_found_with "not found")
      (proxy_action_by_name_with_body fake_pool (world "") "missing" "/api/v1/vm.pause" (obj end)
        (fake none none [])).0

not_found_passes : proxy_action_returns_not_found_for_unknown_vm ≡ true
unfolding proxy_action_by_name_with_body find_running expect_running contains ◌>>=◌
not_found_passes = refl

abbrev ok_true : ProxyResponse
ok_true = record {
  status = 200;
  content_type = some "application/json";
  body = 123 ∷ 34 ∷ 111 ∷ 107 ∷ 34 ∷ 58 ∷ 116 ∷ 114 ∷ 117 ∷ 101 ∷ 125 ∷ [];
}

abbrev proxy_passthrough_returns_backend_response_for_running_vm : Bool
proxy_passthrough_returns_backend_response_for_running_vm =
    awaits
      (λ response.
        (response.status == 200)
        && some_eq "application/json" response.content_type
        && bytes_eq response.body ok_true.body)
      (proxy_passthrough_by_name fake_pool (world "") "vm-a" "/api/v1/vm.info"
        (fake (some (occupied_status "vm-a" 5)) (some ok_true) [])).0

passthrough_passes : proxy_passthrough_returns_backend_response_for_running_vm ≡ true
unfolding proxy_passthrough_by_name find_running expect_running ◌>>=◌
passthrough_passes = refl

abbrev delete_vm_success_calls_shutdown_then_delete_then_release : Bool
delete_vm_success_calls_shutdown_then_delete_then_release =
    let (outcome, p) =
      delete_vm_with_pool fake_pool (world "") "vm-a"
        (fake (some (occupied_status "vm-a" 7)) none (no_response ∷ no_response ∷ [])) in
    awaits (λ _. true) outcome
    && texts_eq p.request_paths ("PUT /api/v1/vm.shutdown" ∷ "PUT /api/v1/vm.delete" ∷ [])
    && bytes_eq p.released_slots (7 ∷ [])

delete_passes : delete_vm_success_calls_shutdown_then_delete_then_release ≡ true
unfolding delete_vm_with_pool find_running expect_running remove_vm demand ◌>>=◌
delete_passes = refl

abbrev proxy_action_returns_backend_error_on_unsuccessful_status : Bool
proxy_action_returns_backend_error_on_unsuccessful_status =
    awaits_err (backend_with "status 500" "boom")
      (proxy_action_by_name_with_body fake_pool (world "boom") "vm-a" "/api/v1/vm.pause" (obj end) (
        fake (some (occupied_status "vm-a" 2)) none (
          record no_response {
            status = 500;
            content_type = some "text/plain";
            body = 98 ∷ 111 ∷ 111 ∷ 109 ∷ [];
          }
          ∷ []))).0

backend_passes : proxy_action_returns_backend_error_on_unsuccessful_status ≡ true
unfolding proxy_action_by_name_with_body find_running expect_running decimal trim trim_start
    trim_end format_backend_error contains ◌>>=◌
backend_passes = refl
