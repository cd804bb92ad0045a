-- ===== src/Tests/Services.antt =====
-- Creating and deleting VMs on the process pool.
use croutond.Base.{◌%◌, ◌<◌, ◌∷◌, [], ◌+◌, ℕ, some, String, ◌≡◌, refl, false, ok, arith}
use croutond.Calls.{returned, is_pending, ◌>>=◌}
use croutond.Types.{SlotStatus}
use croutond.Tap.{ensure_tap_device}
use croutond.Slot.{get_vm_status, handle_command, stop_running}
use croutond.Slot.Worker.{initial, spawn_phase}
use croutond.Slot.Micro.{advance}
use croutond.Slot.Handle.{initialize_slot}
use croutond.Boot.Validation.{validate_boot_config, check_boot_files, check_disks, check_paths}
use croutond.Pool.{
  ask, deliver, pass_time, get_vm_slot_status, statuses_from, list_vm_slots, log_pool_occupancy,
  command_vm_slot, find_vm_slot_status_by_name, release_vm_slot, mark_vm_slot_booted,
  reserve_vm_slot, allocate_vm_slot, allocate_unless, allocate_loop, allocate_step, push_slots,
  proxy_vm_request_with_content_type,
}
use croutond.Pool.Allocate.Total.{ask-Ends}
use croutond.Pool.Invariant.{PoolIsValid}
use croutond.Pool.Names.Distinct.{IsFree}
use croutond.Facade.{process_pool}
use croutond.Service.{
  wait_for_slot_ready, wait_loop, wait_round, create_vm_with_pool, start_vm, finish_vm, demand,
  expect_running, find_running, remove_vm, delete_vm_with_pool,
}
use croutond.Service.Waits.{ClockRuns, SlotsAnswer, wait_for_slot_ready_ends}
use croutond.Service.Deletes.{HasDeleted, delete_vm_with_pool-HasDeleted}
use croutond.Service.Frees.{delete_vm_with_pool-IsFree}
use croutond.Service.Creates.{HasBooted, create_vm_with_pool-HasBooted}
use croutond.Service.Mac.{mac_for_name}
use croutond.Service.Mac.Reads.{parse_mac, parse_mac-mac_for_name}
use croutond.Runtime.{try_from}
use croutond.ChClient.{send_unix_http_request}
use croutond.Base.Text.{trim, to_ascii_lowercase}
use croutond.Base.FilePath.{is_absolute}
use croutond.Base.Text.Decimal.{decimal}
use croutond.Tests.Data.{vm, linux, env, lively, busy, pool, world}

clock_runs : ClockRuns (process_pool env) world
clock_runs s slept = omega arith

slots_answer : SlotsAnswer (process_pool env) world
unfolding get_vm_slot_status
slots_answer slot s = (ask-Ends env slot get_vm_status).at s

wait_for_slot_ready_ends_example :
    is_pending (wait_for_slot_ready (process_pool env) world 0 pool).0 ≡ false
wait_for_slot_ready_ends_example =
    wait_for_slot_ready_ends (process_pool env) world 0 pool clock_runs slots_answer

busy_is_ready : (wait_for_slot_ready (process_pool env) world 0 busy).0 ≡ returned tt
unfolding wait_for_slot_ready wait_loop wait_round get_vm_slot_status ask deliver pass_time advance
    initialize_slot handle_command ◌>>=◌
busy_is_ready = refl

busy_is_deleted : (delete_vm_with_pool (process_pool env) world "vm" busy).0 ≡ returned tt
unfolding delete_vm_with_pool remove_vm find_running expect_running demand send_unix_http_request
    release_vm_slot command_vm_slot find_vm_slot_status_by_name list_vm_slots statuses_from
    log_pool_occupancy proxy_vm_request_with_content_type get_vm_slot_status ask deliver pass_time
    advance initialize_slot handle_command stop_running ◌>>=◌
busy_is_deleted = refl

delete_vm_with_pool-HasDeleted_example :
    HasDeleted
      (process_pool env)
      "vm"
      busy
      (delete_vm_with_pool (process_pool env) world "vm" busy).1
delete_vm_with_pool-HasDeleted_example =
    delete_vm_with_pool-HasDeleted (process_pool env) world "vm" busy busy_is_deleted

pub busy_is_valid : PoolIsValid busy
unfolding initialize_slot
busy_is_valid = ground arith

delete_vm_with_pool-IsFree_example :
    IsFree "vm" (delete_vm_with_pool (process_pool env) world "vm" busy).1.slots
delete_vm_with_pool-IsFree_example =
    delete_vm_with_pool-IsFree env world "vm" busy (λ time slot. refl) busy_is_valid
      (λ name e. tt, tt) busy_is_deleted

linux_is_created :
    (create_vm_with_pool (process_pool lively) world linux pool).0
    ≡ returned (record vm { name = "vm-b"; mac = "02:00:01:02:03:04" })
unfolding create_vm_with_pool start_vm finish_vm demand mac_for_name wait_for_slot_ready wait_loop
    wait_round allocate_vm_slot allocate_unless allocate_loop allocate_step reserve_vm_slot
    mark_vm_slot_booted find_vm_slot_status_by_name list_vm_slots statuses_from log_pool_occupancy
    command_vm_slot proxy_vm_request_with_content_type send_unix_http_request get_vm_slot_status ask
    deliver pass_time push_slots advance spawn_phase initialize_slot initial handle_command
    ensure_tap_device try_from validate_boot_config check_boot_files check_disks check_paths trim
    to_ascii_lowercase is_absolute decimal ◌>>=◌
linux_is_created = refl

create_vm_with_pool-HasBooted_example :
    (validate_boot_config linux ≡ ok tt)
    × ((reserved : SlotStatus) × (started_at : String) × ((allocate_vm_slot lively "vm-b"
            "02:00:01:02:03:04" pool).0
          ≡ returned reserved)
        × HasBooted
            (process_pool lively)
            world
            reserved.slot
            started_at
            (record vm { name = "vm-b"; mac = "02:00:01:02:03:04" })
            (create_vm_with_pool (process_pool lively) world linux pool).1)
unfolding mac_for_name
create_vm_with_pool-HasBooted_example =
    create_vm_with_pool-HasBooted (process_pool lively) world linux pool linux_is_created

mod_is_byte : (n : ℕ) → n % 256 < 256
mod_is_byte n = omega arith

parse_mac-mac_for_name_example :
    parse_mac (mac_for_name (λ name i. (250 + i) % 256) "vm-b")
    ≡ some (2 ∷ 250 ∷ 251 ∷ 252 ∷ 253 ∷ 254 ∷ [])
parse_mac-mac_for_name_example =
    parse_mac-mac_for_name (λ name i. (250 + i) % 256) "vm-b" (λ i. mod_is_byte (250 + i))
