-- ===== src/Tests/Slots.antt =====
-- Slot workers.
use croutond.Base.{◌≤◌, String, none, ◌≡◌, refl, some, List, [], ◌∷◌, true, arith, ◌⊎◌}
use croutond.Slot.{
  Os, SlotCommand, reserve_vm, mark_vm_booted, release_vm, reset_vm, handle_command, remove_file,
}
use croutond.Slot.Queue.{granted, drain_grants_once}
use croutond.Types.{occupied, failed}
use croutond.Tap.{ensure_tap_device}
use croutond.Slot.Worker.{
  Round, exited, poll_error, received, live, initial, supervise, spawn_phase, poll_phase, drain,
  select_phase, round,
}
use croutond.Slot.Invariant.{PhaseIsValid, IsValid, supervise-initial-IsValid}
use croutond.Slot.Commands.{handle_all}
use croutond.Slot.Spawns.{NeverSpawns}
use croutond.Slot.Children.{Signals, round_minds_child}
use croutond.Slot.Ending.{is_live, supervise-live}
use croutond.Slot.Failure.{runtime, supervise_failed}
use croutond.Slot.Warm.{IsLeftAlone, slot_recycles}
use croutond.Tests.Data.{os, child, config, quiet_round, idle_status, idle, broken}

abbrev rounds : List Round
rounds =
    quiet_round
    ∷ record quiet_round { wake = received os (reserve_vm "vm" "02:00:00:00:00:01" "tap0") }
    ∷ record quiet_round { wake = received os (mark_vm_booted "now") }
    ∷ []

supervise_test :
    (runtime (supervise config rounds (live (initial 0)))).status ≡ record idle_status {
      generation = 1;
      state = occupied;
      name = some "vm";
      mac = some "02:00:00:00:00:01";
      tap = some "tap0";
      started_at = some "now";
    }
unfolding supervise initial handle_command ensure_tap_device spawn_phase poll_phase drain
    select_phase round
supervise_test = refl

supervise-initial-IsValid_example : PhaseIsValid 0 (supervise config rounds (live (initial 0)))
supervise-initial-IsValid_example = supervise-initial-IsValid 0 config rounds

idle-IsValid : IsValid 0 idle
idle-IsValid = ground arith

pub left_alone : IsLeftAlone quiet_round
left_alone = record { going = refl; none_queued = refl; polled = refl; woken = refl }

slot_recycles_example :
    let commands =
      reserve_vm "vm" "02:00:00:00:00:01" "tap0" ∷ mark_vm_booted "now" ∷ release_vm ∷ [] in
    supervise config
      (quiet_round ∷ quiet_round ∷ [])
      (live (handle_all (some "br0") "/tmp/vmm0.sock" os commands idle).0)
    ≡ live (record idle { status = record idle_status { generation = 5 } })
unfolding ensure_tap_device
slot_recycles_example =
    slot_recycles config child os "vm" "02:00:00:00:00:01" "tap0" "now" idle
      (quiet_round ∷ quiet_round ∷ []) idle-IsValid refl refl (refl, (left_alone, (left_alone, tt)))

supervise-live_example : is_live (supervise config rounds (live idle)) ≡ true
supervise-live_example = supervise-live config rounds idle

supervise_failed_example :
    runtime (supervise config (quiet_round ∷ quiet_round ∷ []) (live broken)) ≡ broken
supervise_failed_example =
    supervise_failed config (quiet_round ∷ quiet_round ∷ []) (live broken) refl refl
      ((tt, refl), ((tt, refl), tt))

-- A round in which a reset is waiting in the channel.
abbrev resetting : Round
resetting = record quiet_round { queued = (os, reset_vm) ∷ [] }

round_minds_child_example :
    NeverSpawns (round config resetting idle).effects
    × (((runtime (round config resetting idle).phase).child ≡ some child)
        ⊎ (Signals child (round config resetting idle).effects
            ⊎ ((resetting.poll ≡ exited)
                ⊎ ((error : String) × (resetting.poll ≡ poll_error error)))))
round_minds_child_example = round_minds_child config child resetting idle refl

-- A poll that fails loses the child: it is dropped without a signal, and the slot has failed.
lost_child :
    let turn =
      round config (record quiet_round { poll = poll_error "Interrupted system call" }) idle in
    ((runtime turn.phase).child ≡ none)
    × ((runtime turn.phase).status.state ≡ failed)
    × (turn.effects ≡ remove_file "/tmp/vmm0.sock" ∷ [])
unfolding round spawn_phase drain poll_phase select_phase
lost_child = (refl, refl, refl)

-- Two reservations and a boot wait in the channel of an empty slot.
abbrev waiting : List (Os × SlotCommand)
waiting =
    (os, reserve_vm "vm-a" "02:00:00:00:00:01" "tap0")
    ∷ (os, mark_vm_booted "now")
    ∷ (os, reserve_vm "vm-b" "02:00:00:00:00:02" "tap0")
    ∷ []

drain_grants_once_example : granted waiting (drain config waiting idle).1 ≤ 1
drain_grants_once_example = drain_grants_once config waiting idle (refl, (refl, (refl, tt)))

one_is_granted : granted waiting (drain config waiting idle).1 ≡ 1
unfolding drain handle_command ensure_tap_device
one_is_granted = refl
