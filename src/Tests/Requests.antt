-- ===== src/Tests/Requests.antt =====
-- The unit tests of src/vm_validation.rs and src/vm_payload.rs, each as a definition that is true where
-- the test passes.
use croutond.Base.{Bool, true, ◌&&◌, str_eq, ℕ, ◌*◌, String, none, some, List, [], ◌∷◌, ◌≡◌, refl}
use croutond.Base.FilePath.{is_absolute, extension}
use croutond.Base.Text.{trim, trim_start, trim_end, to_ascii_lowercase}
use croutond.Base.Text.Decimal.{decimal}
use croutond.Types.{SlotStatus, booting}
use croutond.Tests.Asserts.{expect, expect_err, validation_of, is_number, is_text, is_array, lacks}
use croutond.Json.{at, at_index}
use croutond.Boot.{BootConfig}
use croutond.Boot.Validation.{validate_boot_config, check_boot_files, check_disks, check_paths}
use croutond.Boot.Payload.{
  disk_image_type, disk_body, create_vm_request_body, create_restore_request_body,
  format_backend_error,
}

abbrev validation_config : BootConfig
validation_config = record {
  name = "vm-a";
  cpus = 2;
  memory_mb = 512;
  boot_mode = "linux";
  disks = "/var/lib/vms/disk.qcow2" ∷ [];
  kernel_path = some "/var/lib/vms/vmlinux";
  initrd_path = some "/var/lib/vms/initrd";
  cmdline = some "console=ttyS0";
  firmware_path = none;
  snapshot_path = none;
}

abbrev accepts_valid_linux_config : Bool
accepts_valid_linux_config = expect (λ _. true) (validate_boot_config validation_config)

accepts_passes : accepts_valid_linux_config ≡ true
unfolding validate_boot_config check_boot_files check_disks check_paths trim trim_start trim_end
    to_ascii_lowercase is_absolute
accepts_passes = refl

abbrev rejects_empty_name : Bool
rejects_empty_name =
    expect_err (validation_of "name" (λ error. str_eq error "name is required"))
      (validate_boot_config (record validation_config { name = "  " }))

empty_name_passes : rejects_empty_name ≡ true
unfolding validate_boot_config trim trim_start trim_end
empty_name_passes = refl

abbrev rejects_linux_without_kernel_when_not_restoring : Bool
rejects_linux_without_kernel_when_not_restoring =
    expect_err
      (validation_of "kernelPath"
        (λ error. str_eq error "kernelPath is required when bootMode=linux"))
      (validate_boot_config (record validation_config { kernel_path = none }))

without_kernel_passes : rejects_linux_without_kernel_when_not_restoring ≡ true
unfolding validate_boot_config check_boot_files check_disks check_paths trim trim_start trim_end
    to_ascii_lowercase is_absolute
without_kernel_passes = refl

abbrev rejects_relative_disk_path : Bool
rejects_relative_disk_path =
    expect_err (validation_of "disks" (λ error. true))
      (validate_boot_config (record validation_config { disks = "relative/disk.raw" ∷ [] }))

relative_disk_passes : rejects_relative_disk_path ≡ true
unfolding validate_boot_config check_boot_files check_disks check_paths trim trim_start trim_end
    to_ascii_lowercase is_absolute
relative_disk_passes = refl

abbrev allows_restore_without_linux_or_uefi_specific_boot_files : Bool
allows_restore_without_linux_or_uefi_specific_boot_files =
    expect (λ _. true)
      (validate_boot_config (record validation_config {
        kernel_path = none;
        snapshot_path = some "/var/lib/vms/snapshots/vm-a.snap";
      }))

restore_passes : allows_restore_without_linux_or_uefi_specific_boot_files ≡ true
unfolding validate_boot_config check_boot_files check_disks check_paths trim trim_start trim_end
    to_ascii_lowercase is_absolute
restore_passes = refl

abbrev payload_config : BootConfig
payload_config = record {
  name = "vm-b";
  cpus = 4;
  memory_mb = 1024;
  boot_mode = "linux";
  disks = "/var/lib/vms/os.qcow2" ∷ "/var/lib/vms/data.raw" ∷ "/var/lib/vms/misc.img" ∷ [];
  kernel_path = some "/var/lib/vms/vmlinux";
  initrd_path = some "/var/lib/vms/initrd";
  cmdline = some "console=ttyS0";
  firmware_path = none;
  snapshot_path = none;
}

abbrev reserved_slot : SlotStatus
reserved_slot = record {
  slot = 1;
  generation = 10;
  state = booting;
  name = some "vm-b";
  mac = some "02:aa:bb:cc:dd:ee";
  tap = some "tap1";
  pid = some 42;
  started_at = none;
  last_error = none;
}

abbrev linux_payload_contains_expected_fields_and_disk_types : Bool
linux_payload_contains_expected_fields_and_disk_types =
    let payload = create_vm_request_body payload_config reserved_slot in
    let net = at_index (at payload "net") 0 in
    let disks = at payload "disks" in
    is_number 4 (at (at payload "cpus") "boot_vcpus")
    && is_number (1024 * 1048576) (at (at payload "memory") "size")
    && is_text "tap1" (at net "tap")
    && is_text "02:aa:bb:cc:dd:ee" (at net "mac")
    && is_text "/var/lib/vms/vmlinux" (at (at payload "payload") "kernel")
    && is_array disks
    && is_text "Qcow2" (at (at_index disks 0) "image_type")
    && is_text "Raw" (at (at_index disks 1) "image_type")
    && lacks "image_type" (at_index disks 2)

payload_passes : linux_payload_contains_expected_fields_and_disk_types ≡ true
unfolding create_vm_request_body disk_image_type extension to_ascii_lowercase at at_index disk_body
payload_passes = refl

abbrev restore_payload_contains_file_url : Bool
restore_payload_contains_file_url =
    let config = record payload_config { snapshot_path = some "/var/lib/vms/snaps/vm-b.snap" } in
    is_text "file:///var/lib/vms/snaps/vm-b.snap"
      (at (create_restore_request_body config) "source_url")

restore_payload_passes : restore_payload_contains_file_url ≡ true
unfolding create_restore_request_body at
restore_payload_passes = refl

-- `b"  failure details\n"`, and what they are decoded to.
abbrev failure_bytes : List ℕ
failure_bytes =
    32 ∷ 32 ∷ 102 ∷ 97 ∷ 105 ∷ 108 ∷ 117 ∷ 114 ∷ 101 ∷ 32 ∷ 100 ∷ 101 ∷ 116 ∷ 97 ∷ 105 ∷ 108 ∷ 115
    ∷ 10 ∷ []

abbrev failure : List ℕ → String
failure bytes = "  failure details\n"

abbrev backend_error_formats_status_and_trimmed_body : Bool
backend_error_formats_status_and_trimmed_body =
    str_eq
      (format_backend_error failure
        (record { status = 500; content_type = some "text/plain"; body = failure_bytes }))
      "backend returned status 500: failure details"

trimmed_body_passes : backend_error_formats_status_and_trimmed_body ≡ true
unfolding format_backend_error trim trim_start trim_end decimal
trimmed_body_passes = refl

abbrev backend_error_formats_status_only_for_empty_body : Bool
backend_error_formats_status_only_for_empty_body =
    str_eq (format_backend_error failure (record { status = 404; content_type = none; body = [] }))
      "backend returned status 404"

empty_body_passes : backend_error_formats_status_only_for_empty_body ≡ true
unfolding format_backend_error decimal
empty_body_passes = refl
