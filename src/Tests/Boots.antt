-- ===== src/Tests/Boots.antt =====
-- Requests to create a VM.
use croutond.Base.{String, ◌≡◌, ◌↔◌, refl, none, some, [], ◌∷◌, true, ok, err, map}
use croutond.Base.FilePath.{is_absolute, extension}
use croutond.Base.Text.{trim, to_ascii_lowercase}
use croutond.Json.{Json, at, at_index, elements, num, str, obj, entry, end}
use croutond.Types.{no_available_slot}
use croutond.Error.{validation, from_pool_error, into_response, error_body}
use croutond.Boot.Validation.{validate_boot_config, check_boot_files, check_disks, check_paths}
use croutond.Boot.Validation.Accepts.{IsBootable, validate_boot_config_iff}
use croutond.Boot.Validation.Blame.{at_fault, validate_boot_config_blames}
use croutond.Boot.Payload.{disk_image_type, create_vm_request_body, create_restore_request_body}
use croutond.Boot.Payload.Bodies.{
  create_vm_request_body_resources, create_vm_request_body_boots, boot_key,
}
use croutond.Tests.Data.{linux, idle_status}

pub linux_accepted : validate_boot_config linux ≡ ok tt
unfolding validate_boot_config check_boot_files check_disks check_paths trim to_ascii_lowercase
    is_absolute
linux_accepted = refl

relative_refused :
    validate_boot_config (record linux { disks = "relative/disk.raw" ∷ [] })
    ≡ err (validation (some "disks") "disk path 'relative/disk.raw' must be absolute")
unfolding validate_boot_config check_boot_files check_disks check_paths trim to_ascii_lowercase
    is_absolute
relative_refused = refl

image_types : map disk_image_type linux.disks ≡ some "Qcow2" ∷ some "Raw" ∷ none ∷ []
unfolding disk_image_type extension to_ascii_lowercase
image_types = refl

validate_boot_config_iff_example : (validate_boot_config linux ≡ ok tt) ↔ IsBootable linux
validate_boot_config_iff_example = validate_boot_config_iff linux

validate_boot_config_blames_example :
    let config = record linux { disks = "/var/lib/vms/os.raw" ∷ "relative/disk.raw" ∷ [] } in
    let e = validation (some "disks") "disk path 'relative/disk.raw' must be absolute" in
    (field : String) × (error : String) × (e ≡ validation (some field) error)
    × (at_fault field config ≡ true)
unfolding validate_boot_config check_boot_files check_disks check_paths trim to_ascii_lowercase
    is_absolute
validate_boot_config_blames_example =
    validate_boot_config_blames
      (record linux { disks = "/var/lib/vms/os.raw" ∷ "relative/disk.raw" ∷ [] })
      (validation (some "disks") "disk path 'relative/disk.raw' must be absolute") refl

create_vm_request_body_resources_example :
    let body = create_vm_request_body linux idle_status in
    (at (at body "cpus") "boot_vcpus" ≡ num 4)
    × (at (at body "memory") "size" ≡ num 1073741824)
    × (map (λ disk. at disk "path") (elements (at body "disks")) ≡ map str linux.disks)
    × (at (at_index (at body "net") 0) "tap" ≡ Json.null)
    × (at (at_index (at body "net") 0) "mac" ≡ Json.null)
create_vm_request_body_resources_example =
    create_vm_request_body_resources linux idle_status linux_accepted

create_vm_request_body_boots_example :
    (path : String) × (at (at (create_vm_request_body linux idle_status) "payload") (boot_key linux)
      ≡ str path)
    × (is_absolute path ≡ true)
create_vm_request_body_boots_example =
    create_vm_request_body_boots linux idle_status linux_accepted refl

restore_body :
    create_restore_request_body (record linux { snapshot_path = some "/var/lib/vms/vm-b.snap" })
    ≡ obj (entry "source_url" (str "file:///var/lib/vms/vm-b.snap") end)
unfolding create_restore_request_body
restore_body = refl

exhausted_test :
    error_body (into_response (from_pool_error no_available_slot)).1
    ≡ obj (entry "error" (str "pool exhausted") end)
unfolding error_body into_response from_pool_error
exhausted_test = refl
