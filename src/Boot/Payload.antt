-- ===== src/Boot/Payload.antt =====
-- src/vm_payload.rs: the bodies of the requests to a VM's control socket.
pub mod Bodies
use croutond.Base.{
  ℕ, ◌*◌, ◌%◌, ◌^◌, String, Bool, ◌||◌, Option, none, some, List, [], ◌∷◌, map, str_eq,
  if◌then◌else◌,
}
use croutond.Base.Text.{◌+++◌, trim, is_empty, to_ascii_lowercase}
use croutond.Base.Text.Decimal.{decimal}
use croutond.Base.FilePath.{extension}
use croutond.Json.{Json, str, num, arr, obj, end, entry, optional, array}
use croutond.Types.{SlotStatus, ProxyResponse}
use croutond.Boot.{BootConfig}

image_type_of : Option String → Option String
image_type_of none = none
image_type_of (some ext) =
    let lowered = to_ascii_lowercase ext in
    if str_eq lowered "qcow2" || str_eq lowered "qcow"
    then some "Qcow2"
    else if str_eq lowered "raw"
    then some "Raw"
    else none

unfoldable pub disk_image_type : String → Option String
unfolding image_type_of
disk_image_type path = image_type_of (extension path)

disk_with : String → Option String → Json
disk_with path none = obj (entry "path" (str path) end)
disk_with path (some image_type) =
    obj (entry "path" (str path) (entry "image_type" (str image_type) end))

-- One element of `disks`.
unfoldable pub disk_body : String → Json
unfolding disk_with
disk_body path = disk_with path (disk_image_type path)

-- The `if boot_mode == "uefi"`.
payload_body : BootConfig → Json
payload_body config =
    if str_eq (to_ascii_lowercase config.boot_mode) "uefi"
    then obj (entry "firmware" (optional config.firmware_path) end)
    else obj (
        entry "kernel" (optional config.kernel_path) (
          entry "initramfs" (optional config.initrd_path)
            (entry "cmdline" (optional config.cmdline) end)))

-- `config.memory_mb << 20` on a `u64`: the bits that are shifted out are lost.
abbrev pub memory_size : ℕ → ℕ
memory_size memory_mb = memory_mb * 2 ^ 20 % 2 ^ 64

unfoldable pub create_vm_request_body : BootConfig → SlotStatus → Json
unfolding payload_body
create_vm_request_body config reserved = obj (
    entry "cpus"
      (obj (entry "boot_vcpus" (num config.cpus) (entry "max_vcpus" (num config.cpus) end)))
      (entry "memory" (obj (entry "size" (num (memory_size config.memory_mb)) end)) (
        entry "payload" (payload_body config) (
          entry "disks" (arr (array (map disk_body config.disks))) (
            entry "net"
              (arr (
                array (
                  obj
                    (entry "tap" (optional reserved.tap) (entry "mac" (optional reserved.mac) end))
                  ∷ [])))
              (entry "rng" (obj (entry "src" (str "/dev/urandom") end)) end))))))

source_url : Option String → Option String
source_url none = none
source_url (some path) = some ("file://" +++ path)

unfoldable pub create_restore_request_body : BootConfig → Json
unfolding source_url
create_restore_request_body config =
    obj (entry "source_url" (optional (source_url config.snapshot_path)) end)

-- `decode` is `String::from_utf8_lossy`.
unfoldable pub format_backend_error : (List ℕ → String) → ProxyResponse → String
format_backend_error decode response =
    let body = trim (decode response.body) in
    let plain = "backend returned status " +++ decimal response.status in
    (elim response.body [
      | [] ↦ plain
      | _ ↦ if is_empty body then plain else plain +++ ": " +++ body
    ])
