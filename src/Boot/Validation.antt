-- ===== src/Boot/Validation.antt =====
-- src/vm_validation.rs: `validate_boot_config`, its checks in their order.
pub mod Accepts
pub mod Blame
use croutond.Base.{
  ℕ, ◌-◌, ◌/◌, ◌^◌, String, Bool, true, false, not, ◌&&◌, Option, none, some, is_none, List, [],
  ◌∷◌, ltb, ◌==◌, str_eq, if◌then◌else◌, Result, ok, err, ◌>>◌,
}
use croutond.Base.Text.{◌+++◌, trim, is_empty, to_ascii_lowercase}
use croutond.Base.FilePath.{is_absolute}
use croutond.Error.{ApiError, validation}
use croutond.Boot.{BootConfig}

abbrev pub Checked : Type 0
Checked = Result ApiError (Unit {0})

-- `if test { return Err(ApiError::Validation { .. }) }`
abbrev pub refuse_if : Bool → String → String → Checked
refuse_if true field error = err (validation (some field) error)
refuse_if false field error = ok tt

-- `u64::MAX >> 20`
abbrev pub max_memory_mb : ℕ
max_memory_mb = (2 ^ 64 - 1) / 2 ^ 20

-- `if config.snapshot_path.is_none() { .. }`
unfoldable pub check_boot_files : BootConfig → String → Checked
check_boot_files config boot_mode =
    if is_none config.snapshot_path
    then (do
      refuse_if (str_eq boot_mode "linux" && is_none config.kernel_path) "kernelPath"
          "kernelPath is required when bootMode=linux"
      refuse_if (str_eq boot_mode "uefi" && is_none config.firmware_path) "firmwarePath"
          "firmwarePath is required when bootMode=uefi")
    else ok tt

-- `for disk in &config.disks`
unfoldable pub check_disks : List String → Checked
check_disks [] = ok tt
check_disks (disk ∷ disks) =
    let rest = check_disks disks in
    do
      refuse_if (not (is_absolute disk)) "disks" ("disk path '" +++ disk +++ "' must be absolute")
      rest

check_path : String → Option String → Checked
check_path field none = ok tt
check_path field (some path) =
    refuse_if (not (is_absolute path)) field (field +++ " must be absolute")

-- The loop over the four optional paths.
unfoldable pub check_paths : BootConfig → Checked
unfolding check_path
check_paths config = do
  check_path "kernelPath" config.kernel_path
  check_path "initrdPath" config.initrd_path
  check_path "firmwarePath" config.firmware_path
  check_path "snapshotPath" config.snapshot_path

unfoldable pub validate_boot_config : BootConfig → Checked
validate_boot_config config = do
  refuse_if (is_empty (trim config.name)) "name" "name is required"
  refuse_if (config.cpus == 0) "cpus" "cpus must be greater than zero"
  refuse_if (config.memory_mb == 0) "memoryMb" "memoryMb must be greater than zero"
  refuse_if (is_empty (trim config.boot_mode)) "bootMode" "bootMode is required"
  let boot_mode = to_ascii_lowercase config.boot_mode
  refuse_if (not (str_eq boot_mode "linux") && not (str_eq boot_mode "uefi")) "bootMode"
      "bootMode must be one of: linux, uefi"
  refuse_if (ltb max_memory_mb config.memory_mb) "memoryMb" "memoryMb is too large"
  check_boot_files config boot_mode
  check_disks config.disks
  check_paths config
