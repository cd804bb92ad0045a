-- ===== src/Boot.antt =====
-- The request to create a VM: `BootConfig` of src/service.rs, its check in src/vm_validation.rs and
-- the bodies made from it in src/vm_payload.rs. Paths are texts; a path that is no Unicode is left out.
pub mod Validation
pub mod Payload
use croutond.Base.{ℕ, String, Option, List}

-- `cpus` is a `u16` and `memory_mb` a `u64`.
pub record BootConfig : Type 0 where
  pub name : String
  pub cpus : ℕ
  pub memory_mb : ℕ
  pub boot_mode : String
  pub disks : List String
  pub kernel_path : Option String
  pub initrd_path : Option String
  pub cmdline : Option String
  pub firmware_path : Option String
  pub snapshot_path : Option String
