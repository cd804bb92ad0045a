-- ===== src/Boot/Payload/Bodies.antt =====
-- What the bodies say of a request.
use croutond.Base.{
  ◌*◌, ◌^◌, ◌≡◌, refl, ◌⊎◌, String, Option, none, some, List, [], ◌∷◌, map, ok, arith, str_eq,
  eq_iff, is_some, false, Option-cases, if◌then◌else◌, true, inl, inr,
}
use croutond.Base.Text.{to_ascii_lowercase}
use croutond.Base.FilePath.{is_absolute}
use croutond.Json.{at, at_index, elements, optional, str, num, array, items_to_list}
use croutond.Types.{SlotStatus}
use croutond.Boot.{BootConfig}
use croutond.Boot.Validation.{validate_boot_config}
use croutond.Boot.Validation.Accepts.{
  IsBootable, AbsoluteIfGiven, mode, one_mode, validate_boot_config_iff,
}
use croutond.Boot.Payload.{disk_image_type, disk_body, payload_body, create_vm_request_body}

create_vm_request_body-memory :
    (config : BootConfig) (reserved : SlotStatus)
    → IsBootable config
    → at (at (create_vm_request_body config reserved) "memory") "size"
      ≡ num (config.memory_mb * 2 ^ 20)
unfolding create_vm_request_body at
create_vm_request_body-memory config reserved v = ground arith

disk_path : (path : String) → at (disk_body path) "path" ≡ str path
unfolding disk_body at
disk_path path = elim (Option-cases (disk_image_type path)) [
  | inl e ↦ rw (e, disk_body) refl
  | inr (image_type, e) ↦ rw (e, disk_body) refl
]

disk_paths :
    (disks : List String)
    → map (λ disk. at disk "path") (items_to_list (array (map disk_body disks))) ≡ map str disks
disk_paths [] = refl
disk_paths (disk ∷ disks) = rw (disk_path disk, disk_paths disks)

-- For an accepted request the body of `vm.create` gives the VM its processors, its memory to the byte
-- (no accepted size is so large that the shift loses a bit), the disks in the order of the request,
-- and the network device of the slot that was reserved.
pub create_vm_request_body_resources :
    (config : BootConfig) (reserved : SlotStatus)
    → validate_boot_config config ≡ ok tt
    → let body = create_vm_request_body config reserved in
      (at (at body "cpus") "boot_vcpus" ≡ num config.cpus)
      × (at (at body "memory") "size" ≡ num (config.memory_mb * 2 ^ 20))
      × (map (λ disk. at disk "path") (elements (at body "disks")) ≡ map str config.disks)
      × (at (at_index (at body "net") 0) "tap" ≡ optional reserved.tap)
      × (at (at_index (at body "net") 0) "mac" ≡ optional reserved.mac)
unfolding create_vm_request_body at at_index
create_vm_request_body_resources config reserved h = (
  refl,
  create_vm_request_body-memory config reserved ((validate_boot_config_iff config).0 h),
  disk_paths config.disks,
  refl,
  refl,
)

-- The key of the file that a boot mode boots from.
abbrev pub boot_key : BootConfig → String
boot_key config =
    if str_eq (to_ascii_lowercase config.boot_mode) "uefi" then "firmware" else "kernel"

given_path :
    (o : Option String)
    → is_some o ≡ true
    → AbsoluteIfGiven o
    → (path : String) × (o ≡ some path) × (is_absolute path ≡ true)
given_path none h a = cc
given_path (some path) h a = (path, refl, a)

-- With no snapshot the file that the mode needs is given.
boot_file :
    (config : BootConfig)
    → config.snapshot_path ≡ none
    → IsBootable config
    → ((str_eq (mode config) "uefi" ≡ false) × (is_some config.kernel_path ≡ true))
      ⊎ ((str_eq (mode config) "uefi" ≡ true) × (is_some config.firmware_path ≡ true))
boot_file config e v =
    ground
      (arith, eq_iff (mode config) "linux", eq_iff (mode config) "uefi", one_mode (mode config))

boots_from :
    (config : BootConfig) (reserved : SlotStatus)
    → config.snapshot_path ≡ none
    → IsBootable config
    → (path : String) × (at
          (at (create_vm_request_body config reserved) "payload")
          (boot_key config)
        ≡ str path)
      × (is_absolute path ≡ true)
unfolding create_vm_request_body at
boots_from config reserved e v = elim (boot_file config e v) [
  | inl (m, given) ↦
      let (path, p, a) = given_path config.kernel_path given v.kernel in
      (path, rw (m, payload_body, p) refl, a)
  | inr (m, given) ↦
      let (path, p, a) = given_path config.firmware_path given v.firmware in
      (path, rw (m, payload_body, p) refl, a)
]

-- An accepted request that restores no snapshot names a file to boot from: the firmware for uefi, the
-- kernel otherwise. The body carries its path, which is absolute.
pub create_vm_request_body_boots :
    (config : BootConfig) (reserved : SlotStatus)
    → validate_boot_config config ≡ ok tt
    → config.snapshot_path ≡ none
    → (path : String) × (at
          (at (create_vm_request_body config reserved) "payload")
          (boot_key config)
        ≡ str path)
      × (is_absolute path ≡ true)
unfolding create_vm_request_body at
create_vm_request_body_boots config reserved h e =
    boots_from config reserved e ((validate_boot_config_iff config).0 h)
