-- ===== src/Boot/Validation/Accepts.antt =====
-- Which requests are accepted.
use croutond.Base.{
  ◌*◌, ◌^◌, ◌<◌, String, ◌≡◌, refl, ◌↔◌, ◌⊎◌, inl, inr, true, false, not, ◌&&◌, Option, none, some,
  is_some, List, [], ◌∷◌, All, arith, str_eq, eq_iff, ok, Bool-cases, ◌>>◌,
}
use croutond.Base.Text.{is_blank, to_ascii_lowercase}
use croutond.Base.Text.Trim.{is_empty-trim, to_ascii_lowercase-blank}
use croutond.Base.FilePath.{is_absolute}
use croutond.Boot.{BootConfig}
use croutond.Boot.Validation.{
  Checked, check_boot_files, check_disks, check_path, check_paths, validate_boot_config,
}

-- An optional path, if given, is absolute.
abbrev pub AbsoluteIfGiven : Option String → Type 0
AbsoluteIfGiven none = Unit
AbsoluteIfGiven (some path) = is_absolute path ≡ true

-- The boot modes, in any case of letters, each with the file that it boots from. A restore from a
-- snapshot needs neither.
abbrev pub HasBootFile : BootConfig → Type 0
HasBootFile config =
    ((to_ascii_lowercase config.boot_mode ≡ "linux")
      × ((is_some config.snapshot_path ≡ true) ⊎ (is_some config.kernel_path ≡ true)))
    ⊎ ((to_ascii_lowercase config.boot_mode ≡ "uefi")
        × ((is_some config.snapshot_path ≡ true) ⊎ (is_some config.firmware_path ≡ true)))

-- What a request must be, without the order of the checks.
pub record IsBootable (config : BootConfig) : Type 0 where
  pub named : is_blank config.name ≡ false
  pub powered : 0 < config.cpus
  pub sized : 0 < config.memory_mb
  pub fits : config.memory_mb * 2 ^ 20 < 2 ^ 64
  pub booted : HasBootFile config
  pub disks : All (λ disk. is_absolute disk ≡ true) config.disks
  pub kernel : AbsoluteIfGiven config.kernel_path
  pub initrd : AbsoluteIfGiven config.initrd_path
  pub firmware : AbsoluteIfGiven config.firmware_path
  pub snapshot : AbsoluteIfGiven config.snapshot_path

check_path_iff :
    (field : String) (path : Option String) → (check_path field path ≡ ok tt) ↔ AbsoluteIfGiven path
unfolding check_path
check_path_iff field none = ground arith
check_path_iff field (some path) = ground arith

check_disks_iff :
    (disks : List String)
    → (check_disks disks ≡ ok tt) ↔ All (λ disk. is_absolute disk ≡ true) disks
unfolding check_disks
check_disks_iff [] = ground arith
check_disks_iff (disk ∷ disks) = ground (arith, check_disks_iff disks)

-- Both sides succeed.
>>-eq-ok : (m n : Checked) → ((m >> n) ≡ ok tt) ↔ ((m ≡ ok tt) × (n ≡ ok tt))
>>-eq-ok m n = ground arith

check_paths_iff :
    (config : BootConfig)
    → (check_paths config ≡ ok tt) ↔ (
        AbsoluteIfGiven config.kernel_path
        × AbsoluteIfGiven config.initrd_path
        × AbsoluteIfGiven config.firmware_path
        × AbsoluteIfGiven config.snapshot_path)
unfolding check_paths
check_paths_iff config = ground (
  arith,
  check_path_iff "kernelPath" config.kernel_path,
  check_path_iff "initrdPath" config.initrd_path,
  check_path_iff "firmwarePath" config.firmware_path,
  check_path_iff "snapshotPath" config.snapshot_path,
)

-- A boot mode that lowers to a text which is not blank is not blank itself.
blank_lower : (s t : String) → to_ascii_lowercase s ≡ t → is_blank t ≡ false → is_blank s ≡ false
blank_lower s t e h = elim (Bool-cases (is_blank s)) [
  | inl b ↦ absurd (cc (to_ascii_lowercase-blank s b))
  | inr n ↦ n
]

pub one_mode : (m : String) → str_eq m "linux" ≡ true → str_eq m "uefi" ≡ false
one_mode m h = rw ((eq_iff m "linux").0 h) refl

abbrev pub mode : BootConfig → String
mode config = to_ascii_lowercase config.boot_mode

check_boot_files_iff :
    (config : BootConfig)
    → ((not (str_eq (mode config) "linux") && not (str_eq (mode config) "uefi")) ≡ false)
        × (check_boot_files config (mode config) ≡ ok tt)
      ↔ HasBootFile config
unfolding check_boot_files
check_boot_files_iff config =
    ground
      (arith, eq_iff (mode config) "linux", eq_iff (mode config) "uefi", one_mode (mode config))

HasBootFile-named : (config : BootConfig) → HasBootFile config → is_blank config.boot_mode ≡ false
HasBootFile-named config (inl (e, h)) = blank_lower config.boot_mode "linux" e refl
HasBootFile-named config (inr (e, h)) = blank_lower config.boot_mode "uefi" e refl

-- A request is accepted exactly when it is bootable.
pub validate_boot_config_iff :
    (config : BootConfig) → (validate_boot_config config ≡ ok tt) ↔ IsBootable config
unfolding validate_boot_config
validate_boot_config_iff config = ground (
  arith,
  is_empty-trim config.name,
  is_empty-trim config.boot_mode,
  HasBootFile-named config,
  check_boot_files_iff config,
  check_disks_iff config.disks,
  check_paths_iff config,
)
