-- ===== src/Boot/Validation/Blame.antt =====
-- What a refusal says: the field that it names is at fault.
use croutond.Base.{
  ◌-◌, ◌*◌, ◌^◌, String, ◌≡◌, refl, Bool, true, false, not, ◌&&◌, ◌||◌, Option, none, some, is_none,
  List, [], ◌∷◌, arith, ltb, ◌==◌, str_eq, eq_iff, if◌then◌else◌, ok, err, ◌>>◌, Bool-cases, subst,
  inl, inr,
}
use croutond.Base.Text.{trim, is_empty, is_blank, to_ascii_lowercase}
use croutond.Base.Text.Trim.{is_empty-trim, to_ascii_lowercase-blank}
use croutond.Base.FilePath.{is_absolute}
use croutond.Error.{ApiError, validation, not_found, conflict, pool_exhausted, backend}
use croutond.Boot.{BootConfig}
use croutond.Boot.Validation.{
  Checked, refuse_if, max_memory_mb, check_boot_files, check_disks, check_path, check_paths,
  validate_boot_config,
}

abbrev is_mode : String → BootConfig → Bool
is_mode mode config = str_eq (to_ascii_lowercase config.boot_mode) mode

-- A boot file that its mode requires and that is not given, when no snapshot is restored.
abbrev is_missing : String → Option String → BootConfig → Bool
is_missing mode path config = is_none config.snapshot_path && is_mode mode config && is_none path

abbrev is_relative : Option String → Bool
is_relative none = false
is_relative (some path) = not (is_absolute path)

abbrev some_relative : List String → Bool
some_relative [] = false
some_relative (disk ∷ disks) = not (is_absolute disk) || some_relative disks

-- Whether a field, by its name in the request, is at fault.
abbrev pub at_fault : String → BootConfig → Bool
at_fault field config =
    if str_eq field "name"
    then is_blank config.name
    else if str_eq field "cpus"
    then config.cpus == 0
    else if str_eq field "memoryMb"
    then config.memory_mb == 0 || ltb (2 ^ 64 - 1) (config.memory_mb * 2 ^ 20)
    else if str_eq field "bootMode"
    then not (is_mode "linux" config || is_mode "uefi" config)
    else if str_eq field "disks"
    then some_relative config.disks
    else if str_eq field "kernelPath"
    then is_missing "linux" config.kernel_path config || is_relative config.kernel_path
    else if str_eq field "firmwarePath"
    then is_missing "uefi" config.firmware_path config || is_relative config.firmware_path
    else if str_eq field "initrdPath"
    then is_relative config.initrd_path
    else str_eq field "snapshotPath" && is_relative config.snapshot_path

module _ (config : BootConfig) where
  -- A refusal is an error of validation that names a field which is at fault.
  abbrev IsBlamed : Checked → Type 0
  IsBlamed (ok _) = Unit
  IsBlamed (err (validation (some field) error)) = at_fault field config ≡ true
  IsBlamed (err _) = ⊥

  >>-IsBlamed : (m n : Checked) → IsBlamed m → IsBlamed n → IsBlamed (m >> n)
  >>-IsBlamed (ok _) n h k = k
  >>-IsBlamed (err e) n h k = h

  refuse_if-IsBlamed :
      (test : Bool) (field error : String)
      → (test ≡ true → at_fault field config ≡ true)
      → IsBlamed (refuse_if test field error)
  refuse_if-IsBlamed true field error h = h refl
  refuse_if-IsBlamed false field error h = tt

  check_disks-IsBlamed :
      (disks : List String)
      → (some_relative disks ≡ true → some_relative config.disks ≡ true)
      → IsBlamed (check_disks disks)
  unfolding check_disks
  check_disks-IsBlamed [] h = tt
  check_disks-IsBlamed (disk ∷ disks) h =
      >>-IsBlamed _ _ (refuse_if-IsBlamed (not (is_absolute disk)) "disks" _ λ r. h (ground arith))
        (check_disks-IsBlamed disks λ r. h (ground arith))

  check_path-IsBlamed :
      (field : String) (path : Option String)
      → (is_relative path ≡ true → at_fault field config ≡ true)
      → IsBlamed (check_path field path)
  unfolding check_path
  check_path-IsBlamed field none h = tt
  check_path-IsBlamed field (some path) h = refuse_if-IsBlamed _ field _ h

  check_paths-IsBlamed : IsBlamed (check_paths config)
  unfolding check_paths
  check_paths-IsBlamed =
      >>-IsBlamed _ _ (check_path-IsBlamed "kernelPath" config.kernel_path λ r. ground arith) (
        >>-IsBlamed _ _ (check_path-IsBlamed "initrdPath" config.initrd_path λ r. r) (
          >>-IsBlamed _ _
            (check_path-IsBlamed "firmwarePath" config.firmware_path λ r. ground arith)
            (check_path-IsBlamed "snapshotPath" config.snapshot_path λ r. r)))

  check_boot_files-IsBlamed :
      IsBlamed (check_boot_files config (to_ascii_lowercase config.boot_mode))
  unfolding check_boot_files
  check_boot_files-IsBlamed = elim (Bool-cases (is_none config.snapshot_path)) [
    | inl h ↦
        rw (h, check_boot_files)
          (>>-IsBlamed _ _
            (refuse_if-IsBlamed (is_mode "linux" config && is_none config.kernel_path) "kernelPath"
              _ λ r. rw (h, r) refl)
            (refuse_if-IsBlamed (is_mode "uefi" config && is_none config.firmware_path)
              "firmwarePath" _ λ r. rw (h, r) refl))
    | inr h ↦ rw (h, check_boot_files) tt
  ]

-- `blank` is neither of the two boot modes.
blank_mode :
    (s mode : String)
    → is_blank s ≡ true
    → is_blank mode ≡ false
    → str_eq (to_ascii_lowercase s) mode ≡ false
blank_mode s mode h n = elim (Bool-cases (str_eq (to_ascii_lowercase s) mode)) [
  | inl e ↦ absurd (cc ((eq_iff _ mode).0 e, to_ascii_lowercase-blank s h))
  | inr e ↦ e
]

blank_fault :
    (config : BootConfig)
    → is_empty (trim config.boot_mode) ≡ true
    → at_fault "bootMode" config ≡ true
blank_fault config r =
    let blank = rw is_empty-trim at r in
    rw
      (
        blank_mode config.boot_mode "linux" blank refl,
        blank_mode config.boot_mode "uefi" blank refl,
      )
      refl

mode_fault :
    (config : BootConfig)
    → (not (is_mode "linux" config) && not (is_mode "uefi" config)) ≡ true
    → at_fault "bootMode" config ≡ true
mode_fault config r = ground arith

memory_fault :
    (config : BootConfig)
    → ltb max_memory_mb config.memory_mb ≡ true
    → at_fault "memoryMb" config ≡ true
memory_fault config r = ground arith

validate_boot_config-IsBlamed :
    (config : BootConfig) → IsBlamed config (validate_boot_config config)
unfolding validate_boot_config
validate_boot_config-IsBlamed config =
    >>-IsBlamed config _ _
      (refuse_if-IsBlamed config _ "name" _ λ r. rw (← is_empty-trim config.name) r)
      (>>-IsBlamed config _ _ (refuse_if-IsBlamed config _ "cpus" _ λ r. r) (
        >>-IsBlamed config _ _ (refuse_if-IsBlamed config _ "memoryMb" _ λ r. rw r refl) (
          >>-IsBlamed config _ _ (refuse_if-IsBlamed config _ "bootMode" _ (blank_fault config)) (
            >>-IsBlamed config _ _ (refuse_if-IsBlamed config _ "bootMode" _ (mode_fault config)) (
              >>-IsBlamed config _ _
                (refuse_if-IsBlamed config _ "memoryMb" _ (memory_fault config))
                (>>-IsBlamed config _ _ (check_boot_files-IsBlamed config) (
                  >>-IsBlamed config _ _ (check_disks-IsBlamed config config.disks λ r. r)
                    (check_paths-IsBlamed config))))))))

blamed_error :
    (config : BootConfig) (e : ApiError)
    → IsBlamed config (err e)
    → (field : String) × (error : String) × (e ≡ validation (some field) error)
      × (at_fault field config ≡ true)
blamed_error config (validation (some field) error) h = (field, error, refl, h)
blamed_error config (validation none error) h = elim h [ ]
blamed_error config (not_found error) h = elim h [ ]
blamed_error config (conflict error) h = elim h [ ]
blamed_error config (pool_exhausted error) h = elim h [ ]
blamed_error config (backend error) h = elim h [ ]

-- A request that is refused is refused for a field that is at fault, by an error of validation that
-- names this field.
pub validate_boot_config_blames :
    (config : BootConfig) (e : ApiError)
    → validate_boot_config config ≡ err e
    → (field : String) × (error : String) × (e ≡ validation (some field) error)
      × (at_fault field config ≡ true)
validate_boot_config_blames config e refused =
    blamed_error config e (subst (IsBlamed config) refused (validate_boot_config-IsBlamed config))
