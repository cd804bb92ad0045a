-- ===== src/Tap.antt =====
-- src/net_tap.rs: the TAP device of a slot. The TUN crate and the `ip` program are parameters.
use croutond.Base.{String, Bool, ◌||◌, Option, none, some, if◌then◌else◌, Result, ok, err}
use croutond.Base.Text.{◌+++◌, trim, is_empty, contains, to_ascii_lowercase}
use croutond.Types.{PoolError, backend}

-- What `std::process::Output` of `ip link` holds: whether the status is a success, the text that
-- the status displays, and stderr, decoded.
pub record Output : Type 0 where
  pub success : Bool
  pub status : String
  pub stderr : String

-- The foreign calls of this module: each returns, or fails with an error that displays as a text.
pub record Net : Type 0 where
  pub build : String → Result String (Unit {0})
  pub ip_link : String → String → Result String Output

is_tap_exists_error : String → Bool
is_tap_exists_error error =
    let message = to_ascii_lowercase error in
    contains "file exists" message
    || contains "already exists" message
    || contains "device or resource busy" message

attach_failure : String → String → String → PoolError
attach_failure name bridge detail = backend (
    "failed to attach tap interface '" +++ name +++ "' to bridge '" +++ bridge +++ "': " +++ detail)

attach_tap_to_bridge : Net → String → String → Result PoolError (Unit {0})
unfolding attach_failure
attach_tap_to_bridge net name bridge = elim (net.ip_link name bridge) [
  | err error ↦ err (attach_failure name bridge error)
  | ok output ↦
      if output.success
      then ok tt
      else (let stderr = trim output.stderr in
          err (
            attach_failure name bridge (
              if is_empty stderr then "ip link exited with status " +++ output.status else stderr)))
]

-- The `if let Some(bridge)` of both successful arms.
attach : Net → String → Option String → Result PoolError (Unit {0})
unfolding attach_tap_to_bridge
attach net name none = ok tt
attach net name (some bridge) = attach_tap_to_bridge net name bridge

unfoldable pub ensure_tap_device : Net → String → Option String → Result PoolError (Unit {0})
unfolding attach is_tap_exists_error
ensure_tap_device net name bridge = elim (net.build name) [
  | ok _ ↦ attach net name bridge
  | err error ↦
      if is_tap_exists_error error
      then attach net name bridge
      else err (backend ("failed to create tap interface '" +++ name +++ "': " +++ error))
]
