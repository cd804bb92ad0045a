-- ===== src/Error.antt =====
-- src/error.rs: the errors of the HTTP interface, and `Display` for `PoolError` of src/pool.rs.
-- `Json` in a reply is serde_json's: a reply is the status code and the value that is serialised.
pub mod Codes
use croutond.Base.{ℕ, String, Option, none, some}
use croutond.Base.Text.{◌+++◌}
use croutond.Base.Text.Decimal.{decimal}
use croutond.Json.{Json, Fields, end, entry}
use croutond.Types.{
  PoolError, SlotState, slot_not_found, vm_already_running, no_available_slot, invalid_transition,
  channel_closed, debug_state,
}

pub data ApiError : Type 0 where
  validation : Option String → String → ApiError
  not_found conflict pool_exhausted backend : String → ApiError

transition_text : ℕ → SlotState → String → String
transition_text slot from action =
    "slot "
    +++ decimal slot
    +++ " cannot perform "
    +++ action
    +++ " from state "
    +++ debug_state from

-- `impl fmt::Display for PoolError`
unfoldable pub display : PoolError → String
unfolding transition_text
display (invalid_transition slot from action) = transition_text slot from action
display (slot_not_found slot) = "slot " +++ decimal slot +++ " does not exist"
display (vm_already_running name) = "VM '" +++ name +++ "' is already running"
display no_available_slot = "pool is exhausted"
display channel_closed = "slot worker channel is closed"
display (PoolError.backend error) = "backend request failed: " +++ error

-- `impl From<PoolError> for ApiError`
unfoldable pub from_pool_error : PoolError → ApiError
unfolding transition_text
from_pool_error (slot_not_found slot) = not_found ("slot " +++ decimal slot +++ " does not exist")
from_pool_error (vm_already_running name) = conflict ("VM '" +++ name +++ "' is already running")
from_pool_error no_available_slot = pool_exhausted "pool exhausted"
from_pool_error (invalid_transition slot from action) = conflict (transition_text slot from action)
from_pool_error channel_closed = backend "slot worker channel is closed"
from_pool_error (PoolError.backend error) = backend error

pub record ErrorResponse : Type 0 where
  pub error : String
  pub field : Option String

abbrev respond : ℕ → Option String → String → ℕ × ErrorResponse
respond status field error = (status, record { error = error; field = field })

-- `impl IntoResponse for ApiError`
unfoldable pub into_response : ApiError → ℕ × ErrorResponse
into_response (validation field error) = respond 400 field error
into_response (not_found error) = respond 404 none error
into_response (conflict error) = respond 409 none error
into_response (pool_exhausted error) = respond 503 none error
into_response (backend error) = respond 500 none error

-- The body that `Json(ErrorResponse { .. })` serialises: a missing field is left out.
unfoldable pub error_body : ErrorResponse → Json
error_body r = Json.obj (entry "error" (Json.str r.error) (field_of r.field))
  where
    field_of : Option String → Fields
    field_of none = end
    field_of (some name) = entry "field" (Json.str name) end
