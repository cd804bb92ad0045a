-- ===== src/Types.antt =====
-- The types of src/pool.rs that the slot workers, the pool and the service share.
-- `usize`, `u32` and `u64` fields are natural numbers; the operations write their wrap-around out.
use croutond.Base.{ℕ, String, ◌≡◌, Bool, true, false, Option, List, arith, ◌↔◌}

pub data VmState : Type 0 where
  running : VmState

pub data SlotState : Type 0 where
  empty booting occupied failed : SlotState

pub record VmRuntime : Type 0 where
  pub name : String
  pub mac : String
  pub tap : String
  pub pid : ℕ
  pub state : VmState
  pub started_at : String

pub record SlotStatus : Type 0 where
  pub slot : ℕ
  pub generation : ℕ
  pub state : SlotState
  pub name : Option String
  pub mac : Option String
  pub tap : Option String
  pub pid : Option ℕ
  pub started_at : Option String
  pub last_error : Option String

-- Messages of foreign errors are texts. `action` is a static text of the source.
pub data PoolError : Type 0 where
  invalid_transition : ℕ → SlotState → String → PoolError
  slot_not_found : ℕ → PoolError
  vm_already_running : String → PoolError
  no_available_slot : PoolError
  channel_closed : PoolError
  backend : String → PoolError

pub record ProxyResponse : Type 0 where
  pub status : ℕ
  pub content_type : Option String
  pub body : List ℕ

-- The derived `PartialEq` of `SlotState`.
abbrev pub state_eq : SlotState → SlotState → Bool
state_eq empty empty = true
state_eq booting booting = true
state_eq occupied occupied = true
state_eq failed failed = true
state_eq _ _ = false

-- `{state:?}`, the derived `Debug`.
unfoldable pub debug_state : SlotState → String
debug_state empty = "Empty"
debug_state booting = "Booting"
debug_state occupied = "Occupied"
debug_state failed = "Failed"

pub state_eq_iff : (a b : SlotState) → (state_eq a b ≡ true) ↔ (a ≡ b)
state_eq_iff a b = ground arith
