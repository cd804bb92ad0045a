-- ===== src/Pool/Occupancy.antt =====
-- What `log_pool_occupancy` of src/pool.rs writes to the log of the statuses that it has collected, with
-- `format_slot_summary`.
use croutond.Base.{
  ℕ, suc, ◌+◌, String, ◌≡◌, refl, Option, none, some, List, [], ◌∷◌, length, map, count_if, arith,
}
use croutond.Base.Text.{◌+++◌}
use croutond.Base.Text.Decimal.{decimal}
use croutond.Types.{SlotStatus, SlotState, debug_state}
use croutond.Slot.Worker.{initial}
use croutond.Pool.{is_in}

record Occupancy : Type 0 where
  reason : String
  size : ℕ
  occupied : ℕ
  booting : ℕ
  empty : ℕ
  failed : ℕ
  slots : String

abbrev join : List String → String
join [] = ""
join (part ∷ []) = part
join (part ∷ next ∷ rest) = part +++ "," +++ join (next ∷ rest)

abbrev name_or_dash : Option String → String
name_or_dash (some name) = name
name_or_dash none = "-"

abbrev summary_of : SlotStatus → String
summary_of s =
    decimal s.slot +++ ":" +++ debug_state s.state +++ "(" +++ name_or_dash s.name +++ ")"

unfoldable format_slot_summary : List SlotStatus → String
format_slot_summary statuses = join (map summary_of statuses)

unfoldable occupancy : String → List SlotStatus → Occupancy
unfolding format_slot_summary
occupancy reason statuses = record {
  reason = reason;
  size = length statuses;
  occupied = count_if (is_in SlotState.occupied) statuses;
  booting = count_if (is_in SlotState.booting) statuses;
  empty = count_if (is_in SlotState.empty) statuses;
  failed = count_if (is_in SlotState.failed) statuses;
  slots = format_slot_summary statuses;
}

abbrev sum_of_counts : List SlotStatus → ℕ
sum_of_counts ss =
    count_if (is_in SlotState.occupied) ss
    + count_if (is_in SlotState.booting) ss
    + count_if (is_in SlotState.empty) ss
    + count_if (is_in SlotState.failed) ss

count-cons :
    (s : SlotStatus) (ss : List SlotStatus) → sum_of_counts (s ∷ ss) ≡ suc (sum_of_counts ss)
count-cons s ss = ground arith

counts_add_up : (statuses : List SlotStatus) → sum_of_counts statuses ≡ length statuses
counts_add_up [] = refl
counts_add_up (s ∷ ss) = omega (arith, count-cons s ss, counts_add_up ss)

-- The four counts of a log entry add up to its size.
occupancy_adds_up :
    (reason : String) (statuses : List SlotStatus)
    → let o = occupancy reason statuses in o.occupied + o.booting + o.empty + o.failed ≡ o.size
unfolding occupancy
occupancy_adds_up reason statuses = counts_add_up statuses

occupancy_test :
    (occupancy "pool extended" ((initial 0).status ∷ (initial 1).status ∷ [])).slots
    ≡ "0:Empty(-),1:Empty(-)"
unfolding occupancy decimal initial debug_state
occupancy_test = refl
