-- ===== src/Error/Codes.antt =====
-- The status codes that a client sees.
use croutond.Base.{ℕ, ◌≡◌, ◌↔◌, none, arith, Bool, true, false}
use croutond.Types.{
  PoolError, slot_not_found, vm_already_running, no_available_slot, invalid_transition,
  channel_closed,
}
use croutond.Error.{ApiError, from_pool_error, into_response}

abbrev pub code : ApiError → ℕ
code e = (into_response e).0

-- The request is at odds with the state of the pool: the name is taken, or the slot's state refuses.
abbrev is_at_odds : PoolError → Bool
is_at_odds (vm_already_running name) = true
is_at_odds (invalid_transition slot from action) = true
is_at_odds _ = false

abbrev is_unknown_slot : PoolError → Bool
is_unknown_slot (slot_not_found slot) = true
is_unknown_slot _ = false

-- The worker has ended, or the VM's control socket failed.
abbrev is_internal : PoolError → Bool
is_internal channel_closed = true
is_internal (PoolError.backend error) = true
is_internal _ = false

-- The errors of the pool by the code of their replies: 404 is a slot that does not exist, 409 a name
-- in use or a command that the slot's state refuses, 503 a pool with no free slot, and 500 a worker
-- that has ended or a failure of the backend. No error of the pool names a field of the request.
code-from_pool_error :
    (e : PoolError)
    → ((code (from_pool_error e) ≡ 404) ↔ (is_unknown_slot e ≡ true))
      × ((code (from_pool_error e) ≡ 409) ↔ (is_at_odds e ≡ true))
      × ((code (from_pool_error e) ≡ 503) ↔ (e ≡ no_available_slot))
      × ((code (from_pool_error e) ≡ 500) ↔ (is_internal e ≡ true))
      × ((into_response (from_pool_error e)).1.field ≡ none)
unfolding from_pool_error into_response
code-from_pool_error (slot_not_found slot) = ground arith
code-from_pool_error e = ground arith
