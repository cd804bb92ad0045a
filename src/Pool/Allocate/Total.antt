-- ===== src/Pool/Allocate/Total.antt =====
-- Every call to the workers comes to an end, and so does the loop of `allocate_vm_slot`.
use croutond.Base.{
  ℕ, zero, suc, ◌+◌, ◌≤◌, String, ◌≡◌, refl, Bool, true, false, some, none, Option, get_elem?, leb,
  arith, is_some, Bool-cases, Option-cases, inl, inr, List, ok, err,
}
use croutond.Types.{SlotStatus, PoolError}
use croutond.Slot.{SlotCommand, reserve_vm, get_vm_status, Os, Reply, status, result}
use croutond.Slot.Worker.{Config, Phase, live, stopped}
use croutond.Pool.{
  ProcessPool, Env, PoolCall, Outcome, returned, raised, pending, continue, ◌>>=◌, size, logged,
  ask, pass_time, deliver, reply_outcome, get_vm_slot_status, statuses_from, list_vm_slots,
  find_vm_slot_status_by_name, log_pool_occupancy, command_vm_slot, extend, reserve_vm_slot,
  allocate_step, allocate_loop, allocate_unless, allocate_vm_slot, tap_name,
}
use croutond.Calls.{is_pending}
use croutond.Pool.Keeps.{
  AskKeeps, ask_found, ask_missing, list_vm_slots-Keeps, log_pool_occupancy-Keeps,
}
use croutond.Pool.Size.{ask-frame-Keeps, size-push_slots}
use croutond.Pool.Allocate.Bounds.{push_slots_bounds}

-- `m` ends, from every state.
pub record Ends {ℓ} {A : Type ℓ} (m : PoolCall A) : Type 0 where
  pub at : (p : ProcessPool) → is_pending (m p).0 ≡ false

module _ {ℓ κ} {A : Type ℓ} {B : Type κ} where
  Ends-continue :
      (outcome : Outcome PoolError A) (f : A → PoolCall B) (p : ProcessPool)
      → is_pending outcome ≡ false
      → ((a : A) → is_pending (f a p).0 ≡ false)
      → is_pending (continue outcome f p).0 ≡ false
  Ends-continue (returned a) f p h k = k a
  Ends-continue (raised e) f p h k = refl
  Ends-continue pending f p h k = h

  pub bind_ends :
      (m : PoolCall A) (f : A → PoolCall B) (p : ProcessPool)
      → is_pending (m p).0 ≡ false
      → ((a : A) → is_pending (f a (m p).1).0 ≡ false)
      → is_pending ((m >>= f) p).0 ≡ false
  unfolding ◌>>=◌
  bind_ends m f p h k = Ends-continue (m p).0 f (m p).1 h k

  pub Ends-bind :
      (m : PoolCall A) (f : A → PoolCall B) → Ends m → ((a : A) → Ends (f a)) → Ends (m >>= f)
  unfolding ◌>>=◌
  Ends-bind m f k l = record {
    at = λ p. Ends-continue (m p).0 f (m p).1 (k.at p) λ a. (l a).at (m p).1;
  }

reply_ends : (reply : Reply) → is_pending (reply_outcome reply) ≡ false
reply_ends (status s) = refl
reply_ends (result (ok s)) = refl
reply_ends (result (err e)) = refl

deliver_ends :
    (os : Os) (command : SlotCommand) (c : Config) (phase : Phase)
    → is_pending (deliver os command c phase).0 ≡ false
unfolding deliver
deliver_ends os command c (stopped rt) = refl
deliver_ends os command c (live rt) = reply_ends _

logged_ends :
    (outcome : Outcome PoolError (List SlotStatus))
    → is_pending outcome ≡ false
    → is_pending (logged outcome) ≡ false
logged_ends outcome h = ground arith

suc_injective : (m n : ℕ) → suc m ≡ suc n → m ≡ n
suc_injective m n e = omega arith

room_left :
    (limit n : ℕ) (p : ProcessPool)
    → leb p.max_pool_size (size p) ≡ false
    → (p.max_pool_size ≡ limit) × (limit ≤ size p + n)
    → (m : ℕ) × (n ≡ suc m)
room_left limit zero p below h = absurd (ground arith)
room_left limit (suc m) p below h = (m, refl)

module _ (env : Env) where
  pub ask-Ends : (slot : ℕ) (command : SlotCommand) → Ends (ask env slot command)
  ask-Ends slot command = record {
    at = λ p. elim (Option-cases (get_elem? (pass_time env p).slots slot)) [
      | inl e ↦ rw (ask_missing env slot command p e) refl
      | inr (h, e) ↦ rw (ask_found env slot command p h e) (deliver_ends _ command h.config h.phase)
    ];
  }

  statuses_from-Ends : (n slot : ℕ) → Ends (statuses_from env n slot)
  unfolding statuses_from get_vm_slot_status
  statuses_from-Ends zero slot = record { at = λ p. refl }
  statuses_from-Ends (suc n) slot =
      Ends-bind _ _ (ask-Ends slot get_vm_status)
        λ s. Ends-bind _ _ (statuses_from-Ends n (suc slot)) λ rest. record { at = λ p. refl }

  pub list_vm_slots-Ends : Ends (list_vm_slots env)
  unfolding list_vm_slots
  list_vm_slots-Ends = record { at = λ p. (statuses_from-Ends (size p) 0).at p }

  log-Ends : Ends (log_pool_occupancy env)
  unfolding log_pool_occupancy
  log-Ends = record { at = λ p. logged_ends _ (list_vm_slots-Ends.at p) }

  pub command-Ends : (command : SlotCommand) (slot : ℕ) → Ends (command_vm_slot env command slot)
  unfolding command_vm_slot
  command-Ends command slot =
      Ends-bind _ _ (ask-Ends slot command)
        λ s. Ends-bind _ _ log-Ends λ _. record { at = λ p. refl }

  -- The loop adds at most `n` slots more.
  abbrev Room : ℕ → ℕ → ProcessPool → Type 0
  Room limit n p = (p.max_pool_size ≡ limit) × (limit ≤ size p + n)

  Room-Keeps : (limit n : ℕ) (command : SlotCommand) → AskKeeps env (Room limit n) command
  Room-Keeps limit n command = ask-frame-Keeps env (Room limit n) command λ p q same h. ground arith

  Room-extend :
      (limit n : ℕ) (p : ProcessPool) → Room limit (suc n) p → Room limit n (extend env 1 p).1
  unfolding extend
  Room-extend limit n p h =
      (log_pool_occupancy-Keeps env (Room limit n) (Room-Keeps limit n get_vm_status)).at _
        (ground (arith, size-push_slots 1 p, push_slots_bounds 1 p))

  extend-Ends : Ends (extend env 1)
  unfolding extend
  extend-Ends = record { at = λ p. log-Ends.at _ }

  -- One round, for a loop that ends where one slot more is there.
  step_ends :
      (limit n : ℕ) (again : PoolCall SlotStatus) (name mac : String) (found : Option SlotStatus)
      (p : ProcessPool)
      → ((q : ProcessPool) (m : ℕ) → n ≡ suc m → Room limit m q → is_pending (again q).0 ≡ false)
      → Room limit n p
      → is_pending (allocate_step env found again name mac p).0 ≡ false
  unfolding allocate_step reserve_vm_slot
  step_ends limit n again name mac (some s) p k h =
      (command-Ends (reserve_vm name mac (tap_name env s.slot)) s.slot).at p
  step_ends limit n again name mac none p k h = elim (Bool-cases (leb p.max_pool_size (size p))) [
    | inl full ↦ rw (full, allocate_step) refl
    | inr below ↦
        rw (below, allocate_step)
          (let (m, e) = room_left limit n p below h in
            let h' : Room limit (suc m) p = rw e at h in
            bind_ends (extend env 1) (λ _. again) p (extend-Ends.at p)
              λ _. k _ m e (Room-extend limit m p h'))
  ]

  listed : (limit n : ℕ) (p : ProcessPool) → Room limit n p → Room limit n (list_vm_slots env p).1
  listed limit n p h =
      (list_vm_slots-Keeps env (Room limit n) (Room-Keeps limit n get_vm_status)).at p h

  loop_ends :
      (limit n : ℕ) (name mac : String) (p : ProcessPool)
      → Room limit n p
      → is_pending (allocate_loop env (suc n) name mac p).0 ≡ false
  unfolding allocate_loop
  loop_ends limit zero name mac p h =
      bind_ends (list_vm_slots env) _ p (list_vm_slots-Ends.at p) λ statuses.
        step_ends limit 0 _ name mac _ _ (λ q m e. absurd (omega arith)) (listed limit 0 p h)
  loop_ends limit (suc n) name mac p h =
      bind_ends (list_vm_slots env) _ p (list_vm_slots-Ends.at p) λ statuses.
        step_ends limit (suc n) _ name mac _ _
          (λ q m e r. loop_ends limit n name mac q (rw (suc_injective n m e) r))
          (listed limit (suc n) p h)

  find-Ends : (name : String) → Ends (find_vm_slot_status_by_name env name)
  unfolding find_vm_slot_status_by_name
  find-Ends name = Ends-bind _ _ list_vm_slots-Ends λ statuses. record { at = λ p. refl }

  unless-Ends : (taken : Bool) (name mac : String) → Ends (allocate_unless env taken name mac)
  unfolding allocate_unless
  unless-Ends true name mac = record { at = λ p. refl }
  unless-Ends false name mac = record {
    at = λ p. loop_ends p.max_pool_size p.max_pool_size name mac p (refl, omega arith);
  }

-- Allocating a slot always comes to an end, with a slot or with an error, whatever the workers do and
-- however large the pool is.
pub allocate_vm_slot_ends :
    (env : Env) (name mac : String) (p : ProcessPool)
    → is_pending (allocate_vm_slot env name mac p).0 ≡ false
unfolding allocate_vm_slot
allocate_vm_slot_ends env name mac p =
    bind_ends (find_vm_slot_status_by_name env name) _ p ((find-Ends env name).at p)
      λ found. (unless-Ends env (is_some found) name mac).at _
