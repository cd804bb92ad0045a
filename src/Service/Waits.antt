-- ===== src/Service/Waits.antt =====
-- The wait for a slot: it ends, and with success only when the slot's control socket can be connected.
use croutond.Base.{
  ℕ, zero, suc, ◌+◌, ◌*◌, ◌≤◌, ◌≡◌, refl, ◌∙◌, ap, sym, true, false, arith, leb, Bool-cases, inl,
  inr, ◌⊎◌, subst,
}
use croutond.Calls.{
  Outcome, Call, returned, raised, pending, continue, is_pending, ◌>>=◌, >>=-returned,
  convert-returned, convert-is_pending,
}
use croutond.Types.{SlotStatus}
use croutond.Error.{from_pool_error}
use croutond.Facade.{PoolFacade}
use croutond.Service.{
  World, Serve, is_ready, wait_round, of_pool, wait_loop, wait_for_slot_ready, max_rounds,
}

continue_ends {ℓ κ} :
    {S E : Type 0} {A : Type ℓ} {B : Type κ} (o : Outcome E A) (f : A → Call S E B) (s : S)
    → is_pending o ≡ false
    → ((a : A) → is_pending (f a s).0 ≡ false)
    → is_pending (continue o f s).0 ≡ false
continue_ends (returned a) f s h k = k a
continue_ends (raised e) f s h k = refl
continue_ends pending f s h k = cc

module _ {S : Type 0} (pool : PoolFacade S) (world : World S) where
  -- The clock counts the sleeps at least.
  abbrev pub ClockRuns : Type 0
  ClockRuns = (s : S) (slept : ℕ) → 50 * slept ≤ world.elapsed s slept

  -- Slots answer.
  abbrev pub SlotsAnswer : Type 0
  SlotsAnswer = (slot : ℕ) (s : S) → is_pending (pool.get_slot_status slot s).0 ≡ false

  module _ (runs : ClockRuns) (answer : SlotsAnswer) where
    wait_round_ends :
        (slot : ℕ) (start : S) (slept : ℕ) (again : Serve S (Unit {0})) (status : SlotStatus)
        (s : S)
        → (leb 5000 (world.elapsed start slept) ≡ false
            → is_pending (again (world.unlocked (world.unlocked s))).0 ≡ false)
        → is_pending (wait_round pool world slot start slept again status s).0 ≡ false
    unfolding wait_round
    wait_round_ends slot start slept again status s k =
        elim (Bool-cases (is_ready pool world slot status s)) [
          | inl ready ↦ rw (ready, wait_round) refl
          | inr waits ↦ elim (Bool-cases (leb 5000 (world.elapsed start slept))) [
            | inl late ↦ rw (waits, late, wait_round) refl
            | inr early ↦ rw (waits, early, wait_round) (k early)
          ]
        ]

    wait_loop_ends :
        (fuel slot : ℕ) (start : S) (slept : ℕ) (s : S)
        → slept ≤ 100
        → 101 ≤ slept + fuel
        → is_pending (wait_loop pool world fuel slot start slept s).0 ≡ false
    unfolding wait_loop ◌>>=◌
    wait_loop_ends zero slot start slept s few enough = absurd (omega arith)
    wait_loop_ends (suc fuel) slot start slept s few enough =
        continue_ends _ _ _ (convert-is_pending _ (pool.get_slot_status slot s).0 ∙ answer slot s)
          λ status. wait_round_ends slot start slept _ status _ λ early.
            let clock = runs start slept in
            wait_loop_ends fuel slot start (suc slept) _ (ground arith) (omega arith)

-- Waiting for a slot comes to an end, ready or not: the 101 rounds of the loop are enough where the
-- clock is not behind the 50 ms sleeps and the slots of the pool answer.
pub wait_for_slot_ready_ends :
    {S : Type 0} (pool : PoolFacade S) (world : World S) (slot : ℕ) (s : S)
    → ClockRuns pool world
    → SlotsAnswer pool world
    → is_pending (wait_for_slot_ready pool world slot s).0 ≡ false
unfolding wait_for_slot_ready
wait_for_slot_ready_ends pool world slot s runs answer =
    wait_loop_ends pool world runs answer max_rounds slot s 0 s (omega arith) (omega arith)

-- What a wait that ends well has seen: in some state of the pool the slot's status had a pid, and then
-- its control socket could be connected. The wait ends right after.
abbrev pub HasSeenReady : {S : Type 0} → PoolFacade S → World S → ℕ → S → Type 0
HasSeenReady {S} pool world slot end =
    (q : S) × (status : SlotStatus) × ((pool.get_slot_status slot q).0 ≡ returned status)
    × (is_ready pool world slot status (pool.get_slot_status slot q).1 ≡ true)
    × (end ≡ world.unlocked (pool.get_slot_status slot q).1)

module _ {S : Type 0} (pool : PoolFacade S) (world : World S) where
  wait_round-returned :
      (slot : ℕ) (start : S) (slept : ℕ) (again : Serve S (Unit {0})) (status : SlotStatus) (s : S)
      → (wait_round pool world slot start slept again status s).0 ≡ returned tt
      → ((is_ready pool world slot status s ≡ true)
          × ((wait_round pool world slot start slept again status s).1 ≡ world.unlocked s))
        ⊎ (((again (world.unlocked (world.unlocked s))).0 ≡ returned tt)
            × ((wait_round pool world slot start slept again status s).1
                ≡ (again (world.unlocked (world.unlocked s))).1))
  unfolding wait_round
  wait_round-returned slot start slept again status s e =
      elim (Bool-cases (is_ready pool world slot status s)) [
        | inl ready ↦ inl (ready, rw (ready, wait_round) refl)
        | inr waits ↦ elim (Bool-cases (leb 5000 (world.elapsed start slept))) [
          | inl late ↦ absurd (cc (rw (waits, late, wait_round) at e))
          | inr early ↦ inr (rw (waits, early, wait_round) at e, rw (waits, early, wait_round) refl)
        ]
      ]

  wait_loop-returned :
      (fuel slot : ℕ) (start : S) (slept : ℕ) (s : S)
      → (wait_loop pool world fuel slot start slept s).0 ≡ returned tt
      → HasSeenReady pool world slot (wait_loop pool world fuel slot start slept s).1
  unfolding wait_loop
  wait_loop-returned zero slot start slept s e = cc
  wait_loop-returned (suc fuel) slot start slept s e =
      let again = wait_loop pool world fuel slot start (suc slept) in
      let (status, got, step) =
        >>=-returned (of_pool pool world (pool.get_slot_status slot))
          (wait_round pool world slot start slept again) s e in
      let q = (pool.get_slot_status slot s).1 in
      elim (wait_round-returned slot start slept again status q (ap (λ x. x.0) (sym step) ∙ e)) [
        | inl (ready, same) ↦
            (s, status, convert-returned from_pool_error _ got, ready, ap (λ x. x.1) step ∙ same)
        | inr (more, same) ↦
            let seen = wait_loop-returned fuel slot start (suc slept) _ more in
            subst (HasSeenReady pool world slot) (sym (ap (λ x. x.1) step ∙ same)) seen
      ]

  -- A slot that has been waited for with success had a process, and a control socket that accepts
  -- connections, when the wait ended.
  pub wait_for_slot_ready-HasSeenReady :
      (slot : ℕ) (s : S)
      → (wait_for_slot_ready pool world slot s).0 ≡ returned tt
      → HasSeenReady pool world slot (wait_for_slot_ready pool world slot s).1
  unfolding wait_for_slot_ready
  wait_for_slot_ready-HasSeenReady slot s e = wait_loop-returned max_rounds slot s 0 s e
