-- ===== src/Pool/Warm.antt =====
-- A pool that has just been spawned, once its workers have started their children: the first slot is
-- the one that the next request gets.
use croutond.Base.{
  ℕ, zero, suc, ◌+◌, String, ◌≡◌, refl, ◌∙◌, ap, none, some, List, [], ◌∷◌, ◌++◌, Option, find, ok,
  Bool-cases, inl, inr, arith, ltb, length, subst, ◌<◌, All,
}
use croutond.Types.{empty}
use croutond.Slot.{Child}
use croutond.Slot.Worker.{Round, live, initial, with_child, supervise}
use croutond.Slot.Warm.{Starts, supervise-Starts}
use croutond.Slot.Invariant.{IsValid}
use croutond.Slot.Handle.{SlotHandle, initialize_slot}
use croutond.Pool.{ProcessPool, is_named, is_in, size, push_slots}
use croutond.Pool.Scale.{new_pool, spawn_pool}
use croutond.Pool.Invariant.{SlotsAreValid}
use croutond.Pool.Size.{size-push_slots}
use croutond.Pool.Quiet.{IsUp, IsLive, view}

-- The workers from slot `i` on, each after its rounds.
abbrev pub run_workers : (ℕ → List Round) → ℕ → List SlotHandle → List SlotHandle
run_workers rounds i [] = []
run_workers rounds i (h ∷ hs) =
    record h { phase = supervise h.config (rounds i) h.phase } ∷ run_workers rounds (suc i) hs

abbrev pub run_pool : (ℕ → List Round) → ProcessPool → ProcessPool
run_pool rounds p = record p { slots = run_workers rounds 0 p.slots }

-- Slots as they are made, from slot `i` on.
abbrev AreNew : ℕ → List SlotHandle → Type 0
AreNew i [] = Unit {0}
AreNew i (h ∷ hs) = (h.config.slot ≡ i) × (h.phase ≡ live (initial i)) × AreNew (suc i) hs

AreNew-append :
    (i n : ℕ) (hs : List SlotHandle) (h : SlotHandle)
    → AreNew i hs
    → length hs + i ≡ n
    → h.config.slot ≡ n
    → h.phase ≡ live (initial n)
    → AreNew i (hs ++ h ∷ [])
AreNew-append i n [] h new e at starts =
    let here : n ≡ i = omega (arith, e) in
    (at ∙ here, starts ∙ ap (λ slot. live (initial slot)) here, tt)
AreNew-append i n (x ∷ xs) h (at', starts', new) e at starts =
    (at', starts', AreNew-append (suc i) n xs h new (omega (arith, e)) at starts)

push_slots-AreNew : (n : ℕ) (p : ProcessPool) → AreNew 0 p.slots → AreNew 0 (push_slots n p).slots
unfolding push_slots initialize_slot
push_slots-AreNew zero p new = new
push_slots-AreNew (suc n) p new =
    push_slots-AreNew n _ (AreNew-append 0 (size p) p.slots _ new (omega arith) refl refl)

module _ (rounds : ℕ → List Round) (child : ℕ → Child)
    (starts : (slot : ℕ) → Starts (child slot) (rounds slot)) where
  initial_starts :
      (i : ℕ) (h : SlotHandle)
      → h.phase ≡ live (initial i)
      → supervise h.config (rounds i) h.phase ≡ live (with_child (initial i) (child i))
  unfolding initial
  initial_starts i h new =
      ap (supervise h.config (rounds i)) new
      ∙ supervise-Starts h.config (child i) (rounds i) (initial i) refl refl (starts i)

  warm-IsValid : (i : ℕ) → IsValid i (with_child (initial i) (child i))
  unfolding initial
  warm-IsValid i = record {
    numbered = refl;
    filled = (refl, refl, refl, refl, refl);
    pid = refl;
    childless = tt;
  }

  run_workers-AreValid :
      (i : ℕ) (hs : List SlotHandle)
      → AreNew i hs
      → SlotsAreValid i (run_workers rounds i hs) × All IsLive (run_workers rounds i hs)
  run_workers-AreValid i [] new = (tt, tt)
  run_workers-AreValid i (h ∷ hs) (at, new, news) =
      let (valid, lives) = run_workers-AreValid (suc i) hs news in
      rw (initial_starts i h new) (((at, warm-IsValid i), valid), ((_, refl), lives))

  run_workers_free :
      (name : String) (i : ℕ) (hs : List SlotHandle)
      → AreNew i hs
      → find (is_named name) (view (run_workers rounds i hs)) ≡ none
  unfolding initial
  run_workers_free name i [] new = refl
  run_workers_free name i (h ∷ hs) (at, new, news) =
      rw (initial_starts i h new) (run_workers_free name (suc i) hs news)

  head_warm :
      (i : ℕ) (h : SlotHandle) (hs : List SlotHandle)
      → AreNew i (h ∷ hs)
      → find (is_in empty) (view (run_workers rounds i (h ∷ hs)))
        ≡ some (with_child (initial i) (child i)).status
  unfolding initial
  head_warm i h hs (at, new, news) = rw (initial_starts i h new) refl

  first_warm :
      (hs : List SlotHandle)
      → AreNew 0 hs
      → 0 < length hs
      → find (is_in empty) (view (run_workers rounds 0 hs))
        ≡ some (with_child (initial 0) (child 0)).status
  first_warm [] new some_slot = absurd (omega arith)
  first_warm (h ∷ hs) new some_slot = head_warm 0 h hs new

  -- The pool is up, no slot carries a name, and the first slot is the first empty one and has its child.
  pub record IsWarm (p : ProcessPool) : Type 0 where
    pub up : IsUp p
    pub free : (name : String) → find (is_named name) (view p.slots) ≡ none
    pub first : find (is_in empty) (view p.slots) ≡ some (with_child (initial 0) (child 0)).status

  -- A spawned pool of at least one slot is warm after rounds in which a child starts at each slot and
  -- the workers are left alone.
  pub spawn_pool-IsWarm :
      (min max cooldown : ℕ) (program : String) (args : List String) (bridge : Option String)
      (vm_path : String) (p : ProcessPool)
      → 0 < min
      → spawn_pool min max cooldown program args bridge vm_path ≡ ok p
      → IsWarm (run_pool rounds p)
  unfolding spawn_pool
  spawn_pool-IsWarm min max cooldown program args bridge vm_path p some_slot e =
      let new = new_pool min max cooldown program args bridge vm_path in
      elim (Bool-cases (ltb max min)) [
        | inl h ↦ absurd (cc (rw (h, spawn_pool) at e))
        | inr h ↦
            let e' = rw (h, spawn_pool) at e in
            let made : push_slots min new ≡ p = cc in
            let are_new = push_slots-AreNew min new tt in
            subst (λ q. IsWarm (run_pool rounds q)) made
              (record {
                up = run_workers-AreValid 0 (push_slots min new).slots are_new;
                free = λ name. run_workers_free name 0 (push_slots min new).slots are_new;
                first =
                    first_warm (push_slots min new).slots are_new
                      (omega (arith, size-push_slots min new));
              })
      ]
