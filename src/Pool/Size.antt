-- ===== src/Pool/Size.antt =====
-- The size of the pool.
use croutond.Base.{
  ℕ, zero, suc, ◌+◌, ◌≡◌, refl, ap, ◌∙◌, List, [], ◌∷◌, arith, length, length-set, length-append,
  get_elem?, none, some, Option-cases, inl, inr, lt_of_get_elem?, get_elem?-set_self, true, ◌⊎◌,
}
use croutond.Types.{SlotStatus}
use croutond.Slot.{Os, SlotCommand}
use croutond.Slot.Micro.{Micro}
use croutond.Slot.Worker.{Config, Phase, live, stopped}
use croutond.Slot.Ending.{is_live}
use croutond.Slot.Handle.{SlotHandle}
use croutond.Pool.{
  ProcessPool, Env, returned, size, pass_slots, pass_time, push_slots, ask, deliver,
}
use croutond.Pool.Keeps.{AskKeeps, ask-Keeps, ask_found, ask_missing}

length-pass_slots :
    (background : ℕ → List Micro) (i : ℕ) (hs : List SlotHandle)
    → length (pass_slots background i hs) ≡ length hs
length-pass_slots background i [] = refl
length-pass_slots background i (h ∷ hs) = ap suc (length-pass_slots background (suc i) hs)

-- No question to a worker changes the number of slots.
pub ask-size : (env : Env) (n : ℕ) (command : SlotCommand) → AskKeeps env (λ p. size p ≡ n) command
ask-size env n command =
    ask-Keeps env (λ hs. length hs ≡ n) command
      (λ time hs e. length-pass_slots (env.background time) 0 hs ∙ e)
      λ time hs slot h e _. length-set hs slot _ ∙ e

pub size-push_slots : (n : ℕ) (p : ProcessPool) → size (push_slots n p) ≡ size p + n
unfolding push_slots
size-push_slots zero p = omega arith
size-push_slots (suc n) p = omega (arith, size-push_slots n _, length-append p.slots)

deliver_live :
    (os : Os) (command : SlotCommand) (c : Config) (phase : Phase) {s : SlotStatus}
    → (deliver os command c phase).0 ≡ returned s
    → is_live (deliver os command c phase).1 ≡ true
unfolding deliver
deliver_live os command c (stopped rt) e = cc
deliver_live os command c (live rt) e = refl

-- A worker that has answered is live.
pub ask_live :
    (env : Env) (slot : ℕ) (command : SlotCommand) (p : ProcessPool) {s : SlotStatus}
    → (ask env slot command p).0 ≡ returned s
    → (h : SlotHandle) × (get_elem? (ask env slot command p).1.slots slot ≡ some h)
      × (is_live h.phase ≡ true)
ask_live env slot command p {s} e = go (Option-cases (get_elem? (pass_time env p).slots slot))
  where
    go :
        (get_elem? (pass_time env p).slots slot ≡ none)
          ⊎ ((h : SlotHandle) × (get_elem? (pass_time env p).slots slot ≡ some h))
        → (h : SlotHandle) × (get_elem? (ask env slot command p).1.slots slot ≡ some h)
          × (is_live h.phase ≡ true)
    go (inl missed) = absurd (cc (ask_missing env slot command p missed))
    go (inr (h, found)) =
        let e' = rw (ask_found env slot command p h found) at e in
        rw (ask_found env slot command p h found) (
          _,
          get_elem?-set_self _ slot _ (lt_of_get_elem? _ slot h found),
          deliver_live (env.os p.time) command h.config h.phase e',
        )

-- What a question to a worker leaves alone.
abbrev pub SameFrame : ProcessPool → ProcessPool → Type 0
SameFrame p q =
    (q.shutdown_tx ≡ p.shutdown_tx)
    × (q.min_pool_size ≡ p.min_pool_size)
    × (q.max_pool_size ≡ p.max_pool_size)
    × (q.last_scale_down_at ≡ p.last_scale_down_at)
    × (size q ≡ size p)

pub ask-SameFrame :
    (env : Env) (slot : ℕ) (command : SlotCommand) (p : ProcessPool)
    → SameFrame p (ask env slot command p).1
unfolding pass_time
ask-SameFrame env slot command p =
    let same = (ask-size env (size p) command slot).at p refl in
    elim (Option-cases (get_elem? (pass_time env p).slots slot)) [
      | inl e ↦ rw (ask_missing env slot command p e) (refl, refl, refl, refl, refl)
      | inr (h, e) ↦
          rw (ask_found env slot command p h e)
            (refl, refl, refl, refl, rw (ask_found env slot command p h e) at same)
    ]

-- So a predicate of what it leaves alone is kept.
pub ask-frame-Keeps :
    (env : Env) (P : ProcessPool → Type 0) (command : SlotCommand)
    → ((p q : ProcessPool) → SameFrame p q → P p → P q)
    → AskKeeps env P command
ask-frame-Keeps env P command k slot = record {
  at = λ p h. k p _ (ask-SameFrame env slot command p) h;
}
