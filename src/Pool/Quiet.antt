-- ===== src/Pool/Quiet.antt =====
-- The pool while nothing else goes on: no worker takes a step of its own, and no other task sends
-- commands. A call then does to the list of the slots' statuses what its specification says.
pub mod Spec
pub mod Places
pub mod Allocates
pub mod Sole
pub mod Reserved
pub mod Taken
pub mod Lifecycle
use croutond.Base.{
  ℕ, zero, suc, ◌+◌, ◌<◌, String, ◌≡◌, refl, ◌∙◌, sym, ap, true, false, Bool, Option, none, some,
  List, [], ◌∷◌, ◌++◌, map, get_elem?, set, find, length, arith, All, All-get, set_same, find-true,
  find-append, set-append_last, subst, Option-cases, inl, inr,
}
use native.Mathlib.Nat.{add-zero, zero-add}
use mathlib.Core.Option.{some-injective}
use croutond.Types.{SlotStatus, PoolError}
use croutond.Slot.{SlotCommand, get_vm_status, SlotRuntime, handle_command}
use croutond.Slot.Worker.{live, Phase}
use croutond.Slot.Micro.{Micro, advance}
use croutond.Slot.Failure.{runtime}
use croutond.Slot.Handle.{SlotHandle}
use croutond.Pool.{
  ProcessPool, Env, PoolCall, Outcome, returned, raised, ◌>>=◌, size, ask, pass_time, pass_slots,
  deliver, reply_outcome, get_vm_slot_status, statuses_from, list_vm_slots, log_pool_occupancy,
  command_vm_slot, logged,
}
use croutond.Pool.Keeps.{ask_found}
use croutond.Pool.Invariant.{PoolIsValid, ask-IsValid}

abbrev pub IsQuiet : Env → Type 0
IsQuiet env = (time slot : ℕ) → env.background time slot ≡ []

abbrev pub IsLive : SlotHandle → Type 0
IsLive h = (rt : SlotRuntime) × (h.phase ≡ live rt)

-- Valid slots whose workers run.
abbrev pub IsUp : ProcessPool → Type 0
IsUp p = PoolIsValid p × All IsLive p.slots

abbrev pub status_of : SlotHandle → SlotStatus
status_of h = (runtime h.phase).status

-- What the pool shows: the statuses of its slots.
abbrev pub view : List SlotHandle → List SlotStatus
view hs = map status_of hs

-- The same pool at another time.
abbrev pub later : ProcessPool → ℕ → ProcessPool
later p time = record p { time = time }

-- The call returns `a` and leaves the pool as `q`, up to the time.
abbrev pub Gives {ℓ} :
    {A : Type ℓ} → PoolCall A → ProcessPool → Outcome PoolError A → ProcessPool → Type ℓ
Gives m p outcome q = (time : ℕ) × (m p ≡ (outcome, later q time))

pub bind_to {ℓ κ} :
    {A : Type ℓ} {B : Type κ} (m : PoolCall A) (f : A → PoolCall B) (p : ProcessPool) (a : A)
    (q : ProcessPool)
    → m p ≡ (returned a, q)
    → (m >>= f) p ≡ f a q
unfolding ◌>>=◌
bind_to m f p a q e = rw e refl

pub shift : (m n : ℕ) → suc m + n ≡ m + suc n
shift m n = omega arith

pub pass_slots_quiet :
    (background : ℕ → List Micro) (i : ℕ) (hs : List SlotHandle)
    → ((slot : ℕ) → background slot ≡ [])
    → pass_slots background i hs ≡ hs
unfolding advance
pass_slots_quiet background i [] q = refl
pass_slots_quiet background i (h ∷ hs) q = rw (q i, pass_slots_quiet background (suc i) hs q) refl

module _ (env : Env) (quiet : IsQuiet env) where
  pub pass_time_quiet : (p : ProcessPool) → pass_time env p ≡ later p (suc p.time)
  unfolding pass_time
  pass_time_quiet p = rw (pass_slots_quiet (env.background p.time) 0 p.slots (quiet p.time)) refl

  -- A question to a running worker is answered by its state alone.
  pub ask_quiet :
      (slot : ℕ) (command : SlotCommand) (p : ProcessPool) (h : SlotHandle)
      → get_elem? p.slots slot ≡ some h
      → let handled = deliver (env.os p.time) command h.config h.phase in
        ask env slot command p ≡ (
          handled.0,
          record p { slots = set p.slots slot (record h { phase = handled.1 }); time = suc p.time },
        )
  ask_quiet slot command p h e =
      ask_found env slot command p h (rw (pass_time_quiet p) e) ∙ rw (pass_time_quiet p) refl

  pub query_quiet :
      (slot : ℕ) (p : ProcessPool) (h : SlotHandle)
      → get_elem? p.slots slot ≡ some h
      → IsLive h
      → ask env slot get_vm_status p ≡ (returned (status_of h), later p (suc p.time))
  unfolding deliver handle_command
  query_quiet slot p h e (rt, alive) =
      let asked = ask_quiet slot get_vm_status p h e in
      let answered : deliver (env.os p.time) get_vm_status h.config h.phase
          ≡ (returned (status_of h), h.phase) =
        rw alive refl in
      asked
      ∙ rw answered (
          ap (λ hs. (returned (status_of h), record p { slots = hs; time = suc p.time }))
            (set_same p.slots slot h e))

  -- The slots from `slot` on are those of the list `hs`.
  abbrev StandAt : ℕ → List SlotHandle → ProcessPool → Type 0
  StandAt slot hs p = (i : ℕ) → i < length hs → get_elem? p.slots (slot + i) ≡ get_elem? hs i

  statuses_quiet :
      (hs : List SlotHandle) (slot : ℕ) (p : ProcessPool)
      → StandAt slot hs p
      → All IsLive hs
      → Gives (statuses_from env (length hs) slot) p (returned (view hs)) p
  unfolding statuses_from get_vm_slot_status
  statuses_quiet [] slot p stand alive = (p.time, refl)
  statuses_quiet (h ∷ hs) slot p stand (alive, rest_alive) =
      let here : get_elem? p.slots slot ≡ some h =
        ap (get_elem? p.slots) (sym (add-zero slot)) ∙ stand 0 (omega arith) in
      let p' = later p (suc p.time) in
      let first = query_quiet slot p h here alive in
      let (time, rest) =
        statuses_quiet hs (suc slot) p'
          (λ i lt. ap (get_elem? p.slots) (shift slot i) ∙ stand (suc i) (omega arith))
          rest_alive in
      (time, bind_to _ _ p (status_of h) p' first ∙ bind_to _ _ p' (view hs) (later p time) rest)

  -- A listing gives the statuses of the slots.
  pub list_quiet :
      (p : ProcessPool)
      → All IsLive p.slots
      → Gives (list_vm_slots env) p (returned (view p.slots)) p
  unfolding list_vm_slots
  list_quiet p alive =
      statuses_quiet p.slots 0 p (λ i lt. ap (get_elem? p.slots) (zero-add i)) alive

  pub log_quiet :
      (p : ProcessPool) → All IsLive p.slots → Gives (log_pool_occupancy env) p (returned tt) p
  unfolding log_pool_occupancy
  log_quiet p alive = let (time, e) = list_quiet p alive in (time, rw e refl)

  -- A command that the worker accepts, with the listing for the log behind it.
  pub command_quiet :
      (command : SlotCommand) (slot : ℕ) (p q : ProcessPool) (s : SlotStatus)
      → ask env slot command p ≡ (returned s, q)
      → All IsLive q.slots
      → Gives (command_vm_slot env command slot) p (returned s) q
  unfolding command_vm_slot
  command_quiet command slot p q s asked alive =
      let (time, logged_at) = log_quiet q alive in
      (time, bind_to _ _ p s q asked ∙ bind_to _ _ q tt (later q time) logged_at)

-- A command leaves valid slots with running workers behind.
pub IsLive-set :
    (hs : List SlotHandle) (i : ℕ) (h : SlotHandle)
    → All IsLive hs
    → IsLive h
    → All IsLive (set hs i h)
IsLive-set [] i h a l = tt
IsLive-set (x ∷ hs) zero h (a, rest) l = (l, rest)
IsLive-set (x ∷ hs) (suc i) h (a, rest) l = (a, IsLive-set hs i h rest l)

pub view-set :
    (hs : List SlotHandle) (i : ℕ) (h : SlotHandle)
    → view (set hs i h) ≡ set (view hs) i (status_of h)
view-set [] i h = refl
view-set (x ∷ hs) zero h = refl
view-set (x ∷ hs) (suc i) h = ap (λ ss. status_of x ∷ ss) (view-set hs i h)
