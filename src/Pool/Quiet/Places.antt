-- ===== src/Pool/Quiet/Places.antt =====
-- Where the slot of a status stands.
use croutond.Base.{
  ℕ, zero, suc, ◌+◌, ◌≡◌, refl, ◌∙◌, sym, ap, Bool, Option, some, List, [], ◌∷◌, ◌++◌, get_elem?,
  set, find, length, All, All-get, subst, Bool-cases, inl, inr,
}
use native.Mathlib.Nat.{add-zero, zero-add}
use mathlib.Core.Option.{some-injective}
use croutond.Types.{SlotStatus, PoolError}
use croutond.Slot.{SlotCommand, Child}
use croutond.Slot.Worker.{Config, live}
use croutond.Slot.Failure.{runtime}
use croutond.Slot.Handle.{SlotHandle}
use croutond.Pool.{ProcessPool, Env, Outcome, returned, ask, deliver, command_vm_slot}
use croutond.Pool.Invariant.{PhaseIsValid-numbered, SlotsAreValid}
use croutond.Pool.Quiet.{
  IsQuiet, IsLive, status_of, view, ask_quiet, command_quiet, IsLive-set, view-set, shift,
}

pub view-append :
    (hs : List SlotHandle) (h : SlotHandle) → view (hs ++ h ∷ []) ≡ view hs ++ status_of h ∷ []
view-append [] h = refl
view-append (x ∷ hs) h = ap (λ ss. status_of x ∷ ss) (view-append hs h)

pub length-view : (hs : List SlotHandle) → length (view hs) ≡ length hs
length-view [] = refl
length-view (x ∷ hs) = ap suc (length-view hs)

pub view-get :
    (hs : List SlotHandle) (i : ℕ) (s : SlotStatus)
    → get_elem? (view hs) i ≡ some s
    → (h : SlotHandle) × (get_elem? hs i ≡ some h) × (status_of h ≡ s)
view-get [] i s e = cc
view-get (h ∷ hs) zero s e = (h, refl, some-injective _ _ e)
view-get (h ∷ hs) (suc i) s e = view-get hs i s e

find_from :
    (test : SlotStatus → Bool) (i : ℕ) (hs : List SlotHandle) (s : SlotStatus)
    → SlotsAreValid i hs
    → find test (view hs) ≡ some s
    → (k : ℕ) × (get_elem? (view hs) k ≡ some s) × (s.slot ≡ i + k)
find_from test i [] s v e = cc
find_from test i (h ∷ hs) s ((_, v), vs) e = elim (Bool-cases (test (status_of h))) [
  | inl hit ↦
      (let same = some-injective (status_of h) s (rw hit at e) in
        (
          0,
          ap some same,
          subst (λ x. x.slot ≡ i + 0) same (PhaseIsValid-numbered i h.phase v ∙ sym (add-zero i)),
        ))
  | inr miss ↦
      (let (k, at, slot) = find_from test (suc i) hs s vs (rw miss at e) in
        (suc k, at, slot ∙ shift i k))
]

-- A status that is found stands at the place of its number.
pub find_placed :
    (test : SlotStatus → Bool) (hs : List SlotHandle) (s : SlotStatus)
    → SlotsAreValid 0 hs
    → find test (view hs) ≡ some s
    → get_elem? (view hs) s.slot ≡ some s
find_placed test hs s v e =
    let (k, at, slot) = find_from test 0 hs s v e in
    ap (get_elem? (view hs)) (slot ∙ zero-add k) ∙ at

-- What a call returns, and the statuses that it leaves.
abbrev pub shown :
    Outcome PoolError SlotStatus × ProcessPool → Outcome PoolError SlotStatus × List SlotStatus
shown (outcome, p) = (outcome, view p.slots)

-- A running worker with the one status accepts the command, and has the other then.
abbrev pub Takes : Env → SlotCommand → SlotStatus → SlotStatus → Type 0
Takes env command s s' =
    (time : ℕ) (c : Config) (child : Option Child)
    → (left : Option Child) × (deliver (env.os time) command c
          (live (record { status = s; child = child }))
        ≡ (returned s', live (record { status = s'; child = left })))

-- The command returns the new status, and puts it in the place of the old one.
pub command_shown :
    (env : Env) (command : SlotCommand) (i : ℕ) (s s' : SlotStatus) (p : ProcessPool)
    → IsQuiet env
    → All IsLive p.slots
    → get_elem? (view p.slots) i ≡ some s
    → Takes env command s s'
    → shown (command_vm_slot env command i p) ≡ (returned s', set (view p.slots) i s')
command_shown env command i s s' p quiet alive e takes =
    let (h, here, same) = view-get p.slots i s e in
    let (rt, runs) = All-get IsLive p.slots i h alive here in
    let (left, taken) = takes p.time h.config rt.child in
    let shows = ap (λ phase. (runtime phase).status) (sym runs) ∙ same in
    let delivered =
      ap (deliver (env.os p.time) command h.config)
        (runs ∙ ap (λ x. live (record { status = x; child = rt.child })) shows)
      ∙ taken in
    let h' : SlotHandle = record h { phase = live (record { status = s'; child = left }) } in
    let q = record p { slots = set p.slots i h'; time = suc p.time } in
    let asked : ask env i command p ≡ (returned s', q) =
      ask_quiet env quiet i command p h here
      ∙ ap
          (λ (o, phase).
            (o, record p { slots = set p.slots i (record h { phase = phase }); time = suc p.time }))
          delivered in
    let (time, done) =
      command_quiet env quiet command i p q s' asked (IsLive-set p.slots i h' alive (_, refl)) in
    ap shown done ∙ ap (λ ss. (returned s', ss)) (view-set p.slots i h')
