-- ===== src/Pool/Names/Fading.antt =====
-- What fades: the names of the slots, as time passes and as commands other than reservations are handled.
use croutond.Base.{
  ℕ, zero, suc, ◌<◌, String, ◌≡◌, ◌≢◌, refl, true, false, some, List, [], ◌∷◌, get_elem?, arith,
  subst, length,
}
use mathlib.Core.Option.{some-injective}
use croutond.Slot.{SlotCommand, get_vm_status}
use croutond.Slot.Micro.{Micro}
use croutond.Slot.Handle.{SlotHandle}
use croutond.Pool.{Env, pass_slots}
use croutond.Pool.Keeps.{AskKeeps, ask-Keeps}
use croutond.Pool.Names.{name_of, is_reserve, IsTame, all_tame, advance-Fades, deliver-Fades}
use croutond.Pool.Names.Distinct.{
  IsFree, AreDistinct, ne-Fades, AllFade, AllFade-set, AreDistinct-AllFade,
}

pub pass_slots_fade :
    (background : ℕ → List Micro) (i : ℕ) (hs : List SlotHandle)
    → ((slot : ℕ) → all_tame (background slot) ≡ true)
    → AllFade hs (pass_slots background i hs)
pass_slots_fade background i [] t = tt
pass_slots_fade background i (h ∷ hs) t =
    (advance-Fades h.config (background i) h.phase (t i), pass_slots_fade background (suc i) hs t)

-- If there is a slot at a place, it does not carry the name.
abbrev pub IsFreeAt : String → ℕ → List SlotHandle → Type 0
IsFreeAt name i hs = (h : SlotHandle) → get_elem? hs i ≡ some h → name_of h ≢ some name

pub IsFreeAt-AllFade :
    (name : String) (i : ℕ) (hs ks : List SlotHandle)
    → AllFade hs ks
    → IsFreeAt name i hs
    → IsFreeAt name i ks
IsFreeAt-AllFade name i [] [] f n k e = cc
IsFreeAt-AllFade name i [] (k ∷ ks) f n k' e = absurd f
IsFreeAt-AllFade name i (h ∷ hs) [] f n k e = cc
IsFreeAt-AllFade name zero (h ∷ hs) (k ∷ ks) (f, fs) n k' e =
    subst (λ x. name_of x ≢ some name) (some-injective _ _ e)
      (ne-Fades name (name_of h) (name_of k) f (n h refl))
IsFreeAt-AllFade name (suc i) (h ∷ hs) (k ∷ ks) (f, fs) n k' e =
    IsFreeAt-AllFade name i hs ks fs n k' e

pub IsFree-places :
    (name : String) (hs : List SlotHandle)
    → ((i : ℕ) → i < length hs → IsFreeAt name i hs)
    → IsFree name hs
IsFree-places name [] n = tt
IsFree-places name (h ∷ hs) n =
    (n 0 (omega arith) h refl, IsFree-places name hs λ i lt. n (suc i) (omega arith))

module _ (env : Env) (tame : IsTame env) where
  -- A question that is no reservation only lets names fade.
  pub ask_fade_Keeps :
      (P : List SlotHandle → Type 0) (command : SlotCommand)
      → is_reserve command ≡ false
      → ((hs ks : List SlotHandle) → AllFade hs ks → P hs → P ks)
      → AskKeeps env (λ p. P p.slots) command
  ask_fade_Keeps P command other k =
      ask-Keeps env P command
        (λ time hs. k hs _ (pass_slots_fade (env.background time) 0 hs (tame time)))
        λ time hs slot h v e.
          k hs _
            (AllFade-set hs slot h _ e (deliver-Fades (env.os time) command h.config h.phase other))
            v

  pub AreDistinct-Keeps :
      (command : SlotCommand)
      → is_reserve command ≡ false
      → AskKeeps env (λ p. AreDistinct p.slots) command
  AreDistinct-Keeps command other = ask_fade_Keeps AreDistinct command other AreDistinct-AllFade

  module _ (name : String) where
    pub IsFreeAt-Keeps : (i : ℕ) → AskKeeps env (λ p. IsFreeAt name i p.slots) get_vm_status
    IsFreeAt-Keeps i =
        ask_fade_Keeps (IsFreeAt name i) get_vm_status refl
          λ hs ks f. IsFreeAt-AllFade name i hs ks f
