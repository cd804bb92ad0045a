-- ===== src/Base/Words.antt =====
-- Numbers of 64 bits.
use Prim.Native.Nat.{ℕ, ◌-◌, ◌^◌, ◌<◌}
use native.Mathlib.Omega.{arith}
use croutond.Base.Tests.{ltb, if◌then◌else◌}

abbrev pub max_u64 : ℕ
max_u64 = 2 ^ 64 - 1

-- `saturating_add` and `saturating_mul` cap at the largest number.
abbrev pub saturate : ℕ → ℕ
saturate n = if ltb max_u64 n then max_u64 else n

pub saturate_fits : (n : ℕ) → saturate n < 2 ^ 64
saturate_fits n = ground arith
