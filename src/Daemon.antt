-- ===== src/Daemon.antt =====
-- src/main.rs: the values of the command line, and what they mean for the pool that is spawned. `usize`
-- has 64 bits.
pub mod Start
pub mod Main
pub mod Ends
use croutond.Base.{
  ℕ, ◌-◌, ◌^◌, ◌<◌, String, ◌≡◌, refl, ◌∙◌, ap, false, Option, none, some, List, ltb, ◌==◌, arith,
  if◌then◌else◌, Result, ok, err,
}
use croutond.Base.Text.{◌+++◌}
use croutond.Base.Text.Decimal.{decimal, parse_uint, parse_uint-decimal}
use croutond.Pool.{ProcessPool, size, push_slots}
use croutond.Pool.Size.{size-push_slots}
use croutond.Pool.Scale.{spawn_pool, new_pool}

-- The parsed value must not be zero. The error of the parser is replaced.
abbrev positive : String → String → Result String ℕ → Result String ℕ
positive invalid too_small (err error) = err invalid
positive invalid too_small (ok parsed) = if parsed == 0 then err too_small else ok parsed

-- The body that the three parsers share, by the message of each of the two errors.
abbrev parse_positive : String → String → String → Result String ℕ
parse_positive invalid too_small value = positive invalid too_small (parse_uint (2 ^ 64 - 1) value)

unfoldable pub parse_pool_size : String → Result String ℕ
parse_pool_size value =
    parse_positive ("invalid pool size: " +++ value) "pool size must be at least 1" value

pub parse_cooldown_secs : String → Result String ℕ
parse_cooldown_secs value =
    parse_positive ("invalid cooldown seconds: " +++ value)
      "scale-down cooldown must be at least 1 second" value

pub parse_interval_ms : String → Result String ℕ
parse_interval_ms value =
    parse_positive ("invalid autoscale interval milliseconds: " +++ value)
      "autoscale interval must be at least 1 millisecond" value

abbrev pub unwrap_or {ℓ} : {A : Type ℓ} → Option A → A → A
unwrap_or none a = a
unwrap_or (some b) a = b

-- `--pool-size` and `--max-pool-size`: the two bounds that the pool is spawned with.
unfoldable pub pool_bounds : ℕ → Option ℕ → Result String (ℕ × ℕ)
pool_bounds pool_size given =
    let max_pool_size = unwrap_or given pool_size in
    if ltb max_pool_size pool_size
    then err (
        "--max-pool-size ("
        +++ decimal max_pool_size
        +++ ") must be >= --pool-size ("
        +++ decimal pool_size
        +++ ")")
    else ok (pool_size, max_pool_size)

positive_fits :
    (invalid too_small : String) (n : ℕ) → 0 < n → positive invalid too_small (ok n) ≡ ok n
positive_fits invalid too_small n h = ground arith

positive_bounds :
    (invalid too_small : String) (r : Result String ℕ) {n : ℕ}
    → positive invalid too_small r ≡ ok n
    → 0 < n
positive_bounds invalid too_small r e = ground arith

parse_positive-decimal :
    (invalid too_small : String) (n : ℕ)
    → 0 < n
    → n < 2 ^ 64
    → parse_positive invalid too_small (decimal n) ≡ ok n
parse_positive-decimal invalid too_small n h k =
    ap (positive invalid too_small) (parse_uint-decimal (2 ^ 64 - 1) n (omega arith))
    ∙ positive_fits invalid too_small n h

pool_bounds_ordered :
    (pool_size : ℕ) (given : Option ℕ) (bounds : ℕ × ℕ)
    → pool_bounds pool_size given ≡ ok bounds
    → (bounds.0 ≡ pool_size) × (ltb bounds.1 bounds.0 ≡ false)
unfolding pool_bounds
pool_bounds_ordered pool_size given bounds e = ground arith

-- Every positive number of 64 bits can be given for the sizes of the pool, the cooldown and the
-- interval, in decimals, and is read as itself; nothing is read as zero.
parse_args-decimal :
    (n : ℕ)
    → 0 < n
    → n < 2 ^ 64
    → (parse_pool_size (decimal n) ≡ ok n)
      × (parse_cooldown_secs (decimal n) ≡ ok n)
      × (parse_interval_ms (decimal n) ≡ ok n)
      × (parse_pool_size (decimal 0) ≡ err "pool size must be at least 1")
unfolding parse_pool_size parse_cooldown_secs parse_interval_ms
parse_args-decimal n h k = (
  parse_positive-decimal _ _ n h k,
  parse_positive-decimal _ _ n h k,
  parse_positive-decimal _ _ n h k,
  ap (positive _ "pool size must be at least 1") (parse_uint-decimal (2 ^ 64 - 1) 0 (omega arith)),
)

-- Sizes that the command line accepts are accepted by the pool: it is spawned, with as many slots as
-- the value of `--pool-size` says, which is at least one.
pub spawn_pool_starts :
    (value : String) (given : Option ℕ) (pool_size : ℕ) (bounds : ℕ × ℕ) (cooldown : ℕ)
    (program : String) (args : List String) (bridge : Option String) (vm_path : String)
    → parse_pool_size value ≡ ok pool_size
    → pool_bounds pool_size given ≡ ok bounds
    → (p : ProcessPool) × (spawn_pool bounds.0 bounds.1 cooldown program args bridge vm_path ≡ ok p)
      × (size p ≡ pool_size)
      × (0 < size p)
unfolding parse_pool_size spawn_pool
spawn_pool_starts value given pool_size bounds cooldown program args bridge vm_path e b =
    let (least, ordered) = pool_bounds_ordered pool_size given bounds b in
    let new = new_pool bounds.0 bounds.1 cooldown program args bridge vm_path in
    let at_least_one = positive_bounds _ _ (parse_uint (2 ^ 64 - 1) value) e in
    let spawned = size-push_slots bounds.0 new in
    (
      push_slots bounds.0 new,
      rw ordered refl,
      omega (arith, spawned, least),
      omega (arith, spawned, least, at_least_one),
    )
