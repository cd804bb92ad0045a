-- ===== src/HostMetrics/Cpu.antt =====
-- The processor times of the host: reading back a line of /proc/stat, and how the times go together.
use text.Mathlib.TextPositions.{starts_with-append}
use text.Mathlib.TextLemmas.{append_assoc}
use croutond.Base.{
  ℕ, zero, suc, ◌+◌, ◌-◌, ◌%◌, ◌^◌, ◌<◌, ◌≤◌, String, Option, some, List, [], ◌∷◌, map, length,
  get_elem?, ltb, Bool-cases, ◌≡◌, refl, ◌∙◌, ap, inl, inr, true, false, ok, ok_or, arith, IfOk,
  IfOk-bind,
}
use croutond.Base.Words.{max_u64, saturate, saturate_fits}
use croutond.Base.Text.{◌+++◌}
use croutond.Base.Text.Splits.{split_whitespace, lines}
use croutond.Base.Text.Spaced.{
  spaced, all_words, stays_on_line, split_whitespace-wide, lines-append, all_chars-append,
  spaced-stays_on_line,
}
use croutond.Base.Text.Decimal.{decimal, parse_uint-decimal, decimal-is_word}
use croutond.ProcessMetrics.{unwrap_or_zero}
use croutond.HostMetrics.{
  CpuMetrics, one_or, sum, find_cpu_line, parse_ticks, cpu_of_ticks, parse_cpu_metrics, skip_one,
}

-- The line of all processors with its times, as the kernel prints it.
abbrev pub cpu_line : List ℕ → String
cpu_line ticks = "cpu " +++ spaced (map decimal ticks)

all_words-decimal : (ns : List ℕ) → all_words (map decimal ns) ≡ true
all_words-decimal [] = refl
all_words-decimal (n ∷ ns) = rw (decimal-is_word n) (all_words-decimal ns)

-- The sum bounds each number and pairs of them.
sum-get : (ns : List ℕ) (i : ℕ) → unwrap_or_zero (get_elem? ns i) ≤ sum ns
unfolding sum
sum-get [] i = omega arith
sum-get (n ∷ ns) zero = omega arith
sum-get (n ∷ ns) (suc i) = let le = sum-get ns i in omega arith

sum-idle :
    (ns : List ℕ) → unwrap_or_zero (get_elem? ns 3) + unwrap_or_zero (get_elem? ns 4) ≤ sum ns
unfolding sum
sum-idle [] = omega arith
sum-idle (a ∷ []) = omega arith
sum-idle (a ∷ b ∷ []) = omega arith
sum-idle (a ∷ b ∷ c ∷ []) = omega arith
sum-idle (a ∷ b ∷ c ∷ d ∷ ns) = let le = sum-get ns 0 in omega arith

parse_ticks-decimal : (ns : List ℕ) → sum ns < 2 ^ 64 → parse_ticks (map decimal ns) ≡ ok ns
unfolding parse_ticks sum
parse_ticks-decimal [] h = refl
parse_ticks-decimal (n ∷ ns) h =
    rw (parse_uint-decimal max_u64 n (omega arith), parse_ticks-decimal ns (omega arith)) refl

find_cpu_line-append :
    (ticks : List ℕ) (rest : String)
    → find_cpu_line (lines (cpu_line ticks +++ "\n" +++ rest)) ≡ some (cpu_line ticks)
unfolding find_cpu_line
find_cpu_line-append ticks rest =
    let words = map decimal ticks in
    ap find_cpu_line (
      lines-append (cpu_line ticks) rest (
        all_chars-append stays_on_line "cpu " (spaced words) refl
          (spaced-stays_on_line words (all_words-decimal ticks))))
    ∙ rw (starts_with-append "cpu " (spaced words)) refl

split_whitespace-cpu_line :
    (ticks : List ℕ) → split_whitespace (cpu_line ticks) ≡ "cpu" ∷ map decimal ticks
split_whitespace-cpu_line ticks =
    let words = map decimal ticks in
    ap split_whitespace (append_assoc "cpu" " " (spaced words))
    ∙ split_whitespace-wide "cpu" words refl (all_words-decimal ticks)

-- A reading of the line, where the sum of its times does not wrap.
abbrev pub reading : Option ℕ → List ℕ → CpuMetrics
reading cores ticks =
    let idle = unwrap_or_zero (get_elem? ticks 3) + unwrap_or_zero (get_elem? ticks 4) in
    record {
      logical_cores = one_or cores;
      total_ticks = sum ticks;
      idle_ticks = idle;
      busy_ticks = sum ticks - idle;
    }

cpu_of_ticks-reading :
    (cores : Option ℕ) (ticks : List ℕ)
    → 4 ≤ length ticks
    → sum ticks < 2 ^ 64
    → cpu_of_ticks cores ticks ≡ ok (reading cores ticks)
unfolding cpu_of_ticks
cpu_of_ticks-reading cores ticks enough h =
    let idle = unwrap_or_zero (get_elem? ticks 3) + unwrap_or_zero (get_elem? ticks 4) in
    let le = sum-idle ticks in
    let long : ltb (length ticks) 4 ≡ false = ground arith in
    let whole : sum ticks % 2 ^ 64 ≡ sum ticks = ground arith in
    let uncapped : saturate idle ≡ idle = ground arith in rw (long, whole, uncapped) refl

-- The line of /proc/stat with the times of all processors, at least four of them and with a sum of 64
-- bits, is read back, whatever lines follow: the total is the sum, the idle time is the fourth time
-- and the fifth, if there is one, and with the busy time it is the total.
pub parse_cpu_metrics-cpu_line :
    (cores : Option ℕ) (ticks : List ℕ) (rest : String)
    → 4 ≤ length ticks
    → sum ticks < 2 ^ 64
    → (m : CpuMetrics) × (parse_cpu_metrics cores (cpu_line ticks +++ "\n" +++ rest) ≡ ok m)
      × (m.total_ticks ≡ sum ticks)
      × (m.idle_ticks ≡ unwrap_or_zero (get_elem? ticks 3) + unwrap_or_zero (get_elem? ticks 4))
      × (m.busy_ticks + m.idle_ticks ≡ m.total_ticks)
unfolding parse_cpu_metrics
parse_cpu_metrics-cpu_line cores ticks rest enough h = (
  reading cores ticks,
  rw (find_cpu_line-append ticks rest, split_whitespace-cpu_line ticks, parse_ticks-decimal ticks h)
      (cpu_of_ticks-reading cores ticks enough h),
  refl,
  refl,
  let le = sum-idle ticks in omega arith,
)

-- The busy time is within the total, which is of 64 bits, and where the idle time is too, the two
-- are the total.
abbrev pub Balances : CpuMetrics → Type 0
Balances m =
    (m.total_ticks < 2 ^ 64)
    × (m.busy_ticks ≤ m.total_ticks)
    × (m.idle_ticks < 2 ^ 64)
    × (m.idle_ticks ≤ m.total_ticks → m.busy_ticks + m.idle_ticks ≡ m.total_ticks)

cpu_of_ticks-Balances :
    (cores : Option ℕ) (ticks : List ℕ) → IfOk Balances (cpu_of_ticks cores ticks)
unfolding cpu_of_ticks
cpu_of_ticks-Balances cores ticks = elim (Bool-cases (ltb (length ticks) 4)) [
  | inl short ↦ rw short tt
  | inr long ↦ rw long (
    omega arith,
    omega arith,
    saturate_fits (unwrap_or_zero (get_elem? ticks 3) + unwrap_or_zero (get_elem? ticks 4)),
    λ within. omega arith,
  )
]

pub parse_cpu_metrics-Balances :
    (cores : Option ℕ) (raw : String) → IfOk Balances (parse_cpu_metrics cores raw)
unfolding parse_cpu_metrics
parse_cpu_metrics-Balances cores raw =
    IfOk-bind Balances (ok_or (find_cpu_line (lines raw)) "missing cpu stat line") _ λ cpu_line.
      IfOk-bind Balances (parse_ticks (skip_one (split_whitespace cpu_line))) _
        λ ticks. cpu_of_ticks-Balances cores ticks
