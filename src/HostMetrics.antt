-- ===== src/HostMetrics.antt =====
-- src/host_metrics.rs: the metrics of the host, from the files of /proc. Reading a file, the clock,
-- the number of processors and the type `f64` with its parser are parameters; an `io::Error` is its
-- text.
pub mod Cpu
pub mod Memory
pub mod Totals
use Prim.Native.Char.{code}
use text.Mathlib.Text.{starts_with}
use croutond.Base.{
  ℕ, zero, suc, ◌+◌, ◌-◌, ◌*◌, ◌%◌, ◌^◌, String, Option, none, some, List, [], ◌∷◌, length,
  get_elem?, ltb, if◌then◌else◌, Result, ok, err, ok_or, map_err, ◌>>=◌,
}
use croutond.Base.Words.{max_u64, saturate}
use croutond.Base.Text.{◌+++◌, trim}
use croutond.Base.Text.Splits.{split_whitespace, lines, split_once}
use croutond.Base.Text.Decimal.{parse_uint}
use croutond.ProcessMetrics.{KibMap, get_kib, unwrap_or_zero}

pub record LoadAverage (F : Type 0) : Type 0 where
  pub one_minute : F
  pub five_minutes : F
  pub fifteen_minutes : F

pub record CpuMetrics : Type 0 where
  pub logical_cores : ℕ
  pub total_ticks : ℕ
  pub idle_ticks : ℕ
  pub busy_ticks : ℕ

pub record MemoryMetrics : Type 0 where
  pub total_bytes : ℕ
  pub available_bytes : ℕ
  pub used_bytes : ℕ
  pub free_bytes : ℕ
  pub buffers_bytes : ℕ
  pub cached_bytes : ℕ
  pub swap_total_bytes : ℕ
  pub swap_free_bytes : ℕ
  pub swap_used_bytes : ℕ

pub record ProcessMetrics : Type 0 where
  pub running : ℕ
  pub total : ℕ

pub record HostMetrics (F : Type 0) : Type 0 where
  pub collected_at : String
  pub hostname : String
  pub uptime_seconds : F
  pub load_average : LoadAverage F
  pub cpu : CpuMetrics
  pub memory : MemoryMetrics
  pub processes : ProcessMetrics

-- `F` is `f64`, and `parse_f64` its `str::parse`. `available_parallelism` may fail.
pub record Host (F : Type 0) : Type 0 where
  pub read : String → Result String String
  pub now : String
  pub parse_f64 : String → Result String F
  pub available_parallelism : Option ℕ

abbrev pub one_or : Option ℕ → ℕ
one_or none = 1
one_or (some cores) = cores

-- `parse::<u64>` with the text in front of its error.
abbrev parse_u64 : String → String → Result String ℕ
parse_u64 prefix raw = map_err (λ error. prefix +++ error) (parse_uint max_u64 raw)

-- `split_once('/')` of the field behind the averages.
unfoldable parse_processes : String → Result String ProcessMetrics
parse_processes proc_field = do
  (running_str, total_str) ←
      ok_or (split_once b'/' proc_field) "invalid loadavg process field format"
  running ← parse_u64 "invalid running process count: " running_str
  total ← parse_u64 "invalid total process count: " total_str
  ok (record { running = running; total = total })

-- The first line that begins with `cpu `, which is that of all processors.
unfoldable pub find_cpu_line : List String → Option String
find_cpu_line [] = none
find_cpu_line (line ∷ rest) =
    let found = find_cpu_line rest in if starts_with line "cpu " then some line else found

unfoldable pub parse_ticks : List String → Result String (List ℕ)
parse_ticks [] = ok []
parse_ticks (field ∷ fields) = do
  parsed ← parse_u64 "invalid cpu tick value: " field
  ticks ← parse_ticks fields
  ok (parsed ∷ ticks)

unfoldable pub sum : List ℕ → ℕ
sum [] = 0
sum (n ∷ ns) = n + sum ns

-- The fields behind the first. The sum wraps at 64 bits, as it does without overflow checks.
unfoldable pub cpu_of_ticks : Option ℕ → List ℕ → Result String CpuMetrics
unfolding sum
cpu_of_ticks cores ticks =
    let idle = unwrap_or_zero (get_elem? ticks 3) in
    let iowait = unwrap_or_zero (get_elem? ticks 4) in
    let total_ticks = sum ticks % 2 ^ 64 in
    let idle_ticks = saturate (idle + iowait) in
    if ltb (length ticks) 4
    then err "cpu stat line has fewer than 4 fields"
    else ok (record {
      logical_cores = one_or cores;
      total_ticks = total_ticks;
      idle_ticks = idle_ticks;
      busy_ticks = total_ticks - idle_ticks;
    })

-- What stands behind the first word.
abbrev skip_one : List String → List String
skip_one [] = []
skip_one (word ∷ words) = words

unfoldable pub parse_cpu_metrics : Option ℕ → String → Result String CpuMetrics
unfolding find_cpu_line parse_ticks cpu_of_ticks
parse_cpu_metrics cores raw = do
  cpu_line ← ok_or (find_cpu_line (lines raw)) "missing cpu stat line"
  ticks ← parse_ticks (skip_one (split_whitespace cpu_line))
  cpu_of_ticks cores ticks

-- The value is the first word behind the colon, and must be a number.
insert_meminfo_value : String → List String → KibMap → Result String KibMap
insert_meminfo_value key [] values = ok values
insert_meminfo_value key (value ∷ words) values = do
  parsed ← parse_u64 ("invalid meminfo value for " +++ key +++ ": ") value
  ok ((key, parsed) ∷ values)

insert_meminfo_line : String → KibMap → Result String KibMap
unfolding insert_meminfo_value
insert_meminfo_line line values = elim (split_once b':' line) [
  | none ↦ ok values
  | some (key_raw, value_raw) ↦
      insert_meminfo_value (trim key_raw) (split_whitespace value_raw) values
]

insert_meminfo_lines : List String → KibMap → Result String KibMap
unfolding insert_meminfo_line
insert_meminfo_lines [] values = ok values
insert_meminfo_lines (line ∷ rest) values =
    insert_meminfo_line line values >>= λ more. insert_meminfo_lines rest more

unfoldable pub parse_meminfo_kib : String → Result String KibMap
unfolding insert_meminfo_lines
parse_meminfo_kib raw = insert_meminfo_lines (lines raw) []

abbrev required_meminfo_kib : KibMap → String → Result String ℕ
required_meminfo_kib meminfo key = ok_or (get_kib key meminfo) ("missing meminfo key: " +++ key)

abbrev kib_to_bytes : ℕ → ℕ
kib_to_bytes value = saturate (value * 1024)

abbrev memory_of_kib : ℕ → ℕ → ℕ → KibMap → MemoryMetrics
memory_of_kib total_kib available_kib free_kib meminfo =
    let buffers_kib = unwrap_or_zero (get_kib "Buffers" meminfo) in
    let cached_kib = unwrap_or_zero (get_kib "Cached" meminfo) in
    let swap_total_kib = unwrap_or_zero (get_kib "SwapTotal" meminfo) in
    let swap_free_kib = unwrap_or_zero (get_kib "SwapFree" meminfo) in
    record {
      total_bytes = kib_to_bytes total_kib;
      available_bytes = kib_to_bytes available_kib;
      used_bytes = kib_to_bytes (total_kib - available_kib);
      free_bytes = kib_to_bytes free_kib;
      buffers_bytes = kib_to_bytes buffers_kib;
      cached_bytes = kib_to_bytes cached_kib;
      swap_total_bytes = kib_to_bytes swap_total_kib;
      swap_free_bytes = kib_to_bytes swap_free_kib;
      swap_used_bytes = kib_to_bytes (swap_total_kib - swap_free_kib);
    }

unfoldable pub memory_of_meminfo : KibMap → Result String MemoryMetrics
memory_of_meminfo meminfo = do
  total_kib ← required_meminfo_kib meminfo "MemTotal"
  available_kib ← required_meminfo_kib meminfo "MemAvailable"
  free_kib ← required_meminfo_kib meminfo "MemFree"
  ok (memory_of_kib total_kib available_kib free_kib meminfo)

module _ {F : Type 0} (host : Host F) where
  unfoldable read_hostname : Result String String
  read_hostname = do raw ← host.read "/proc/sys/kernel/hostname"; ok (trim raw)

  unfoldable read_uptime_seconds : Result String F
  read_uptime_seconds = do
    raw ← host.read "/proc/uptime"
    first ← ok_or (get_elem? (split_whitespace raw) 0) "missing uptime"
    map_err (λ error. "invalid uptime value: " +++ error) (host.parse_f64 first)

  abbrev parse_f64_field : Option String → String → Result String F
  parse_f64_field field name = do
    raw ← ok_or field ("missing " +++ name)
    map_err (λ error. "invalid " +++ name +++ ": " +++ error) (host.parse_f64 raw)

  unfoldable read_loadavg_and_processes : Result String (LoadAverage F × ProcessMetrics)
  unfolding parse_processes
  read_loadavg_and_processes = do
    raw ← host.read "/proc/loadavg"
    let fields = split_whitespace raw
    one_minute ← parse_f64_field (get_elem? fields 0) "loadavg.one"
    five_minutes ← parse_f64_field (get_elem? fields 1) "loadavg.five"
    fifteen_minutes ← parse_f64_field (get_elem? fields 2) "loadavg.fifteen"
    proc_field ← ok_or (get_elem? fields 3) "missing loadavg proc field"
    processes ← parse_processes proc_field
    ok (
      record {
        one_minute = one_minute;
        five_minutes = five_minutes;
        fifteen_minutes = fifteen_minutes;
      },
      processes,
    )

  unfoldable read_cpu_metrics : Result String CpuMetrics
  read_cpu_metrics = do
    raw ← host.read "/proc/stat"
    parse_cpu_metrics host.available_parallelism raw

  unfoldable read_memory_metrics : Result String MemoryMetrics
  read_memory_metrics = do
    raw ← host.read "/proc/meminfo"
    meminfo ← parse_meminfo_kib raw
    memory_of_meminfo meminfo

  unfoldable pub collect_host_metrics : Result String (HostMetrics F)
  unfolding read_hostname read_uptime_seconds read_loadavg_and_processes read_cpu_metrics
      read_memory_metrics
  collect_host_metrics = do
    hostname ← read_hostname
    uptime_seconds ← read_uptime_seconds
    (load_average, processes) ← read_loadavg_and_processes
    cpu ← read_cpu_metrics
    memory ← read_memory_metrics
    ok (record {
      collected_at = host.now;
      hostname = hostname;
      uptime_seconds = uptime_seconds;
      load_average = load_average;
      cpu = cpu;
      memory = memory;
      processes = processes;
    })
