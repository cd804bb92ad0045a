-- ===== src/Tests/Host.antt =====
-- The metrics of the host.
use croutond.Tests.Asserts.{expect, some_number}
use croutond.Base.{
  Bool, true, ◌&&◌, ◌+◌, String, some, none, [], ◌∷◌, ◌≡◌, refl, Result, ok, err, arith, str_eq,
  if◌then◌else◌,
}
use croutond.Base.Text.{◌+++◌, trim, trim_start, trim_end}
use croutond.Base.Text.Splits.{lines, split_once, split_whitespace}
use croutond.Base.Text.Decimal.{parse_uint}
use croutond.ProcessMetrics.{KibMap, get_kib, parse_status_kib}
use croutond.HostMetrics.{
  Host, HostMetrics, CpuMetrics, sum, parse_cpu_metrics, parse_meminfo_kib, memory_of_meminfo,
  collect_host_metrics,
}
use croutond.HostMetrics.Cpu.{cpu_line, Balances, parse_cpu_metrics-cpu_line}
use croutond.HostMetrics.Memory.{AddsUp, parse_status_kib-parse_meminfo_kib}
use croutond.HostMetrics.Totals.{collect_host_metrics-Balances}

abbrev meminfo : String
meminfo = "MemTotal:       16384 kB\nMemAvailable:   8192 kB\nSwapTotal:      4096 kB\n"

abbrev parsed : KibMap
parsed = ("SwapTotal", 4096) ∷ ("MemAvailable", 8192) ∷ ("MemTotal", 16384) ∷ []

meminfo_is_read : parse_meminfo_kib meminfo ≡ ok parsed
unfolding parse_meminfo_kib lines split_once split_whitespace trim trim_start trim_end parse_uint
meminfo_is_read = refl

-- The unit test of src/host_metrics.rs.
abbrev parse_meminfo_extracts_numeric_values : Bool
parse_meminfo_extracts_numeric_values =
    expect
      (λ values.
        some_number 16384 (get_kib "MemTotal" values)
        && some_number 8192 (get_kib "MemAvailable" values)
        && some_number 4096 (get_kib "SwapTotal" values))
      (parse_meminfo_kib meminfo)

numeric_values_pass : parse_meminfo_extracts_numeric_values ≡ true
unfolding parse_meminfo_kib lines split_once split_whitespace trim trim_start trim_end parse_uint
    get_kib
numeric_values_pass = refl

parse_status_kib-parse_meminfo_kib_example : parse_status_kib meminfo ≡ parsed
parse_status_kib-parse_meminfo_kib_example =
    parse_status_kib-parse_meminfo_kib meminfo parsed meminfo_is_read

parse_cpu_metrics-cpu_line_example :
    (m : CpuMetrics) × (parse_cpu_metrics
        (some 2)
        (cpu_line (30 ∷ 1 ∷ 20 ∷ 400 ∷ 9 ∷ []) +++ "\n" +++ "cpu0 1 2 3 4\n")
      ≡ ok m)
    × (m.total_ticks ≡ 460)
    × (m.idle_ticks ≡ 409)
    × (m.busy_ticks + m.idle_ticks ≡ m.total_ticks)
unfolding sum
parse_cpu_metrics-cpu_line_example =
    parse_cpu_metrics-cpu_line (some 2) (30 ∷ 1 ∷ 20 ∷ 400 ∷ 9 ∷ []) "cpu0 1 2 3 4\n" (omega arith)
      (omega arith)

-- The files of a host; its floating-point numbers stay as they are written.
abbrev read : String → Result String String
read path =
    if str_eq path "/proc/sys/kernel/hostname"
    then ok "vm-host\n"
    else if str_eq path "/proc/uptime"
    then ok "350735.47 234388.90\n"
    else if str_eq path "/proc/loadavg"
    then ok "0.20 0.18 0.12 1/80 11206\n"
    else if str_eq path "/proc/stat"
    then ok "cpu  30 1 20 400 9\ncpu0 30 1 20 400 9\nintr 7\n"
    else if str_eq path "/proc/meminfo"
    then ok
        "MemTotal: 100 kB\nMemFree: 10 kB\nMemAvailable: 60 kB\nSwapTotal: 4 kB\nSwapFree: 1 kB\n"
    else err "No such file or directory"

abbrev pub host : Host String
host = record { read = read; now = "now"; parse_f64 = ok; available_parallelism = none }

abbrev report : HostMetrics String
report = record {
  collected_at = "now";
  hostname = "vm-host";
  uptime_seconds = "350735.47";
  load_average = record { one_minute = "0.20"; five_minutes = "0.18"; fifteen_minutes = "0.12" };
  cpu = record { logical_cores = 1; total_ticks = 460; idle_ticks = 409; busy_ticks = 51 };
  memory = record {
    total_bytes = 102400;
    available_bytes = 61440;
    used_bytes = 40960;
    free_bytes = 10240;
    buffers_bytes = 0;
    cached_bytes = 0;
    swap_total_bytes = 4096;
    swap_free_bytes = 1024;
    swap_used_bytes = 3072;
  };
  processes = record { running = 1; total = 80 };
}

host_is_reported : collect_host_metrics host ≡ ok report
unfolding collect_host_metrics parse_cpu_metrics parse_meminfo_kib memory_of_meminfo lines
    split_once split_whitespace trim trim_start trim_end parse_uint get_kib
host_is_reported = refl

collect_host_metrics-Balances_example : Balances report.cpu × AddsUp report.memory
collect_host_metrics-Balances_example = collect_host_metrics-Balances host report host_is_reported
