-- ===== src/Tests/Metrics.antt =====
-- The metrics of a process.
use croutond.Base.{
  Bool, true, ◌&&◌, ◌==◌, String, List, arith, ◌≡◌, refl, [], ◌∷◌, ok, str_eq, if◌then◌else◌,
  Result,
}
use croutond.ProcessMetrics.Reads.{StatusLine, size, other, status_text}
use croutond.Tests.Asserts.{expect}
use croutond.Base.Text.{◌+++◌, trim, trim_start, trim_end}
use croutond.Base.Text.Decimal.{parse_uint, decimal}
use croutond.Base.Text.Splits.{split_whitespace, lines, split_once}
use croutond.Base.Text.Spaced.{spaced}
use croutond.ProcessMetrics.{
  after_last_paren, parse_fields, parse_proc_stat, parse_status_kib, collect_vm_process_metrics,
  VmProcessMetrics,
}
use croutond.ProcessMetrics.Stat.{parse_proc_stat-spaced}

abbrev fields : String
fields = " S 1 2 3 4 5 6 7 8 9 10 120 80 13 14 15 16 8 18 19"

-- The unit test of src/vm_metrics.rs.
abbrev parse_proc_stat_handles_name_with_spaces : Bool
parse_proc_stat_handles_name_with_spaces =
    expect
      (λ stat.
        str_eq stat.state "S"
        && (stat.utime == 120)
        && (stat.stime == 80)
        && (stat.num_threads == 8))
      (parse_proc_stat "42 (demo vm) S 1 2 3 4 5 6 7 8 9 10 120 80 13 14 15 16 8 18 19")

name_with_spaces_passes : parse_proc_stat_handles_name_with_spaces ≡ true
unfolding parse_proc_stat after_last_paren split_whitespace parse_fields parse_uint
name_with_spaces_passes = refl

-- The fields of the process, as words.
abbrev words : List String
words =
    "S" ∷ "1" ∷ "2" ∷ "-3" ∷ "4" ∷ "5" ∷ "6" ∷ "7" ∷ "8" ∷ "9" ∷ "10" ∷ "120" ∷ "80" ∷ "13" ∷ "14"
    ∷ "15" ∷ "16" ∷ "8" ∷ []

parse_proc_stat-spaced_example :
    parse_proc_stat ("42 (a) R 1 (b" +++ ")" +++ spaced words)
    ≡ ok (record { state = "S"; utime = 120; stime = 80; num_threads = 8 })
unfolding after_last_paren decimal
parse_proc_stat-spaced_example =
    parse_proc_stat-spaced "42 (a) R 1 (b" words "S" "" 120 80 8 refl refl (omega arith) refl refl
      refl refl (omega arith) (omega arith) (omega arith)

status_is_read :
    parse_status_kib "Name:\tdemo vm\nVmSize:\t 2048 kB\r\nVmRSS:\t 512 kB\nThreads:\t8\n"
    ≡ ("Threads", 8) ∷ ("VmRSS", 512) ∷ ("VmSize", 2048) ∷ []
unfolding parse_status_kib lines split_once split_whitespace trim trim_start trim_end parse_uint
status_is_read = refl

-- The two files of a process.
abbrev read : String → Result String String
read path =
    if str_eq path "/proc/7/stat"
    then ok ("7 (demo vm)" +++ fields)
    else ok "VmSize:\t 2048 kB\nVmRSS:\t 512 kB\n"

abbrev metrics : VmProcessMetrics
metrics = record {
  collected_at = "now";
  pid = 7;
  state = "S";
  rss_bytes = 524288;
  virtual_memory_bytes = 2097152;
  cpu_user_ticks = 120;
  cpu_system_ticks = 80;
  cpu_total_ticks = 200;
  thread_count = 8;
}

metrics_are_collected : collect_vm_process_metrics read "now" 7 ≡ ok metrics
unfolding collect_vm_process_metrics parse_proc_stat after_last_paren split_whitespace parse_fields
    parse_uint parse_status_kib lines split_once trim trim_start trim_end decimal
metrics_are_collected = refl

-- The second file as lines: a name, which is no number, and the sizes.
abbrev status_lines : List StatusLine
status_lines =
    other "Name" "demo" ("vm" ∷ [])
    ∷ size "VmPeak" 4096
    ∷ size "VmSize" 2048
    ∷ size "VmRSS" 512
    ∷ []

abbrev read_both : String → Result String String
read_both path =
    if str_eq path "/proc/7/stat"
    then ok ("7 (a) R 1 (b" +++ ")" +++ spaced words)
    else ok (status_text status_lines)
