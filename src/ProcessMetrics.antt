-- ===== src/ProcessMetrics.antt =====
-- src/vm_metrics.rs: the metrics of a VM's process, from the files of /proc. Reading a file and the
-- clock are parameters; an `io::Error` is its text.
pub mod Stat
pub mod Reads
use Prim.Native.Char.{Char, code}
use Prim.Native.String
use croutond.Base.{
  ℕ, zero, suc, ◌+◌, ◌-◌, ◌*◌, ◌^◌, String, Bool, true, false, ◌&&◌, Option, none, some, List, [],
  ◌∷◌, length, get_elem?, ltb, ◌==◌, str_eq, if◌then◌else◌, Result, ok, err, ok_or, map_err, ◌>>=◌,
}
use croutond.Base.Words.{max_u64, saturate}
use croutond.Base.Text.Splits.{split_whitespace, lines, split_once}
use croutond.Base.Text.{◌+++◌, trim, is_empty, is_whitespace}
use croutond.Base.Text.Decimal.{decimal, parse_uint}

pub record VmProcessMetrics : Type 0 where
  pub collected_at : String
  pub pid : ℕ
  pub state : String
  pub rss_bytes : ℕ
  pub virtual_memory_bytes : ℕ
  pub cpu_user_ticks : ℕ
  pub cpu_system_ticks : ℕ
  pub cpu_total_ticks : ℕ
  pub thread_count : ℕ

-- `state` is a `char`, kept as the text of one character that it is printed as.
pub record ProcStat : Type 0 where
  pub state : String
  pub utime : ℕ
  pub stime : ℕ
  pub num_threads : ℕ

-- What stands behind a `)` at the character `c`, if none follows.
abbrev pub or_here : Char → String → Option String → Option String
or_here c s (some rest) = some rest
or_here c s none = if code c == b')' then some s else none

-- What stands behind the last `)`: `rfind` and the slice behind it, which is never out of range.
unfoldable pub after_last_paren : String → Option String
after_last_paren String.[] = none
after_last_paren (String.◌∷◌ c s) = or_here c s (after_last_paren s)

abbrev first_char : String → Option String
first_char String.[] = none
first_char (String.◌∷◌ c s) = some (String.◌∷◌ c String.[])

-- `parse_u64` and `parse_u32`, by the largest number of the type.
abbrev pub parse_field : ℕ → String → String → Result String ℕ
parse_field limit field raw =
    map_err (λ error. "invalid " +++ field +++ ": " +++ error) (parse_uint limit raw)

-- `fields[i]`, which is in range where it is read.
abbrev nth_field : ℕ → List String → String
nth_field i fields = elim (get_elem? fields i) [ none ↦ "" | some field ↦ field ]

-- The fields behind the name of the command: the first is field 3 of the file.
unfoldable pub parse_fields : List String → Result String ProcStat
parse_fields fields =
    if ltb (length fields) 18 then err "invalid /proc stat format: too few fields" else do
      state ← ok_or (first_char (nth_field 0 fields)) "missing process state"
      utime ← parse_field max_u64 "utime" (nth_field 11 fields)
      stime ← parse_field max_u64 "stime" (nth_field 12 fields)
      num_threads ← parse_field (2 ^ 32 - 1) "num_threads" (nth_field 17 fields)
      ok (record { state = state; utime = utime; stime = stime; num_threads = num_threads })

unfoldable pub parse_proc_stat : String → Result String ProcStat
parse_proc_stat raw = do
  after ← ok_or (after_last_paren raw) "invalid /proc stat format: missing ')'"
  parse_fields (split_whitespace after)

-- A map: the entry that was inserted last comes first.
abbrev pub KibMap : Type 0
KibMap = List (String × ℕ)

unfoldable pub get_kib : String → KibMap → Option ℕ
get_kib key [] = none
get_kib key ((k, value) ∷ entries) =
    let rest = get_kib key entries in if str_eq k key then some value else rest

unfoldable pub insert_parsed : String → Result String ℕ → KibMap → KibMap
insert_parsed key (err error) out = out
insert_parsed key (ok parsed) out = (trim key, parsed) ∷ out

-- The value is the first word behind the colon.
unfoldable pub insert_value : String → List String → KibMap → KibMap
unfolding insert_parsed
insert_value key [] out = out
insert_value key (value ∷ words) out = insert_parsed key (parse_uint max_u64 value) out

unfoldable pub insert_line : String → KibMap → KibMap
unfolding insert_value
insert_line line out = elim (split_once b':' line) [
  | none ↦ out
  | some (key, value) ↦ insert_value key (split_whitespace value) out
]

-- The `for` loop over the lines. A line that does not parse is left out.
unfoldable pub insert_lines : List String → KibMap → KibMap
unfolding insert_line
insert_lines [] out = out
insert_lines (line ∷ rest) out = insert_lines rest (insert_line line out)

unfoldable pub parse_status_kib : String → KibMap
unfolding insert_lines
parse_status_kib raw = insert_lines (lines raw) []

abbrev pub kib_to_bytes : ℕ → ℕ
kib_to_bytes value = saturate (value * 1024)

abbrev pub unwrap_or_zero : Option ℕ → ℕ
unwrap_or_zero none = 0
unwrap_or_zero (some n) = n

-- `read` is `std::fs::read_to_string`, `now` the clock's text.
unfoldable pub collect_vm_process_metrics :
    (String → Result String String) → String → ℕ → Result String VmProcessMetrics
unfolding get_kib
collect_vm_process_metrics read now pid = do
  stat_raw ← read ("/proc/" +++ decimal pid +++ "/stat")
  stat ← parse_proc_stat stat_raw
  status_raw ← read ("/proc/" +++ decimal pid +++ "/status")
  let status = parse_status_kib status_raw
  ok (record {
    collected_at = now;
    pid = pid;
    state = stat.state;
    rss_bytes = kib_to_bytes (unwrap_or_zero (get_kib "VmRSS" status));
    virtual_memory_bytes = kib_to_bytes (unwrap_or_zero (get_kib "VmSize" status));
    cpu_user_ticks = stat.utime;
    cpu_system_ticks = stat.stime;
    cpu_total_ticks = saturate (stat.utime + stat.stime);
    thread_count = stat.num_threads;
  })
