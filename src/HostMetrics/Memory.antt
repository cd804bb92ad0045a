-- ===== src/HostMetrics/Memory.antt =====
-- The memory of the host: how the sizes go together, and how the strict reader of key and number
-- lines goes with the lenient one of the process metrics.
use croutond.Base.{
  ℕ, ◌+◌, ◌-◌, ◌*◌, ◌^◌, ◌<◌, ◌≤◌, String, Option, none, some, List, [], ◌∷◌, ◌≡◌, ◌∙◌, ap, Result,
  ok, err, map_err, ◌>>=◌, arith, ok_injective, >>=-ok, IfOk, IfOk-bind,
}
use croutond.Base.Words.{max_u64, saturate, saturate_fits}
use croutond.Base.Text.{◌+++◌, trim}
use croutond.Base.Text.Splits.{split_whitespace, lines, split_once}
use croutond.Base.Text.Decimal.{parse_uint}
use croutond.ProcessMetrics.{
  KibMap, get_kib, unwrap_or_zero, parse_status_kib, insert_parsed, insert_value, insert_line,
  insert_lines,
}
use croutond.HostMetrics.{
  MemoryMetrics, insert_meminfo_value, insert_meminfo_line, insert_meminfo_lines, parse_meminfo_kib,
  memory_of_meminfo, memory_of_kib, required_meminfo_kib,
}

insert_parsed-ok :
    (say : String → String) (key : String) (r : Result String ℕ) (values m : KibMap)
    → (map_err say r >>= λ parsed. ok ((trim key, parsed) ∷ values)) ≡ ok m
    → insert_parsed key r values ≡ m
unfolding insert_parsed
insert_parsed-ok say key (ok parsed) values m h = ok_injective h
insert_parsed-ok say key (err error) values m h = cc

insert_value-ok :
    (key : String) (words : List String) (values m : KibMap)
    → insert_meminfo_value (trim key) words values ≡ ok m
    → insert_value key words values ≡ m
unfolding insert_meminfo_value insert_value
insert_value-ok key [] values m h = ok_injective h
insert_value-ok key (value ∷ words) values m h =
    insert_parsed-ok (λ error. ("invalid meminfo value for " +++ trim key +++ ": ") +++ error) key
      (parse_uint max_u64 value) values m h

split-ok :
    (split : Option (String × String)) (values m : KibMap)
    → elim split [
      | none ↦ ok values
      | some (key_raw, value_raw) ↦
          insert_meminfo_value (trim key_raw) (split_whitespace value_raw) values
    ]
      ≡ ok m
    → elim split [
      | none ↦ values
      | some (key, value) ↦ insert_value key (split_whitespace value) values
    ]
      ≡ m
split-ok none values m h = ok_injective h
split-ok (some (key, value)) values m h = insert_value-ok key (split_whitespace value) values m h

insert_line-ok :
    (line : String) (values m : KibMap)
    → insert_meminfo_line line values ≡ ok m
    → insert_line line values ≡ m
unfolding insert_meminfo_line insert_line
insert_line-ok line values m h = split-ok (split_once b':' line) values m h

insert_lines-ok :
    (ls : List String) (values m : KibMap)
    → insert_meminfo_lines ls values ≡ ok m
    → insert_lines ls values ≡ m
unfolding insert_meminfo_lines insert_lines
insert_lines-ok [] values m h = ok_injective h
insert_lines-ok (line ∷ rest) values m h =
    let (more, e, k) = >>=-ok (insert_meminfo_line line values) _ h in
    ap (insert_lines rest) (insert_line-ok line values more e) ∙ insert_lines-ok rest more m k

-- Where the strict reader of /proc/meminfo takes a text, the lenient reader of /proc/<pid>/status
-- makes the same map of it.
pub parse_status_kib-parse_meminfo_kib :
    (raw : String) (m : KibMap) → parse_meminfo_kib raw ≡ ok m → parse_status_kib raw ≡ m
unfolding parse_meminfo_kib parse_status_kib
parse_status_kib-parse_meminfo_kib raw m h = insert_lines-ok (lines raw) [] m h

-- Each of the sizes fits 64 bits.
abbrev Fits : MemoryMetrics → Type 0
Fits m =
    (m.total_bytes < 2 ^ 64)
    × (m.available_bytes < 2 ^ 64)
    × (m.used_bytes < 2 ^ 64)
    × (m.free_bytes < 2 ^ 64)
    × (m.buffers_bytes < 2 ^ 64)
    × (m.cached_bytes < 2 ^ 64)
    × (m.swap_total_bytes < 2 ^ 64)
    × (m.swap_free_bytes < 2 ^ 64)
    × (m.swap_used_bytes < 2 ^ 64)

-- The nine sizes that a reading of /proc/meminfo reports fit 64 bits. No more memory and swap space are
-- in use than there are. The memory in use and the available one are together the total,
-- where no more is available than there is and the total is not capped.
abbrev pub AddsUp : MemoryMetrics → Type 0
AddsUp m =
    Fits m
    × (m.used_bytes ≤ m.total_bytes)
    × (m.swap_used_bytes ≤ m.swap_total_bytes)
    × (m.available_bytes ≤ m.total_bytes
        → m.total_bytes < max_u64
        → m.used_bytes + m.available_bytes ≡ m.total_bytes)

saturate_sub_le : (a b : ℕ) → saturate ((a - b) * 1024) ≤ saturate (a * 1024)
saturate_sub_le a b = ground arith

saturate_sub_add :
    (a b : ℕ)
    → saturate (b * 1024) ≤ saturate (a * 1024)
    → saturate (a * 1024) < max_u64
    → saturate ((a - b) * 1024) + saturate (b * 1024) ≡ saturate (a * 1024)
saturate_sub_add a b h k = ground arith

memory_of_kib-AddsUp :
    (total available free : ℕ) (meminfo : KibMap)
    → AddsUp (memory_of_kib total available free meminfo)
memory_of_kib-AddsUp total available free meminfo = (
  (
    saturate_fits (total * 1024),
    saturate_fits (available * 1024),
    saturate_fits ((total - available) * 1024),
    saturate_fits (free * 1024),
    saturate_fits (unwrap_or_zero (get_kib "Buffers" meminfo) * 1024),
    saturate_fits (unwrap_or_zero (get_kib "Cached" meminfo) * 1024),
    saturate_fits (unwrap_or_zero (get_kib "SwapTotal" meminfo) * 1024),
    saturate_fits (unwrap_or_zero (get_kib "SwapFree" meminfo) * 1024),
    saturate_fits (
        (unwrap_or_zero (get_kib "SwapTotal" meminfo) - unwrap_or_zero (get_kib "SwapFree" meminfo))
        * 1024),
  ),
  saturate_sub_le total available,
  saturate_sub_le (unwrap_or_zero (get_kib "SwapTotal" meminfo))
      (unwrap_or_zero (get_kib "SwapFree" meminfo)),
  saturate_sub_add total available,
)

pub memory_of_meminfo-AddsUp : (meminfo : KibMap) → IfOk AddsUp (memory_of_meminfo meminfo)
unfolding memory_of_meminfo
memory_of_meminfo-AddsUp meminfo =
    IfOk-bind AddsUp (required_meminfo_kib meminfo "MemTotal") _ λ total.
      IfOk-bind AddsUp (required_meminfo_kib meminfo "MemAvailable") _ λ available.
        IfOk-bind AddsUp (required_meminfo_kib meminfo "MemFree") _
          λ free. memory_of_kib-AddsUp total available free meminfo
