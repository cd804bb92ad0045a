-- ===== src/HostMetrics/Totals.antt =====
-- The figures that a report on the host gives together.
use croutond.Base.{ok, ◌≡◌, IfOk, IfOk-bind, IfOk-chain, IfOk-elim}
use croutond.HostMetrics.{
  Host, HostMetrics, read_hostname, read_uptime_seconds, read_loadavg_and_processes,
  read_cpu_metrics, read_memory_metrics, collect_host_metrics, parse_meminfo_kib,
}
use croutond.HostMetrics.Cpu.{Balances, parse_cpu_metrics-Balances}
use croutond.HostMetrics.Memory.{AddsUp, memory_of_meminfo-AddsUp}

module _ {F : Type 0} (host : Host F) where
  read_cpu_metrics-Balances : IfOk Balances (read_cpu_metrics host)
  unfolding read_cpu_metrics
  read_cpu_metrics-Balances =
      IfOk-bind Balances (host.read "/proc/stat") _
        λ raw. parse_cpu_metrics-Balances host.available_parallelism raw

  read_memory_metrics-AddsUp : IfOk AddsUp (read_memory_metrics host)
  unfolding read_memory_metrics
  read_memory_metrics-AddsUp =
      IfOk-bind AddsUp (host.read "/proc/meminfo") _ λ raw.
        IfOk-bind AddsUp (parse_meminfo_kib raw) _ λ meminfo. memory_of_meminfo-AddsUp meminfo

  -- Whatever the files of /proc hold: in a report, the processors' times and the nine sizes of the
  -- memory fit 64 bits; what is busy or in use is at most the total; and with the idle time, or the
  -- available memory, it is the total, where that is no more than the total and, for the memory,
  -- the total is not capped.
  pub collect_host_metrics-Balances :
      (m : HostMetrics F) → collect_host_metrics host ≡ ok m → Balances m.cpu × AddsUp m.memory
  unfolding collect_host_metrics
  collect_host_metrics-Balances m =
      let P : HostMetrics F → Type 0 = λ n. Balances n.cpu × AddsUp n.memory in
      IfOk-elim P (collect_host_metrics host) m (
        IfOk-bind P (read_hostname host) _ λ hostname.
          IfOk-bind P (read_uptime_seconds host) _ λ uptime.
            IfOk-bind P (read_loadavg_and_processes host) _ λ averages.
              IfOk-chain Balances P (read_cpu_metrics host) _ read_cpu_metrics-Balances
                λ cpu balances.
                  IfOk-chain AddsUp P (read_memory_metrics host) _ read_memory_metrics-AddsUp
                    λ memory adds_up. (balances, adds_up))
