-- ===== src/Cpumon.antt =====
-- pkg/cpumon/cpumon.go: the counters read from /proc, and the samples of one process. A file's contents
-- are `none` where it cannot be read; an error is `none`, since its text only goes to the log.
pub mod Stat
pub mod Mean
pub mod Log
pub mod Setup
use quic_hop.Base.{
  ℕ, zero, suc, ◌+◌, ◌-◌, ◌*◌, ◌^◌, List, [], ◌∷◌, ◌++◌, Bool, true, false, ◌||◌, ◌&&◌, Option,
  none, some, u64, ltb, leb, ◌==◌, ◌>>=◌, if◌then◌else◌, length, drop, get_or,
}
use quic_hop.Floats.{Floats}
use quic_hop.Strconv.{parse_uint, fields, last_index}

-- `parse(i)`: 0 where there are not so many fields.
abbrev pub parse_field : List (List ℕ) → ℕ → ℕ
parse_field parts i = if ltb i (length parts) then parse_uint (get_or parts i []) else 0

-- `uint64` sums wrap.
abbrev pub total_of : List (List ℕ) → ℕ
total_of parts = u64 (
    parse_field parts 1
    + parse_field parts 2
    + parse_field parts 3
    + parse_field parts 4
    + parse_field parts 5
    + parse_field parts 6
    + parse_field parts 7
    + parse_field parts 8)

-- The first bytes of /proc/stat, as many as the buffer holds: total, work and steal.
unfoldable pub read_cpu_raw : List ℕ → ℕ × (ℕ × ℕ)
read_cpu_raw buf =
    let parts = fields buf in
    let idle = parse_field parts 4 in
    let iowait = parse_field parts 5 in
    (
      total_of parts,
      (u64 (u64 (total_of parts + (2 ^ 64 - idle)) + (2 ^ 64 - iowait)), parse_field parts 8),
    )

unfoldable pub read_total_jiffies : Option (List ℕ) → Option ℕ
read_total_jiffies file = do
  content ← file
  if ltb (length (fields content)) 8 then none else some (total_of (fields content))

-- From the last `)` on, with the page size; the time of the process in ticks and its memory in bytes.
unfoldable pub stat_fields : ℕ → List (List ℕ) → Option (ℕ × ℕ)
stat_fields page_size parts =
    if ltb (length parts) 22
    then none
    else some (
      u64 (parse_uint (get_or parts 11 []) + parse_uint (get_or parts 12 [])),
      u64 (parse_uint (get_or parts 21 []) * page_size),
    )

-- With ASCII behind the last `)`; the name before it may be any bytes.
unfoldable pub read_proc_stat : ℕ → Option (List ℕ) → Option (ℕ × ℕ)
unfolding stat_fields
read_proc_stat page_size file = do
  content ← file
  end_comm ← last_index 41 content
  if leb (length content) (end_comm + 2)
      then none
      else stat_fields page_size (fields (drop (end_comm + 2) content))

-- Total, the process's ticks, its bytes.
unfoldable pub read_proc_and_total : ℕ → Option (List ℕ) → Option (List ℕ) → Option (ℕ × (ℕ × ℕ))
read_proc_and_total page_size stat proc_stat = do
  total ← read_total_jiffies stat
  proc ← read_proc_stat page_size proc_stat
  some (total, proc)

module _ (f : Floats) where
  pub record Result : Type 0 where
    pub timestamp : ℕ
    pub cpu_usage : f.Float
    pub mem_usage : f.Float

  pub record ProcessMonitor : Type 0 where
    pub samples : List Result
    pub last_total : ℕ
    pub last_proc : ℕ

  -- `float64(delta)` is positive exactly when `delta` is.
  unfoldable pub cpu_percent : ℕ → ℕ → f.Float
  cpu_percent delta_proc delta_total =
      if ltb 0 delta_total
      then f.mul (f.div (f.of_uint64 delta_proc) (f.of_uint64 delta_total)) (f.of_uint64 100)
      else f.of_uint64 0

  -- A positive pid; the counters that `readProcAndTotal` gives now are the base.
  unfoldable pub start_process_monitor : ℕ → Option (ℕ × (ℕ × ℕ)) → Option ProcessMonitor
  start_process_monitor pid now = if pid == 0 then none else (do
    (total, (proc, rss)) ← now
    some (record { samples = []; last_total = total; last_proc = proc }))

  -- One tick of `loop`; `none` where the loop returns.
  unfoldable pub tick : ℕ → Option (ℕ × (ℕ × ℕ)) → ProcessMonitor → Option ProcessMonitor
  unfolding cpu_percent
  tick t now pm = do
    (total, (proc, rss)) ← now
    some (record {
      samples =
          pm.samples
          ++ record {
            timestamp = t;
            cpu_usage =
                cpu_percent (u64 (proc + (2 ^ 64 - pm.last_proc)))
                  (u64 (total + (2 ^ 64 - pm.last_total)));
            mem_usage = f.div (f.of_uint64 rss) (f.of_uint64 1048576);
          }
            ∷ [];
      last_total = total;
      last_proc = proc;
    })

  -- What the loop over the samples has added up: both sums and the count.
  unfoldable pub sum_between :
      ℕ → ℕ → List Result → f.Float × (f.Float × ℕ) → f.Float × (f.Float × ℕ)
  sum_between start end [] sums = sums
  sum_between start end (s ∷ samples) (cpu, (mem, count)) = sum_between start end samples (
      if leb start s.timestamp && leb s.timestamp end
      then (f.add cpu s.cpu_usage, (f.add mem s.mem_usage, count + 1))
      else (cpu, (mem, count)))

  unfoldable pub average_of : f.Float × (f.Float × ℕ) → f.Float × f.Float
  average_of (cpu, (mem, count)) =
      if count == 0
      then (f.of_uint64 0, f.of_uint64 0)
      else (f.div cpu (f.of_uint64 count), f.div mem (f.of_uint64 count))

  unfoldable pub average_between : ℕ → ℕ → ProcessMonitor → f.Float × f.Float
  unfolding sum_between average_of
  average_between start end pm =
      if ltb end start
      then (f.of_uint64 0, f.of_uint64 0)
      else average_of (sum_between start end pm.samples (f.of_uint64 0, (f.of_uint64 0, 0)))
