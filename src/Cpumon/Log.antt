-- ===== src/Cpumon/Log.antt =====
-- pkg/cpumon/cpumon.go: `Monitor`, from the counters of the whole machine to its log.
use quic_hop.Base.{
  ℕ, ◌+◌, ◌-◌, ◌^◌, ◌≡◌, refl, ap, List, [], ◌∷◌, ◌++◌, ◌&&◌, Option, none, some, u64, ◌>>=◌,
  if◌then◌else◌, get_elem?, Option-cases, inl, inr,
}
use quic_hop.Config.{codes}
use mathlib.Core.List.{append-nil, append_assoc}
use quic_hop.Floats.{Floats}
use quic_hop.Strconv.{fields, split_on, has_prefix}
use quic_hop.Cpumon.{read_cpu_raw, cpu_percent}

module _ (f : Floats) where
  -- `strconv.ParseFloat` of the second field; `none` is the panic where there is none.
  unfoldable pub second_field : List ℕ → Option f.Float
  second_field line = do text ← get_elem? (fields line) 1; some (f.parse text)

  -- One line, with `total` and `avail` so far.
  unfoldable pub mem_line : List ℕ → f.Float × f.Float → Option (f.Float × f.Float)
  unfolding second_field
  mem_line line (total, avail) =
      if has_prefix line (codes "MemTotal:")
      then (second_field line >>= λ v. some (v, avail))
      else if has_prefix line (codes "MemAvailable:")
      then (second_field line >>= λ v. some (total, v))
      else some (total, avail)

  -- The loop over the lines, up to the one after which both are known.
  unfoldable pub mem_loop : List (List ℕ) → f.Float × f.Float → Option (f.Float × f.Float)
  unfolding mem_line
  mem_loop [] sizes = some sizes
  mem_loop (line ∷ lines) sizes = mem_line line sizes >>= λ (total, avail).
      (let rest = mem_loop lines (total, avail) in
        if f.is_positive total && f.is_positive avail then some (total, avail) else rest)

  -- The first bytes of /proc/meminfo, as many as the buffer holds.
  unfoldable pub read_mem_raw : List ℕ → Option f.Float
  unfolding mem_loop
  read_mem_raw buf = mem_loop (split_on 10 buf) (f.of_uint64 0, f.of_uint64 0) >>= λ (total, avail).
      some (
        if f.is_zero total
        then f.of_uint64 0
        else f.mul (f.div (f.sub total avail) total) (f.of_uint64 100))

  unfoldable pub log_line : List ℕ → f.Float → f.Float → f.Float → List ℕ
  log_line time cpu steal mem =
      time
      ++ codes ", "
      ++ f.format 1 cpu
      ++ codes ", "
      ++ f.format 1 steal
      ++ codes ", "
      ++ f.format 1 mem
      ++ 10 ∷ []

  -- Total, work and steal of the tick before.
  abbrev pub Counters : Type 0
  Counters = ℕ × (ℕ × ℕ)

  unfoldable pub share : ℕ → ℕ → Counters → Counters → f.Float
  unfolding cpu_percent
  share before now prev curr =
      cpu_percent f (u64 (now + (2 ^ 64 - before))) (u64 (curr.0 + (2 ^ 64 - prev.0)))

  -- What a tick finds: its time as text, and what is read of both files.
  pub record Tick : Type 0 where
    pub time : List ℕ
    pub stat : List ℕ
    pub meminfo : List ℕ

  unfoldable pub line_of_tick : Counters → Tick → Option (List ℕ)
  unfolding share log_line
  line_of_tick prev t =
      let curr = read_cpu_raw t.stat in
      read_mem_raw t.meminfo >>= λ mem.
      some (
        log_line t.time (share prev.1.0 curr.1.0 prev curr) (share prev.1.1 curr.1.1 prev curr) mem)

  -- The ticks until the context ends or the log cannot be written, each with its line.
  unfoldable pub monitor_loop : List Tick → Counters → List ℕ → Option (List ℕ)
  unfolding line_of_tick
  monitor_loop [] prev log = some log
  monitor_loop (t ∷ ticks) prev log =
      line_of_tick prev t >>= λ line. monitor_loop ticks (read_cpu_raw t.stat) (log ++ line)

  unfoldable pub monitor : List ℕ → List Tick → List ℕ → Option (List ℕ)
  unfolding monitor_loop
  monitor first_stat ticks log = monitor_loop ticks (read_cpu_raw first_stat) log

  behind :
      (log line : List ℕ) (lines : Option (List ℕ))
      → (lines >>= λ l. some ((log ++ line) ++ l))
        ≡ ((lines >>= λ l. some (line ++ l)) >>= λ l. some (log ++ l))
  behind log line none = refl
  behind log line (some l) = ap some (append_assoc log line l)

  -- What was in the log stays in front.
  monitor_loop-append :
      (ticks : List Tick) (prev : Counters) (log : List ℕ)
      → monitor_loop ticks prev log ≡ (monitor_loop ticks prev [] >>= λ lines. some (log ++ lines))
  unfolding monitor_loop
  monitor_loop-append [] prev log = rw append-nil refl
  monitor_loop-append (t ∷ ticks) prev log = elim (Option-cases (line_of_tick prev t)) [
    | inl panics ↦ rw panics refl
    | inr (line, written) ↦
        let curr = read_cpu_raw t.stat in
        rw
          (
            written,
            monitor_loop-append ticks curr (log ++ line),
            monitor_loop-append ticks curr line,
          )
          (behind log line (monitor_loop ticks curr []))
  ]
