-- ===== src/Serving.antt =====
-- server/main.go: `handleConn`, from a task on its stream to a line of results.csv.
pub mod Results
pub mod Once
use quic_hop.Base.{
  ℕ, suc, ◌+◌, List, [], ◌∷◌, Bool, true, false, not, Option, none, some, u64, ◌==◌, if◌then◌else◌,
}
use quic_hop.Config.{codes}
use quic_hop.Floats.{Floats}
use quic_hop.Task.Server.{Readings, Figures, task_upload, handle_single_task}
use quic_hop.Task.Run.{Halt, finished, aborted, crashed, unending, waiting, End, run}
use quic_hop.Cpumon.{ProcessMonitor, average_between}
use quic_hop.Report.{FileErrors, TaskResult, append_results_csv}

-- What `handleConn` does: it returns nil or an error, panics, or stays in its task,
-- where it waits for its peer or never ends.
pub data Handling : Type 0 where
  returned : Handling
  failed : Handling
  panicked : Handling
  blocked : Handling

-- The variables and the file that outlive a connection.
pub record Server : Type 0 where
  pub task_seq : ℕ
  pub results : Option (List ℕ)

abbrev pub name_of : ℕ → List ℕ
name_of kind = if kind == task_upload then codes "upload" else codes "download"

module _ (f : Floats) where
  -- One connection: whether `AcceptStream` gives a stream, the server's end of it, what the task reads
  -- of the clock and of the counters, and the process monitor, if one was started.
  pub record Connection : Type 0 where
    pub accepted : Bool
    pub stream : End
    pub readings : Readings
    pub process_monitor : Option (ProcessMonitor f)

  unfoldable pub get_averages : Option (ProcessMonitor f) → ℕ → ℕ → f.Float × f.Float
  get_averages none start end = (f.of_uint64 0, f.of_uint64 0)
  get_averages (some pm) start end = average_between f start end pm

  unfoldable pub task_result : ℕ → Connection → ℕ → Figures f → TaskResult f
  unfolding get_averages
  task_result id c kind figures =
      let (cpu, mem) = get_averages c.process_monitor c.readings.started c.readings.ended in
      record {
        task_id = id;
        task_type = name_of kind;
        speed_mbps = figures.speed_mbps;
        cpu_avg = cpu;
        mem_avg_mb = mem;
        client_loss_pct = figures.client_loss_pct;
        server_loss_pct = figures.server_loss_pct;
      }

  abbrev pub outcome_of : Connection → Halt (ℕ × Figures f)
  outcome_of c = (run (handle_single_task f c.readings) c.stream).0

  -- What follows the task: an error of the file is logged and not returned.
  unfoldable pub conclude :
      FileErrors
      → ℕ
      → Connection
      → ℕ
      → Halt (ℕ × Figures f)
      → Option (List ℕ)
      → Handling × Option (List ℕ)
  unfolding task_result
  conclude w slot_ms c id (finished (kind, figures)) file =
      (returned, (append_results_csv f w slot_ms (task_result id c kind figures) file).1)
  conclude w slot_ms c id (aborted why) file = (failed, file)
  conclude w slot_ms c id crashed file = (panicked, file)
  conclude w slot_ms c id (waiting p) file = (blocked, file)
  conclude w slot_ms c id unending file = (blocked, file)

  unfoldable pub handle_conn : FileErrors → ℕ → Connection → Server → Handling × Server
  unfolding conclude
  handle_conn w slot_ms c s =
      if c.accepted
      then (let id = u64 (s.task_seq + 1) in
          let (handling, file) = conclude w slot_ms c id (outcome_of c) s.results in
          (handling, record { task_seq = id; results = file }))
      else (failed, s)
