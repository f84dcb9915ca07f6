-- ===== src/Task/Server.antt =====
-- server/main.go: `handleSingleTask`, `runUploadTask` and `runDownloadTask`. What they return beside
-- an error is dropped, since no caller reads it.
use quic_hop.Base.{
  ℕ, zero, suc, ◌+◌, ◌-◌, ◌%◌, List, [], ◌∷◌, ltb, leb, ◌==◌, get_or, if◌then◌else◌,
}
use quic_hop.Config.{codes}
use quic_hop.Floats.{Floats}
use quic_hop.Clock.{put_uint64}
use quic_hop.Calibration.{get_uint64}
use quic_hop.Task.{Proc, finish, abort, crash, ◌>>=◌, ◌>>◌, send, receive, receive_data, send_data}
use quic_hop.Task.Loss.{loss_percentage}

abbrev pub task_upload : ℕ
task_upload = 1

abbrev pub task_download : ℕ
task_download = 2

abbrev pub ack : List ℕ
ack = 1 ∷ []

-- What a task reads of the clock and of the loss counters, at its start and end, and before and after
-- the transfer; and the length from which on `make([]byte, n)` panics, which is 2^63 at most.
pub record Readings : Type 0 where
  pub started : ℕ
  pub ended : ℕ
  pub pre_loss : ℕ × ℕ
  pub post_loss : ℕ × ℕ
  pub allocatable : ℕ

-- `byte((i + 100) % 256)` from index `i` on, for so many bytes.
unfoldable pub pattern_from : ℕ → ℕ → ℕ → List ℕ
pattern_from shift zero i = []
pattern_from shift (suc left) i = (i + shift) % 256 ∷ pattern_from shift left (i + 1)

module _ (f : Floats) where
  pub record Figures : Type 0 where
    pub speed_mbps : f.Float
    pub client_loss_pct : f.Float
    pub server_loss_pct : f.Float

  -- `float64(n) / duration.Seconds() / (1024 * 1024)`
  unfoldable pub speed : ℕ → ℕ → f.Float
  speed n duration = f.div (f.div (f.of_uint64 n) (f.seconds duration)) (f.of_uint64 1048576)

  -- The speed stays 0 unless the duration is positive.
  unfoldable pub server_speed : ℕ → Readings → f.Float
  unfolding speed
  server_speed n r = if ltb r.started r.ended then speed n (r.ended - r.started) else f.of_uint64 0

  -- `float64(clientLossBp) / 10000.0`
  unfoldable pub client_loss : List ℕ → f.Float
  client_loss size_buf = f.div (f.of_uint64 (get_uint64 size_buf)) (f.of_uint64 10000)

  -- From the completion ACK on.
  unfoldable pub report_upload : Readings → ℕ → Proc Figures
  report_upload r received = do
    send ack (codes "send completion ACK")
    send (put_uint64 (f.to_uint64 (f.mul (server_speed received r) (f.of_uint64 100))))
        (codes "send upload speed")
    loss_buf ← receive 8 (codes "receive client loss")
    send ack (codes "send final ACK")
    finish (record {
      speed_mbps = server_speed received r;
      client_loss_pct = client_loss loss_buf;
      server_loss_pct = loss_percentage f r.pre_loss r.post_loss;
    })

  unfoldable pub run_upload_task : Readings → Proc Figures
  run_upload_task r = do
    size_buf ← receive 8 (codes "receive upload size")
    send ack (codes "send ready ACK")
    received ←
        receive_data (get_uint64 size_buf) (get_uint64 size_buf) (codes "receive upload data") 0
    report_upload r received

  -- From the end of the content on. The client's speed is read and not kept.
  unfoldable pub report_download : Readings → ℕ → Proc Figures
  report_download r send_size = do
    speed_buf ← receive 8 (codes "receive client speed")
    loss_buf ← receive 8 (codes "receive client loss")
    send ack (codes "send final ACK")
    finish (record {
      speed_mbps = server_speed send_size r;
      client_loss_pct = client_loss loss_buf;
      server_loss_pct = loss_percentage f r.pre_loss r.post_loss;
    })

  unfoldable pub send_download : Readings → ℕ → Proc Figures
  send_download r send_size = if leb r.allocatable send_size then crash else (do
    send (put_uint64 send_size) (codes "send download size")
    send_data send_size (pattern_from 100 send_size 0) (codes "send download data")
    report_download r send_size)

  unfoldable pub run_download_task : Readings → Proc Figures
  run_download_task r = do
    size_buf ← receive 8 (codes "receive download size")
    send_download r (get_uint64 size_buf)

  -- The `switch` on the task's type, which is kept beside the figures.
  unfoldable pub dispatch : Readings → ℕ → Proc (ℕ × Figures)
  dispatch r kind =
      if kind == task_upload
      then (run_upload_task r >>= λ figures. finish (kind, figures))
      else if kind == task_download
      then (run_download_task r >>= λ figures. finish (kind, figures))
      else abort (codes "unknown task type")

  unfoldable pub handle_single_task : Readings → Proc (ℕ × Figures)
  handle_single_task r = do
    task_type ← receive 1 (codes "read task type")
    dispatch r (get_or task_type 0 0)
