-- ===== src/Task/Client.antt =====
-- client/main.go: `runUploadTask` and `runDownloadTask`, on a stream that is open. What they return
-- beside an error is dropped, since the caller tries again then.
use quic_hop.Base.{ℕ, ◌-◌, List, [], ◌∷◌, length}
use quic_hop.Config.{codes}
use quic_hop.Floats.{Floats}
use quic_hop.Clock.{put_uint64}
use quic_hop.Calibration.{get_uint64}
use quic_hop.Task.{Proc, finish, ◌>>=◌, ◌>>◌, send, receive, receive_data, send_data}
use quic_hop.Task.Loss.{loss_percentage}
use quic_hop.Task.Server.{Readings, speed, task_upload, task_download}

module _ (f : Floats) where
  pub record Measured : Type 0 where
    pub mbps : f.Float
    pub loss_pct : f.Float

  -- `uint64(lossPct * 10000)`, in eight bytes.
  unfoldable pub loss_report : Readings → List ℕ
  loss_report r =
      put_uint64
        (f.to_uint64 (f.mul (loss_percentage f r.pre_loss r.post_loss) (f.of_uint64 10000)))

  unfoldable pub upload : Readings → List ℕ → Proc Measured
  upload r content = do
    send (task_upload ∷ []) (codes "send task type")
    send (put_uint64 (length content)) (codes "send upload size")
    ready ← receive 1 (codes "receive ready ACK")
    send_data (length content) content (codes "send upload data")
    complete ← receive 1 (codes "receive completion ACK")
    server_speed ← receive 8 (codes "receive server speed")
    send (loss_report r) (codes "send loss pct")
    final ← receive 1 (codes "receive final ACK")
    finish (record {
      mbps = speed f (length content) (r.ended - r.started);
      loss_pct = loss_percentage f r.pre_loss r.post_loss;
    })

  -- From the end of the content on.
  unfoldable pub report_download : Readings → ℕ → Proc Measured
  report_download r received = do
    let mbps = speed f received (r.ended - r.started)
    send (put_uint64 (f.to_uint64 (f.mul mbps (f.of_uint64 100)))) (codes "send download speed")
    send (loss_report r) (codes "send loss pct")
    final ← receive 1 (codes "receive final ACK")
    finish (record { mbps = mbps; loss_pct = loss_percentage f r.pre_loss r.post_loss })

  unfoldable pub download : Readings → ℕ → Proc Measured
  download r size = do
    send (task_download ∷ []) (codes "send task type")
    send (put_uint64 size) (codes "send download size")
    size_buf ← receive 8 (codes "receive file size")
    received ← receive_data (get_uint64 size_buf) (get_uint64 size_buf) (codes "receive data") 0
    report_download r received
