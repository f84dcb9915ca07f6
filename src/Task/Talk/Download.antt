-- ===== src/Task/Talk/Download.antt =====
-- A download, from the client's first write to both ends' results.
use quic_hop.Base.{
  ℕ, zero, suc, ◌+◌, ◌-◌, ◌^◌, ◌<◌, ◌≡◌, refl, ap, ◌∙◌, List, [], ◌∷◌, ◌++◌, arith, false, length,
  leb, inl,
}
use quic_hop.Config.{codes}
use quic_hop.Floats.{Floats}
use quic_hop.Clock.{put_uint64}
use quic_hop.Calibration.{get_uint64}
use quic_hop.Calibration.Exact.{get_uint64-put_uint64}
use quic_hop.Task.{Proc, ◌>>=◌, finish, receive_data, send_data}
use quic_hop.Task.Loss.{loss_percentage}
use quic_hop.Task.Server.{
  Readings, Figures, ack, speed, server_speed, client_loss, task_download, pattern_from,
  run_download_task, send_download, report_download, dispatch, handle_single_task,
}
use quic_hop.Task.Client
use quic_hop.Task.Client.{Measured, loss_report, download}
use quic_hop.Task.Run.{finished, waiting, more, run, fails, rest_of}
use quic_hop.Task.Talk.{Talk, open_end, turn, turns, resume}
use quic_hop.Task.Talk.Transfer.{>>=_assoc, run-send_data, run-read_uint64}
use quic_hop.Task.Talk.Receive.{run-receive_data}

length-pattern_from : (shift n i : ℕ) → length (pattern_from shift n i) ≡ n
unfolding pattern_from
length-pattern_from shift zero i = refl
length-pattern_from shift (suc n) i = ap suc (length-pattern_from shift n (i + 1))

module _ (f : Floats) (rc rs : Readings) (n : ℕ) (small : n < 2 ^ 63)
    (fits : n < rs.allocatable) where
  abbrev pub content : List ℕ
  content = pattern_from 100 n 0

  abbrev pub client_result : Measured f
  client_result = record {
    mbps = speed f n (rc.ended - rc.started);
    loss_pct = loss_percentage f rc.pre_loss rc.post_loss;
  }

  abbrev pub server_result : Figures f
  server_result = record {
    speed_mbps = server_speed f n rs;
    client_loss_pct = client_loss f (loss_report f rc);
    server_loss_pct = loss_percentage f rs.pre_loss rs.post_loss;
  }

  abbrev pub speed_report : List ℕ
  speed_report =
      put_uint64 (f.to_uint64 (f.mul (speed f n (rc.ended - rc.started)) (f.of_uint64 100)))

  -- The server's part.
  record ServerTurns (cuts : List ℕ) : Type 0 where
    q1 : Proc (ℕ × Figures f)
    first :
        run (handle_single_task f rs) (open_end (2 ∷ put_uint64 n) cuts [])
        ≡ (waiting q1, open_end [] cuts (put_uint64 n ++ content))
    second :
        run q1 (open_end (speed_report ++ loss_report f rc) cuts [])
        ≡ (finished (2, server_result), open_end [] cuts ack)

  abbrev tagged : Proc (Figures f) → Proc (ℕ × Figures f)
  tagged p = p >>= λ (figures : Figures f). finish (task_download, figures)

  sent_whole :
      (cuts : List ℕ)
      → run (tagged (send_download f rs n)) (open_end [] cuts [])
        ≡ run (tagged (report_download f rs n)) (open_end [] cuts (put_uint64 n ++ content))
  unfolding send_download run fails rest_of
  sent_whole cuts =
      let made : leb rs.allocatable n ≡ false = ground (arith, fits) in
      rw made (
        ap (λ (p : Proc (ℕ × Figures f)). run p (open_end [] cuts (put_uint64 n)))
          (>>=_assoc {C = ℕ × Figures f} (send_data n content (codes "send download data"))
            (λ _. report_download f rs n)
            (λ (figures : Figures f). finish (task_download, figures)))
        ∙ run-send_data (codes "send download data") n content (tagged (report_download f rs n)) []
            cuts (put_uint64 n) (omega (arith, length-pattern_from 100 n 0)))

  server_first :
      (cuts : List ℕ)
      → run (handle_single_task f rs) (open_end (2 ∷ put_uint64 n) cuts [])
        ≡ run (tagged (report_download f rs n)) (open_end [] cuts (put_uint64 n ++ content))
  unfolding handle_single_task dispatch run_download_task run fails rest_of
  server_first cuts =
      ap (λ (m : ℕ). run (tagged (send_download f rs m)) (open_end [] cuts []))
        (get_uint64-put_uint64 n (omega arith))
      ∙ sent_whole cuts

  server_turns : (cuts : List ℕ) → ServerTurns cuts
  unfolding report_download run fails rest_of loss_report
  server_turns cuts = record { q1 = _; first = server_first cuts; second = refl }

  -- The client's part.
  record ClientTurns (cuts : List ℕ) : Type 0 where
    p1 : Proc (Measured f)
    p2 : Proc (Measured f)
    cuts' : List ℕ
    first :
        run (download f rc n) (open_end [] cuts [])
        ≡ (waiting p1, open_end [] cuts (2 ∷ put_uint64 n))
    second :
        run p1 (open_end (put_uint64 n ++ content) cuts [])
        ≡ (waiting p2, open_end [] cuts' (speed_report ++ loss_report f rc))
    third : run p2 (open_end ack cuts' []) ≡ (finished client_result, open_end [] cuts' [])

  client_turns : (cuts : List ℕ) → ClientTurns cuts
  unfolding download Client.report_download run fails rest_of loss_report
  client_turns cuts =
      let whole = length-pattern_from 100 n 0 in
      let data_read =
        run-receive_data (codes "receive data") more n n 0 (Client.report_download f rc) content
          cuts [] (omega arith) (omega arith) (omega (arith, whole)) (inl (omega (arith, whole))) in
      record {
        p1 = _;
        p2 = _;
        cuts' = data_read.0;
        first = refl;
        second =
            run-read_uint64 (codes "receive file size") more n
              (λ bs.
                receive_data (get_uint64 bs) (get_uint64 bs) (codes "receive data") 0
                >>= Client.report_download f rc)
              content cuts []
            ∙ ap
                (λ (m : ℕ).
                  run (receive_data m m (codes "receive data") 0 >>= Client.report_download f rc)
                    (open_end content cuts []))
                (get_uint64-put_uint64 n (omega arith))
            ∙ data_read.1
            ∙ ap (λ (v : ℕ). run (Client.report_download f rc v) (open_end [] data_read.0 []))
                (omega (arith, whole));
        third = refl;
      }

  abbrev pub start : List ℕ → List ℕ → Talk (Measured f) (ℕ × Figures f)
  start cuts cuts' = record {
    client = waiting (download f rc n);
    client_end = open_end [] cuts [];
    server = waiting (handle_single_task f rs);
    server_end = open_end [] cuts' [];
  }

  -- A download of fewer than 2^63 bytes, which the server can allocate, on an open stream, its bytes
  -- read in any portions: after three
  -- turns both ends have finished. The client has counted every byte, and the server's record of the
  -- client's loss is the figure that the client reported.
  pub download_completes :
      (cuts cuts' : List ℕ)
      → ((turns 3 (start cuts cuts')).client ≡ finished client_result)
        × ((turns 3 (start cuts cuts')).server ≡ finished (2, server_result))
  unfolding turns turn resume
  download_completes cuts cuts' =
      let c = client_turns cuts in
      let s = server_turns cuts' in
      (
        rw (c.first, s.first, c.second, s.second, c.third) refl,
        rw (c.first, s.first, c.second, s.second) refl,
      )
