-- ===== src/Task/Talk/Upload.antt =====
-- An upload, from the client's first write to both ends' results.
use quic_hop.Base.{ℕ, ◌-◌, ◌^◌, ◌<◌, ◌≡◌, refl, ap, ◌∙◌, List, [], ◌∷◌, arith, length, inl}
use native.Mathlib.Nat.{zero-add}
use quic_hop.Floats.{Floats}
use quic_hop.Clock.{put_uint64}
use quic_hop.Calibration.{get_uint64}
use quic_hop.Calibration.Exact.{get_uint64-put_uint64}
use quic_hop.Config.{codes}
use quic_hop.Task.{Proc, ◌>>=◌, finish, receive_data, send_data}
use quic_hop.Task.Loss.{loss_percentage}
use quic_hop.Task.Server.{
  Readings, Figures, ack, speed, server_speed, client_loss, task_upload, report_upload,
  run_upload_task, dispatch, handle_single_task,
}
use quic_hop.Task.Client.{Measured, loss_report, upload}
use quic_hop.Task.Run.{finished, waiting, more, run, fails, rest_of}
use quic_hop.Task.Talk.{Talk, open_end, turn, turns, resume}
use quic_hop.Task.Talk.Transfer.{>>=_assoc, run-send_data}
use quic_hop.Task.Talk.Receive.{run-receive_data, run-receive_data_waits}

module _ (f : Floats) (rc rs : Readings) where
  abbrev pub client_result : ℕ → Measured f
  client_result n = record {
    mbps = speed f n (rc.ended - rc.started);
    loss_pct = loss_percentage f rc.pre_loss rc.post_loss;
  }

  abbrev pub server_result : ℕ → Figures f
  server_result n = record {
    speed_mbps = server_speed f n rs;
    client_loss_pct = client_loss f (loss_report f rc);
    server_loss_pct = loss_percentage f rs.pre_loss rs.post_loss;
  }

  abbrev pub speed_report : ℕ → List ℕ
  speed_report n = put_uint64 (f.to_uint64 (f.mul (server_speed f n rs) (f.of_uint64 100)))

  -- The client's part, turn by turn.
  record ClientTurns (content : List ℕ) (cuts : List ℕ) : Type 0 where
    p1 : Proc (Measured f)
    p2 : Proc (Measured f)
    p3 : Proc (Measured f)
    first :
        run (upload f rc content) (open_end [] cuts [])
        ≡ (waiting p1, open_end [] cuts (1 ∷ put_uint64 (length content)))
    second : run p1 (open_end ack cuts []) ≡ (waiting p2, open_end [] cuts content)
    third :
        (v : ℕ)
        → run p2 (open_end (1 ∷ put_uint64 v) cuts [])
          ≡ (waiting p3, open_end [] cuts (loss_report f rc))
    fourth :
        run p3 (open_end ack cuts [])
        ≡ (finished (client_result (length content)), open_end [] cuts [])

  client_turns : (content cuts : List ℕ) → ClientTurns content cuts
  unfolding upload run fails rest_of
  client_turns content cuts = record {
    p1 = _;
    p2 = _;
    p3 = _;
    first = refl;
    second = run-send_data _ (length content) content _ [] cuts [] (omega arith);
    third = λ v. refl;
    fourth = refl;
  }

  -- The server's part, on content that is not empty.
  record ServerTurns (content : List ℕ) (cuts : List ℕ) : Type 0 where
    q1 : Proc (ℕ × Figures f)
    q2 : Proc (ℕ × Figures f)
    cuts' : List ℕ
    first :
        run (handle_single_task f rs) (open_end (1 ∷ put_uint64 (length content)) cuts [])
        ≡ (waiting q1, open_end [] cuts ack)
    second :
        run q1 (open_end content cuts [])
        ≡ (waiting q2, open_end [] cuts' (1 ∷ speed_report (length content)))
    third :
        run q2 (open_end (loss_report f rc) cuts' [])
        ≡ (finished (1, server_result (length content)), open_end [] cuts' ack)

  -- What follows the content.
  abbrev after_data : ℕ → Proc (ℕ × Figures f)
  after_data received = report_upload f rs received >>= λ figures. finish (task_upload, figures)

  abbrev awaiting_data : ℕ → Proc (ℕ × Figures f)
  awaiting_data n = receive_data n n (codes "receive upload data") 0 >>= after_data

  pub server_first :
      (n : ℕ) (cuts : List ℕ)
      → 0 < n
      → n < 2 ^ 64
      → run (handle_single_task f rs) (open_end (1 ∷ put_uint64 n) cuts [])
        ≡ (waiting (awaiting_data n), open_end [] cuts ack)
  unfolding handle_single_task dispatch run_upload_task run fails rest_of
  server_first n cuts pos small =
      ap
        (λ (m : ℕ).
          run
            ((receive_data m m (codes "receive upload data") 0 >>= report_upload f rs)
              >>= λ figures. finish (task_upload, figures))
            (open_end [] cuts ack))
        (get_uint64-put_uint64 n small)
      ∙ ap (λ (p : Proc (ℕ × Figures f)). run p (open_end [] cuts ack))
          (>>=_assoc (receive_data n n (codes "receive upload data") 0) (report_upload f rs)
            (λ figures. finish (task_upload, figures)))
      ∙ run-receive_data_waits (codes "receive upload data") n after_data cuts ack pos

  server_turns : (b : ℕ) (bs cuts : List ℕ) → length (b ∷ bs) < 2 ^ 64 → ServerTurns (b ∷ bs) cuts
  unfolding handle_single_task dispatch run_upload_task report_upload run fails rest_of loss_report
  server_turns b bs cuts small =
      let n = length (b ∷ bs) in
      let data_read =
        run-receive_data (codes "receive upload data") more n n 0 after_data (b ∷ bs) cuts [] small
          (omega arith) (omega arith) (inl (omega arith)) in
      record {
        q1 = awaiting_data n;
        q2 = _;
        cuts' = data_read.0;
        first = server_first n cuts (omega arith) small;
        second =
            data_read.1
            ∙ ap (λ (v : ℕ). run (after_data v) (open_end [] data_read.0 [])) (zero-add n);
        third = refl;
      }

  abbrev pub start : List ℕ → List ℕ → List ℕ → Talk (Measured f) (ℕ × Figures f)
  start content cuts cuts' = record {
    client = waiting (upload f rc content);
    client_end = open_end [] cuts [];
    server = waiting (handle_single_task f rs);
    server_end = open_end [] cuts' [];
  }

  -- An upload of fewer than 2^64 bytes on an open stream, its bytes read in any portions: after four
  -- turns both ends have finished. The server has counted every byte, and its record of the client's
  -- loss is the figure that the client reported.
  pub upload_completes :
      (content cuts cuts' : List ℕ)
      → length content < 2 ^ 64
      → ((turns 4 (start content cuts cuts')).client ≡ finished (client_result (length content)))
        × ((turns 4 (start content cuts cuts')).server
            ≡ finished (1, server_result (length content)))
  unfolding turns turn resume
  upload_completes [] cuts cuts' small =
      unfold upload handle_single_task dispatch run_upload_task report_upload run fails rest_of
        receive_data send_data get_uint64 loss_report in
      (refl, refl)
  upload_completes (b ∷ bs) cuts cuts' small =
      let c = client_turns (b ∷ bs) cuts in
      let s = server_turns b bs cuts' small in
      (
        rw (c.first, s.first, c.second, s.second, c.third, s.third, c.fourth) refl,
        rw (c.first, s.first, c.second, s.second, c.third, s.third) refl,
      )
