-- ===== src/Task/Talk/Cut.antt =====
-- An upload whose stream is over before all of the content has arrived.
use quic_hop.Base.{
  ℕ, ◌^◌, ◌<◌, ◌≡◌, refl, ap, ◌∙◌, List, [], ◌∷◌, ◌++◌, arith, true, length, leb, inr,
}
use native.Mathlib.Nat.{zero-add}
use quic_hop.Floats.{Floats}
use quic_hop.Clock.{put_uint64}
use quic_hop.Calibration.{get_uint64}
use quic_hop.Calibration.Exact.{get_uint64-put_uint64}
use quic_hop.Config.{codes}
use quic_hop.Task.{Proc, ◌>>=◌, finish, write, receive_data}
use quic_hop.Task.Server.{
  Readings, Figures, ack, server_speed, task_upload, report_upload, run_upload_task, dispatch,
  handle_single_task,
}
use quic_hop.Task.Run.{aborted, Ending, end_of_file, broken, run, fails, rest_of}
use quic_hop.Task.Talk.{sound_end}
use quic_hop.Task.Talk.Transfer.{>>=_assoc, run-read_uint64}
use quic_hop.Task.Talk.Receive.{run-receive_data, run-receive_data_broken}

module _ (f : Floats) (r : Readings) where
  abbrev after_data : ℕ → Proc (ℕ × Figures f)
  after_data received = report_upload f r received >>= λ figures. finish (task_upload, figures)

  abbrev pub speed_report : ℕ → List ℕ
  speed_report n = put_uint64 (f.to_uint64 (f.mul (server_speed f n r) (f.of_uint64 100)))

  abbrev upload_sized : ℕ → Proc (ℕ × Figures f)
  upload_sized n = write ack (codes "send ready ACK") (
      (receive_data n n (codes "receive upload data") 0 >>= report_upload f r) >>= λ figures.
      finish (task_upload, figures))

  -- A request with whatever follows it.
  at_data :
      (ending : Ending) (n : ℕ) (content cuts : List ℕ)
      → n < 2 ^ 64
      → run (handle_single_task f r) (sound_end ending (1 ∷ put_uint64 n ++ content) cuts [])
        ≡ run
            (receive_data n n (codes "receive upload data") 0 >>= after_data)
            (sound_end ending content cuts ack)
  unfolding handle_single_task dispatch run_upload_task run fails rest_of
  at_data ending n content cuts small =
      let asked : leb 1 (length (1 ∷ put_uint64 n ++ content)) ≡ true = ground arith in
      rw (run, asked)
        (run-read_uint64 (codes "receive upload size") ending n (λ bs. upload_sized (get_uint64 bs))
            content cuts []
          ∙ ap (λ (m : ℕ). run (upload_sized m) (sound_end ending content cuts []))
              (get_uint64-put_uint64 n small)
          ∙ ap (λ (p : Proc (ℕ × Figures f)). run p (sound_end ending content cuts ack))
              (>>=_assoc (receive_data n n (codes "receive upload data") 0) (report_upload f r)
                (λ figures. finish (task_upload, figures))))

  -- On a stream that takes every write, and whose bytes are read in any portions: at the end of the stream
  -- behind fewer bytes than were announced, the server acknowledges the upload as
  -- complete all the same and sends a speed computed from the bytes that came, and the task fails only
  -- because the client's loss does not arrive. A stream that fails there makes the task fail at the
  -- data, with nothing sent but the first ACK.
  pub upload_cut :
      (n : ℕ) (content cuts : List ℕ)
      → n < 2 ^ 64
      → length content < n
      → ((cuts' : List ℕ) × (run
              (handle_single_task f r)
              (sound_end end_of_file (1 ∷ put_uint64 n ++ content) cuts [])
            ≡ (
              aborted (codes "receive client loss"),
              sound_end end_of_file [] cuts' (ack ++ ack ++ speed_report (length content)),
            )))
        × ((cuts' : List ℕ) × (run
                (handle_single_task f r)
                (sound_end broken (1 ∷ put_uint64 n ++ content) cuts [])
              ≡ (aborted (codes "receive upload data"), sound_end broken [] cuts' ack)))
  unfolding report_upload run fails rest_of
  upload_cut n content cuts small short =
      let data_read =
        run-receive_data (codes "receive upload data") end_of_file n n 0 after_data content cuts ack
          small (omega arith) (omega (arith, short)) (inr refl) in
      let failed =
        run-receive_data_broken (codes "receive upload data") n after_data content cuts ack small
          short in
      (
        (
          data_read.0,
          at_data end_of_file n content cuts small
              ∙ data_read.1
              ∙ ap (λ (v : ℕ). run (after_data v) (sound_end end_of_file [] data_read.0 ack))
                  (zero-add (length content)),
        ),
        (failed.0, at_data broken n content cuts small ∙ failed.1),
      )
