-- ===== src/Tests/Task.antt =====
-- The transfer tasks on concrete streams.
use quic_hop.Base.{
  ltb, ◌==◌, ℕ, ◌+◌, ◌-◌, ◌*◌, ◌/◌, ◌^◌, ◌≡◌, refl, List, [], ◌∷◌, ◌++◌, arith, true, u64, some,
}
use quic_hop.Config.{codes}
use quic_hop.Floats.{Floats}
use quic_hop.Strconv.{parse_uint}
use quic_hop.Clock.{put_uint64}
use quic_hop.Calibration.{get_uint64}
use quic_hop.Task.{receive_data}
use quic_hop.Task.Loss.{
  packet_lost, packet_sent, other, record_events, snapshot_loss, loss_percentage,
}
use quic_hop.Task.Server.{Readings, handle_single_task, ack}
use quic_hop.Task.Run.{End, an_end, end_of_file, broken, more, run, finished, aborted}
use quic_hop.Task.Talk.{turns, sound_end}
use quic_hop.Task.Halting.{EndsReceiving, receive_data_ends}
use quic_hop.Task.Crashing.{is_crashed, is_crashed-handle_single_task, oversized}
use quic_hop.Task.Counting.{loss_percentage-record_events, ratio}
use quic_hop.Task.Talk.Upload
use quic_hop.Task.Talk.Upload.{upload_completes}
use quic_hop.Task.Talk.Download
use quic_hop.Task.Talk.Download.{download_completes}
use quic_hop.Task.Talk.Cut
use quic_hop.Task.Talk.Cut.{upload_cut}

-- Whole numbers in place of `float64`.
abbrev pub whole_numbers : Floats
whole_numbers = record {
  Float = ℕ;
  of_uint64 = λ n. n;
  to_uint64 = λ x. u64 x;
  mul = λ x y. x * y;
  div = λ x y. x / y;
  add = λ x y. x + y;
  sub = λ x y. x - y;
  is_positive = λ x. ltb 0 x;
  is_zero = λ x. x == 0;
  parse = λ s. parse_uint s;
  seconds = λ n. n / 1000000000;
  format = λ digits x. x ∷ [];
  to_uint64_lt = λ x. omega arith;
}

abbrev pub a_reading : Readings
a_reading = record {
  started = 0;
  ended = 2000000000;
  pre_loss = (10, 0);
  post_loss = (110, 3);
  allocatable = 2 ^ 48;
}

upload_completes_example :
    ((turns 4
        (Upload.start whole_numbers a_reading a_reading (7 ∷ 8 ∷ 9 ∷ []) [] (0 ∷ 5 ∷ []))).client
      ≡ finished (Upload.client_result whole_numbers a_reading a_reading 3))
    × ((turns 4
          (Upload.start whole_numbers a_reading a_reading (7 ∷ 8 ∷ 9 ∷ []) [] (0 ∷ 5 ∷ []))).server
        ≡ finished (1, Upload.server_result whole_numbers a_reading a_reading 3))
upload_completes_example =
    upload_completes whole_numbers a_reading a_reading (7 ∷ 8 ∷ 9 ∷ []) [] (0 ∷ 5 ∷ [])
      (omega arith)

download_completes_example :
    ((turns 3 (
        Download.start whole_numbers a_reading a_reading 3
          (omega arith)
          (omega arith)
          (1 ∷ [])
          [])).client
      ≡ finished
          (Download.client_result whole_numbers a_reading a_reading 3 (omega arith) (omega arith)))
    × ((turns 3 (
          Download.start whole_numbers a_reading a_reading 3
            (omega arith)
            (omega arith)
            (1 ∷ [])
            [])).server
        ≡ finished (
          2,
          Download.server_result whole_numbers a_reading a_reading 3 (omega arith) (omega arith),
        ))
download_completes_example =
    download_completes whole_numbers a_reading a_reading 3 (omega arith) (omega arith) (1 ∷ []) []

upload_cut_example :
    ((cuts' : List ℕ) × (run
          (handle_single_task whole_numbers a_reading)
          (sound_end end_of_file (1 ∷ put_uint64 5 ++ 7 ∷ 8 ∷ []) [] [])
        ≡ (
          aborted (codes "receive client loss"),
          sound_end end_of_file [] cuts' (ack ++ ack ++ Cut.speed_report whole_numbers a_reading 2),
        )))
    × ((cuts' : List ℕ) × (run
            (handle_single_task whole_numbers a_reading)
            (sound_end broken (1 ∷ put_uint64 5 ++ 7 ∷ 8 ∷ []) [] [])
          ≡ (aborted (codes "receive upload data"), sound_end broken [] cuts' ack)))
upload_cut_example =
    upload_cut whole_numbers a_reading 5 (7 ∷ 8 ∷ []) [] (omega arith) (omega arith)

-- A client that asks for 2^63 bytes.
is_crashed-handle_single_task_example :
    is_crashed (
      (run
        (handle_single_task whole_numbers a_reading)
        (an_end (2 ∷ 128 ∷ 0 ∷ 0 ∷ 0 ∷ 0 ∷ 0 ∷ 0 ∷ 0 ∷ []) more [] [] [])).0)
    ≡ oversized a_reading (2 ∷ 128 ∷ 0 ∷ 0 ∷ 0 ∷ 0 ∷ 0 ∷ 0 ∷ 0 ∷ [])
is_crashed-handle_single_task_example =
    is_crashed-handle_single_task whole_numbers a_reading (2 ∷ 128 ∷ 0 ∷ 0 ∷ 0 ∷ 0 ∷ 0 ∷ 0 ∷ 0 ∷ [])
      more [] [] []

-- That process panics.
oversized_example : oversized a_reading (2 ∷ 128 ∷ 0 ∷ 0 ∷ 0 ∷ 0 ∷ 0 ∷ 0 ∷ 0 ∷ []) ≡ true
unfolding oversized get_uint64
oversized_example = refl

-- Five bytes are expected, three of them behind the two counted ones, and then the stream is over.
abbrev one_short : End
one_short = an_end (7 ∷ 8 ∷ []) end_of_file (0 ∷ []) [] []

receive_data_ends_example :
    EndsReceiving end_of_file 5 4
      ((run (receive_data 3 5 (codes "receive data") 2) one_short).1.inbox)
      ((run (receive_data 3 5 (codes "receive data") 2) one_short).0)
receive_data_ends_example =
    receive_data_ends (codes "receive data") 3 5 2 one_short (omega arith) (omega arith)

-- The counter of sent packets wraps around.
loss_percentage-record_events_example :
    loss_percentage whole_numbers (snapshot_loss (some (record { sent = 2 ^ 64 - 1; lost = 4 }))) (
      snapshot_loss (
        some (
          record_events 1
            (packet_sent 1
              ∷ packet_lost 1
              ∷ packet_lost 0
              ∷ other
              ∷ packet_sent 1
              ∷ packet_sent 2
              ∷ [])
            (record { sent = 2 ^ 64 - 1; lost = 4 }))))
    ≡ ratio whole_numbers 1 1 2
loss_percentage-record_events_example =
    loss_percentage-record_events whole_numbers 1
      (packet_sent 1 ∷ packet_lost 1 ∷ packet_lost 0 ∷ other ∷ packet_sent 1 ∷ packet_sent 2 ∷ [])
      (record { sent = 2 ^ 64 - 1; lost = 4 }) (omega arith) (omega arith) (omega arith)
