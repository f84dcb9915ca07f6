-- ===== src/Calibration/Listening.antt =====
-- pkg/magic/calibration.go: `StartCalibrationServer`, over what its socket gives.
use quic_hop.Base.{ℕ, ◌-◌, ◌^◌, List, [], ◌∷◌, leb, ◌==◌, length, take, replicate, if◌then◌else◌}
use Prim.Native.Nat.{min}
use quic_hop.Algo.Codec.{copy}
use quic_hop.Clock.{put_uint64}
use quic_hop.Calibration.{get_uint64}
use quic_hop.Conn.Packet.{Addr}

-- What one turn of the loop meets: an error of `ReadFromUDP`, or a datagram, its sender, and the
-- clock right after. What `WriteToUDP` returns is only logged.
pub data Arriving : Type 0 where
  read_failed : Arriving
  datagram : List ℕ → Addr → ℕ → Arriving

-- The reply to `n` bytes in the buffer. Without eight of them the time stamp is -1.
unfoldable pub reply_to : ℕ → List ℕ → ℕ → List ℕ
reply_to n buf now =
    let client_ts = if leb 8 n then get_uint64 (take 8 buf) else 2 ^ 64 - 1 in
    put_uint64 (if client_ts == now then 0 else now)

-- The datagrams sent, each with its address. The buffer is the same in every turn, so that what an
-- earlier datagram wrote stays behind a shorter one.
unfoldable pub serve_datagrams : List ℕ → List Arriving → List (Addr × List ℕ)
unfolding reply_to
serve_datagrams buf [] = []
serve_datagrams buf (read_failed ∷ es) = serve_datagrams buf es
serve_datagrams buf (datagram content from now ∷ es) =
    let buf' = copy buf content in
    (from, reply_to (min (length buf) (length content)) buf' now) ∷ serve_datagrams buf' es

-- What `ListenPacket` gives: an error, a connection that is not a UDP one, or one that is.
pub data Listened : Type 0 where
  refused : Listened
  unexpected : Listened
  listening : List Arriving → Listened

unfoldable pub start_calibration_server : Listened → List (Addr × List ℕ)
unfolding serve_datagrams
start_calibration_server refused = []
start_calibration_server unexpected = []
start_calibration_server (listening es) = serve_datagrams (replicate 1024 0) es
