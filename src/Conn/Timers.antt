-- ===== src/Conn/Timers.antt =====
-- The goroutines of pkg/magic/conn.go that wait for timers: `serverHoppingLoop` and
-- `StartPeriodicCalibration`.
use quic_hop.Base.{ℕ, ◌*◌, List, [], ◌∷◌, Bool, Option, ◌==◌, if◌then◌else◌}
use quic_hop.Config.{Config}
use quic_hop.Clock.{UdpAddr, millisecond}
use quic_hop.Calibration.{Attempt, sync_with_server}
use quic_hop.Conn.Sockets.{Socket, Sockets, prebind_addr, hop}
use quic_hop.Conn.Sockets.Closing.{IsTracked, IsFresh, hop-IsTracked}

-- Which case a `select` of the hopping loop takes: the timer, with what the hop then binds and the
-- clock, or the end of the context.
pub data Woken : Type 0 where
  time_up : (UdpAddr → Option Socket) → ℕ → ℕ → Woken
  done : Woken

unfoldable pub server_hopping_loop : Config → List Woken → Sockets → Sockets
server_hopping_loop config [] c = c
server_hopping_loop config (done ∷ later) c = c
server_hopping_loop config (time_up listen now now' ∷ later) c =
    server_hopping_loop config later (hop config listen now now' c)

-- The sockets that the loop binds are new ones.
unfoldable pub BindsFresh : Config → List Woken → Sockets → Type 0
BindsFresh config [] c = Unit
BindsFresh config (done ∷ later) c = Unit
BindsFresh config (time_up listen now now' ∷ later) c =
    IsFresh (listen (prebind_addr config now now')) c
    × BindsFresh config later (hop config listen now now' c)

-- However often the loop hops, every socket with a pump stays accounted for.
server_hopping_loop-IsTracked :
    (config : Config) (woken : List Woken) (c : Sockets)
    → BindsFresh config woken c
    → IsTracked c
    → IsTracked (server_hopping_loop config woken c)
unfolding server_hopping_loop BindsFresh
server_hopping_loop-IsTracked config [] c fresh v = v
server_hopping_loop-IsTracked config (done ∷ later) c fresh v = v
server_hopping_loop-IsTracked config (time_up listen now now' ∷ later) c fresh v =
    server_hopping_loop-IsTracked config later (hop config listen now now' c) fresh.1
      (hop-IsTracked config listen now now' c fresh.0 v)

-- Which case a `select` of the calibration takes: the ticker, with what `SyncWithServer` then finds, or
-- the end of the context.
pub data Ticked : Type 0 where
  calibrated : Option (ℕ → Attempt) → Ticked
  cancelled : Ticked

-- In nanoseconds; 0 stands for every interval that is not positive.
unfoldable pub calibration_interval : ℕ → ℕ
calibration_interval interval = if interval == 0 then 60000 * millisecond else interval

-- The latency after these turns of the loop.
unfoldable pub calibration_loop : List Ticked → ℕ → ℕ
calibration_loop [] latency = latency
calibration_loop (cancelled ∷ later) latency = latency
calibration_loop (calibrated found ∷ later) latency =
    calibration_loop later (sync_with_server found)

-- A server does not calibrate.
unfoldable pub start_periodic_calibration : Bool → List Ticked → ℕ → ℕ
unfolding calibration_loop
start_periodic_calibration is_server ticks latency =
    if is_server then latency else calibration_loop ticks latency
