-- ===== src/Conn/Sockets.antt =====
-- The sockets of a connection: `NewServerConn`, `NewClientConn`, `hop`, `LocalAddr` and `Close`. A
-- socket is a record with the number it was made under, by which Go compares the pointers. Each
-- method takes the results of the system calls it makes.
pub mod Hops
pub mod Closing
pub mod Unclosed
pub mod Lifecycle
use quic_hop.Base.{
  ℕ, ◌+◌, ◌*◌, List, [], ◌∷◌, ◌++◌, Bool, true, false, ◌&&◌, not, Option, none, some, ◌==◌,
  if◌then◌else◌,
}
use quic_hop.Config.{Config, codes}
use quic_hop.Clock.{UdpAddr, millisecond, get_address_by_time, get_next_hop_delay}
use quic_hop.Conn.Packet.{Addr}

pub record Socket : Type 0 where
  pub id : ℕ
  pub bound : UdpAddr

-- The parts of `MagicConn` that name sockets, and the goroutines started on them: a receiving pump
-- for each socket of `pumped`, and a close after the old port's delay for each of `closing`.
pub record Sockets : Type 0 where
  pub is_server : Bool
  pub current_conn : Option Socket
  pub next_conn : Option Socket
  pub local_conn : Option Socket
  pub pumped : List Socket
  pub closing : List Socket
  pub cancelled : Bool

-- `GetAddressByTime(now.Add(GetNextHopDelay() + 1*time.Millisecond))`; the delay reads the clock
-- once more, at `now'`.
unfoldable pub prebind_addr : Config → ℕ → ℕ → UdpAddr
prebind_addr config now now' =
    get_address_by_time config.slot_duration_ms
      (now + (get_next_hop_delay config.slot_duration_ms now' + 1 * millisecond))

-- Binding the next port: the socket, if `net.ListenPacket` gives one, is kept and gets a pump.
unfoldable pub prebind : Config → Option Socket → Sockets → Sockets
prebind config listened c =
    if config.server_prebind_next_port_enabled
    then elim listened [
      | some l ↦ record c { next_conn = some l; pumped = l ∷ c.pumped }
      | none ↦ c
    ]
    else c

-- `none` is the error of the first `net.ListenPacket`.
unfoldable pub new_server_conn : Config → (UdpAddr → Option Socket) → ℕ → ℕ → Option Sockets
unfolding prebind
new_server_conn config listen now now' =
    elim (listen (get_address_by_time config.slot_duration_ms now)) [
      | none ↦ none
      | some l ↦ some (
          prebind config (listen (prebind_addr config now now')) (record {
            is_server = true;
            current_conn = some l;
            next_conn = none;
            local_conn = none;
            pumped = l ∷ [];
            closing = [];
            cancelled = false;
          }))
    ]

-- `none` is the error of `net.ListenPacket` on the fixed local address.
unfoldable pub new_client_conn : Option Socket → Option Sockets
new_client_conn none = none
new_client_conn (some l) = some (record {
  is_server = false;
  current_conn = none;
  next_conn = none;
  local_conn = some l;
  pumped = l ∷ [];
  closing = [];
  cancelled = false;
})

-- The prebound socket becomes the current one; without it the current one stays.
unfoldable pub promote : Sockets → Sockets
promote c = elim c.next_conn [
  | some l ↦ record c { current_conn = some l; next_conn = none }
  | none ↦ c
]

-- `prevConn != newCurrent`
unfoldable pub replaced : Option Socket → Socket → Bool
replaced none prev = true
replaced (some l) prev = not (l.id == prev.id)

-- A replaced socket is closed after the overlap.
unfoldable pub retire : Option Socket → Option Socket → Sockets → Sockets
unfolding replaced
retire none new_current c = c
retire (some prev) new_current c =
    if replaced new_current prev then record c { closing = prev ∷ c.closing } else c

unfoldable pub hop : Config → (UdpAddr → Option Socket) → ℕ → ℕ → Sockets → Sockets
hop config listen now now' c =
    let promoted = promote c in
    retire c.current_conn promoted.current_conn
      (prebind config (listen (prebind_addr config now now')) promoted)

abbrev pub bound_of : Option Socket → Option UdpAddr
bound_of none = none
bound_of (some l) = some l.bound

-- The address `LocalAddr` reports: that of a socket, or the unspecified one (`none`).
unfoldable pub local_addr : Sockets → Option UdpAddr
local_addr c = elim c.current_conn [
  | some l ↦ if c.is_server then some l.bound else bound_of c.local_conn
  | none ↦ bound_of c.local_conn
]

-- The socket that `WriteTo` sends through; on the server `none` is `net.ErrClosed`.
unfoldable pub write_socket : Sockets → Option Socket
write_socket c = if c.is_server then c.current_conn else c.local_conn

abbrev pub if_some : Option Socket → List Socket
if_some none = []
if_some (some l) = l ∷ []

-- The sockets `Close` closes, in order, and the connection after it.
unfoldable pub close : Sockets → List Socket × Sockets
close c = (
  (if c.is_server then if_some c.current_conn ++ if_some c.next_conn else [])
      ++ if_some c.local_conn,
  record c { cancelled = true },
)
