-- ===== src/Conn/Sockets/Lifecycle.antt =====
-- The goroutines that open and close a server's sockets, interleaved: the hopping loop, of which
-- the lock is free between the steps of a `hop`, `Close`, and the delayed closes of old ports.
pub mod Places
pub mod Accounts
pub mod Shutdown
use quic_hop.Base.{
  ℕ, ◌+◌, ◌≡◌, List, [], ◌∷◌, ◌++◌, Option, none, some, true, false, ◌==◌, if◌then◌else◌,
}
use quic_hop.Config.{Config}
use quic_hop.Conn.Sockets.{
  Socket, Sockets, prebind, promote, replaced, retire, close, if_some, new_server_conn,
}
use quic_hop.Clock.{UdpAddr}

-- Where the hopping loop is: in its `select`, at a point of `hop`, or returned. Inside `hop` it
-- holds `prevConn` and `newCurrent`, and for a while the socket that it bound and has not stored.
pub data Phase : Type 0 where
  waiting : Phase
  promoted : Option Socket → Option Socket → Phase
  listened : Option Socket → Option Socket → Socket → Phase
  rebound : Option Socket → Option Socket → Phase
  stopped : Phase

-- The connection, the hopping loop, the sockets that `net.ListenPacket` gave, and those on which
-- `Close` was called.
pub record World : Type 0 where
  pub conn : Sockets
  pub phase : Phase
  pub opened : List Socket
  pub closed : List Socket

-- How many sockets of a list have this number.
abbrev pub times : ℕ → List Socket → ℕ
times i [] = 0
times i (s ∷ ss) = (if s.id == i then 1 else 0) + times i ss

pub data Step (config : Config) (w : World) : World → Type 0 where
  turn :
      w.phase ≡ waiting
      → Step config w (record w {
        conn = promote w.conn;
        phase = promoted w.conn.current_conn (promote w.conn).current_conn;
      })
  listen :
      (prev now : Option Socket) (l : Socket)
      → w.phase ≡ promoted prev now
      → config.server_prebind_next_port_enabled ≡ true
      → times l.id w.opened ≡ 0
      → Step config w (record w { phase = listened prev now l; opened = l ∷ w.opened })
  unbound :
      (prev now : Option Socket)
      → w.phase ≡ promoted prev now
      → Step config w (record w { conn = prebind config none w.conn; phase = rebound prev now })
  store :
      (prev now : Option Socket) (l : Socket)
      → w.phase ≡ listened prev now l
      → config.server_prebind_next_port_enabled ≡ true
      → Step config w (record w { conn = prebind config (some l) w.conn; phase = rebound prev now })
  turned :
      (prev now : Option Socket)
      → w.phase ≡ rebound prev now
      → Step config w (record w { conn = retire prev now w.conn; phase = waiting })
  close_all :
      Step config w (record w { conn = (close w.conn).1; closed = (close w.conn).0 ++ w.closed })
  timer :
      (before after : List Socket) (l : Socket)
      → w.conn.closing ≡ before ++ l ∷ after
      → Step config w
          (record w { conn = record w.conn { closing = before ++ after }; closed = l ∷ w.closed })
  stop : w.phase ≡ waiting → w.conn.cancelled ≡ true → Step config w (record w { phase = stopped })

pub data Steps (config : Config) (w : World) : World → Type 0 where
  here : Steps config w w
  later : {u v : World} → Steps config w u → Step config u v → Steps config w v

-- The world after `NewServerConn`, with the sockets that it bound.
unfoldable pub fresh_server : Sockets → World
fresh_server c = record {
  conn = c;
  phase = waiting;
  opened = if_some c.current_conn ++ if_some c.next_conn;
  closed = [];
}

-- The sockets of a world, by where they are.
abbrev pub due_of : Option Socket → Option Socket → List Socket
due_of none now = []
due_of (some prev) now = if replaced now prev then prev ∷ [] else []

abbrev pub held : Phase → List Socket
held waiting = []
held (promoted prev now) = due_of prev now
held (listened prev now l) = l ∷ due_of prev now
held (rebound prev now) = due_of prev now
held stopped = []

abbrev pub places : World → List Socket
places w =
    if_some w.conn.current_conn
    ++ if_some w.conn.next_conn
    ++ held w.phase
    ++ w.conn.closing
    ++ w.closed
