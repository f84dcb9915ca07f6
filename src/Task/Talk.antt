-- ===== src/Task/Talk.antt =====
-- The two ends of a stream in turn: each runs until it needs bytes that have not arrived, and what it
-- wrote then arrives at the other end.
pub mod Transfer
pub mod Receive
pub mod Upload
pub mod Download
pub mod Cut
use quic_hop.Base.{ℕ, zero, suc, List, [], ◌++◌, Bool}
use quic_hop.Task.{Proc}
use quic_hop.Task.Run.{
  Halt, finished, aborted, crashed, unending, waiting, End, Ending, an_end, more, run,
}

pub record Talk (A B : Type 0) : Type 0 where
  pub client : Halt A
  pub client_end : End
  pub server : Halt B
  pub server_end : End

-- An end on which no write fails.
abbrev pub sound_end : Ending → List ℕ → List ℕ → List ℕ → End
sound_end ending inbox cuts outbox = an_end inbox ending cuts [] outbox

abbrev pub open_end : List ℕ → List ℕ → List ℕ → End
open_end = sound_end more

unfoldable pub resume : {A : Type 0} → Halt A → End → Halt A × End
resume (waiting p) e = run p e
resume (finished a) e = (finished a, e)
resume (aborted why) e = (aborted why, e)
resume crashed e = (crashed, e)
resume unending e = (unending, e)

abbrev pub sent_away : End → End
sent_away e = record e { outbox = [] }

abbrev pub arrives : List ℕ → End → End
arrives bs e = record e { inbox = e.inbox ++ bs }

-- The client's turn, then the server's.
unfoldable pub turn : {A B : Type 0} → Talk A B → Talk A B
unfolding resume
turn t =
    let (client, client_end) = resume t.client t.client_end in
    let (server, server_end) = resume t.server (arrives client_end.outbox t.server_end) in
    record {
      client = client;
      client_end = arrives server_end.outbox (sent_away client_end);
      server = server;
      server_end = sent_away server_end;
    }

unfoldable pub turns : {A B : Type 0} → ℕ → Talk A B → Talk A B
unfolding turn
turns zero t = t
turns (suc n) t = turns n (turn t)
