-- ===== src/Conn.antt =====
-- pkg/magic/conn.go: the packet connection that hides CIDs and follows the time slots, a module for
-- each direction and for the sockets.
pub mod Packet
pub mod Pump
pub mod Read
pub mod Write
pub mod Sockets
pub mod Timers
pub mod Conversation
pub mod Network
pub mod CidGenerator
pub mod Rendezvous
