-- ===== src/Clock.antt =====
-- Time slots of algo.go: the address of a moment and the wait until the next slot. A moment is a
-- number of nanoseconds since the epoch, not before it; a slot duration is in milliseconds.
pub mod Slots
use quic_hop.Base.{ℕ, ◌+◌, ◌-◌, ◌*◌, ◌/◌, ◌%◌, ◌^◌, List, [], ◌∷◌, Bool, ◌&&◌, ◌==◌, u8, ◌>>>◌}
use quic_hop.Config.{shared_secret}
use quic_hop.Algo.Fnv.{fnv_offset, fnv_write}

abbrev pub millisecond : ℕ
millisecond = 1000000

abbrev pub unix_milli : ℕ → ℕ
unix_milli t = t / millisecond

-- `binary.Write(h, binary.BigEndian, timeSlot)` for 64 bits.
abbrev pub put_uint64 : ℕ → List ℕ
put_uint64 v =
    u8 (v >>> 56)
    ∷ u8 (v >>> 48)
    ∷ u8 (v >>> 40)
    ∷ u8 (v >>> 32)
    ∷ u8 (v >>> 24)
    ∷ u8 (v >>> 16)
    ∷ u8 (v >>> 8)
    ∷ u8 v
    ∷ []

-- `192.168.2.<last_octet>:<port>`
pub record UdpAddr : Type 0 where
  pub last_octet : ℕ
  pub port : ℕ

-- The comparison of two such addresses as text.
unfoldable pub same_addr : UdpAddr → UdpAddr → Bool
same_addr a b = a.last_octet == b.last_octet && a.port == b.port

unfoldable pub slot_of : ℕ → ℕ → ℕ
slot_of slot_ms t = unix_milli t / slot_ms

unfoldable pub slot_sum : ℕ → ℕ
slot_sum time_slot = fnv_write (fnv_write fnv_offset shared_secret) (put_uint64 time_slot)

unfoldable pub address_of_slot : ℕ → UdpAddr
unfolding slot_sum
address_of_slot time_slot = record {
  last_octet = slot_sum time_slot % 253 + 2;
  port = slot_sum time_slot % 20000 + 20000;
}

unfoldable pub get_address_by_time : ℕ → ℕ → UdpAddr
unfolding slot_of
get_address_by_time slot_ms t = address_of_slot (slot_of slot_ms t)

-- The wait, in nanoseconds.
unfoldable pub get_next_hop_delay : ℕ → ℕ → ℕ
get_next_hop_delay slot_ms now = (slot_ms - unix_milli now % slot_ms) * millisecond
