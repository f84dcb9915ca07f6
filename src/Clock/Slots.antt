-- ===== src/Clock/Slots.antt =====
-- Where the waits of the hopping loop lead.
use native.Mathlib.Nat.{div-eq_of_lt-le, div-add-mod', mod-lt, add-zero}
use quic_hop.Base.{ℕ, ◌+◌, ◌-◌, ◌*◌, ◌/◌, ◌%◌, ◌≤◌, ◌<◌, ◌≡◌, ap, arith}
use quic_hop.Clock.{
  millisecond, unix_milli, slot_of, address_of_slot, get_address_by_time, get_next_hop_delay,
}

-- Every slot's address has a last octet from 2 to 254 and a port from 20000 to 39999.
pub get_address_by_time_bounds :
    (slot_ms t : ℕ)
    → let a = get_address_by_time slot_ms t in
      (2 ≤ a.last_octet) × (a.last_octet ≤ 254) × (20000 ≤ a.port) × (a.port ≤ 39999)
unfolding get_address_by_time address_of_slot
get_address_by_time_bounds slot_ms t = omega arith

-- `k` milliseconds past the next boundary lie in the next slot, if `k` is less than a slot.
next_slot : (s x k : ℕ) → 0 < s → k < s → (x + (s - x % s) + k) / s ≡ x / s + 1
next_slot s x k pos h =
    div-eq_of_lt-le s (omega (arith, div-add-mod' x s, mod-lt x {m = s} pos))
      (omega (arith, div-add-mod' x s, mod-lt x {m = s} pos))

-- Whole milliseconds added to a moment.
unix_milli-add : (t k : ℕ) → unix_milli (t + k * millisecond) ≡ unix_milli t + k
unix_milli-add t k = omega arith

-- For slots of at least a millisecond, the wait is at most one slot, never 0, and ends in the next
-- slot.
pub get_next_hop_delay_lem :
    (slot_ms now : ℕ)
    → 0 < slot_ms
    → let delay = get_next_hop_delay slot_ms now in
      (0 < delay)
      × (delay ≤ slot_ms * millisecond)
      × (slot_of slot_ms (now + delay) ≡ slot_of slot_ms now + 1)
unfolding get_next_hop_delay slot_of
get_next_hop_delay_lem s now pos = (
  omega (arith, mod-lt (unix_milli now) {m = s} pos),
  omega arith,
  rw (unix_milli-add now (s - unix_milli now % s))
      (rw add-zero at (next_slot s (unix_milli now) 0 pos pos)),
)

-- The same with a second, later reading of the clock for the wait, at most a millisecond on.
next_slot_late :
    (s x y : ℕ) → 2 ≤ s → x ≤ y → y ≤ x + 1 → y / s ≡ x / s → (x + (s - y % s + 1)) / s ≡ x / s + 1
next_slot_late s x y big lo hi same =
    let scaled : y / s * s ≡ x / s * s = ap (λ (q : ℕ). q * s) same in
    div-eq_of_lt-le s
      (omega (arith, div-add-mod' x s, div-add-mod' y s, mod-lt y {m = s} (omega arith)))
      (omega (arith, div-add-mod' x s, div-add-mod' y s, mod-lt y {m = s} (omega arith)))

-- The moment for which the next port is bound, by a clock that is read twice within a millisecond and
-- a slot, lies in the next slot, if a slot has at least two milliseconds.
pub prebound_slot :
    (slot_ms now now' : ℕ)
    → 2 ≤ slot_ms
    → unix_milli now ≤ unix_milli now'
    → unix_milli now' ≤ unix_milli now + 1
    → slot_of slot_ms now' ≡ slot_of slot_ms now
    → slot_of slot_ms (now + (get_next_hop_delay slot_ms now' + 1 * millisecond))
      ≡ slot_of slot_ms now + 1
unfolding get_next_hop_delay slot_of
prebound_slot s now now' big lo hi same =
    let whole : now + ((s - unix_milli now' % s) * millisecond + 1 * millisecond)
        ≡ now + (s - unix_milli now' % s + 1) * millisecond =
      omega arith in
    rw (whole, unix_milli-add now (s - unix_milli now' % s + 1))
      (next_slot_late s (unix_milli now) (unix_milli now') big lo hi same)
